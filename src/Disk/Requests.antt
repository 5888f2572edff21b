-- ===== src/Disk/Requests.antt =====
-- `ata_handle_access`: requests are answered, and what they do to the drives.
use c4_os.Prelude.{ℕ, ◌+◌, ◌^◌, ◌≤◌, ◌<◌, List, [], ◌∷◌}
use c4_os.Prelude.Ports.{Ports}
use c4_os.Disk.{Device}
use c4_os.Disk.Access.{Action, send_completed, send_error, Request}

-- The messages among the actions.
abbrev pub answers : List Action → List Action
answers [] = []
answers (send_completed e ∷ rest) = send_completed e ∷ answers rest
answers (send_error e ∷ rest) = send_error e ∷ answers rest
answers (_ ∷ rest) = answers rest

-- The sectors of a request, and where they lie.
pub record Fits (device : Device) (request : Request) (capacity : ℕ) : Type 0 where
  pub some_sectors : 0 < request.sectors
  pub few_sectors : request.sectors ≤ 256
  pub inside : request.location + request.sectors ≤ capacity
  pub small : capacity ≤ 2 ^ 28
  pub drive_number : device.drive < 2
