-- ===== src/Disk/Registers.antt =====
-- What `ide_start_access` leaves in a drive's registers.
use c4_os.Prelude.{ℕ, ◌+◌, ◌*◌, ◌/◌, ◌%◌, ◌^◌, ◌≡◌}
use c4_os.Prelude.Ports.{Ports}
use c4_os.Disk.{
  Device, channel_base, reg_status, reg_select, reg_count, reg_lba0, reg_lba1, reg_lba2,
}
use c4_os.Disk.Drive.{DriveState, IsDrive, address, selected, sectors_of, write_register}

-- The state that the five writes lead to.
abbrev addressed : ℕ → ℕ → ℕ → DriveState → DriveState
addressed value location count s = write_register reg_lba2 (location / 2 ^ 16 % 2 ^ 8 % 2 ^ 8) (
    write_register reg_lba1 (location / 2 ^ 8 % 2 ^ 8 % 2 ^ 8) (
      write_register reg_lba0 (location % 2 ^ 8 % 2 ^ 8)
        (write_register reg_count (count % 2 ^ 8) (write_register reg_select (value % 2 ^ 8) s))))

-- What a drive's state is once a transfer of `count` sectors from `location` on has begun.
pub record IsStarted (number location count command : ℕ) (s s' : DriveState) : Type 0 where
  pub at_location : address s'.registers ≡ location
  pub at_drive : selected s'.registers ≡ number
  pub of_sectors : sectors_of s'.registers ≡ count
  pub with_command : s'.registers reg_status ≡ command
  pub all_left : s'.left ≡ 256 * count
  pub at_position : s'.position ≡ 256 * location
  pub on_unit : s'.unit ≡ number
  pub same_store : (u a : ℕ) → s'.store u a ≡ s.store u a

module _ {ℓ} {D : Type ℓ} (ports : Ports D) (device : Device) (bound capacity : ℕ)
    (drive : IsDrive ports device.channel bound capacity) where
  abbrev out : ℕ → ℕ → D → D
  out r v = ports.out_byte (channel_base device.channel + r) v

  -- A drive in a state, that takes bytes for its registers.
  abbrev Takes : D → DriveState → Type 0
  Takes d s = (drive.delay d ≡ 0) × (drive.state d ≡ s)
