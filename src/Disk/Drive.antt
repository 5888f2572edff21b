-- ===== src/Disk/Drive.antt =====
-- What is documented of the drives behind the ports of a channel, as a state that the ports step: the
-- assumptions that the theorems on the driver of programs/ata/src/main.c name.
use c4_os.Prelude.{
  ℕ, ◌+◌, ◌-◌, ◌*◌, ◌/◌, ◌%◌, ◌^◌, ◌≤◌, ◌<◌, ◌≡◌, ◌⊎◌, true, false, ◌==◌, ◌&&◌, if◌then◌else◌,
}
use c4_os.Prelude.Ports.{Ports}
use c4_os.Disk.{
  channel_base, has_bit, status_busy, status_drq, status_error, status_fault, reg_status,
  reg_select, reg_count, reg_lba0, reg_lba1, reg_lba2, cmd_read, cmd_write, cmd_flush,
}

-- The bytes last written to the registers; of the transfer under way, the words that are left, the
-- place of the next one and the number of the drive; and the words that each drive stores.
pub record DriveState : Type 0 where
  pub registers : ℕ → ℕ
  pub left : ℕ
  pub position : ℕ
  pub unit : ℕ
  pub store : ℕ → ℕ → ℕ

-- The registers that tell a drive where to go, the drive that they select, and the sectors.
abbrev pub address : (ℕ → ℕ) → ℕ
address registers =
    registers reg_select % 2 ^ 4 * 2 ^ 24
    + registers reg_lba2 * 2 ^ 16
    + registers reg_lba1 * 2 ^ 8
    + registers reg_lba0

abbrev pub selected : (ℕ → ℕ) → ℕ
selected registers = registers reg_select / 2 ^ 4 % 2

abbrev pub sectors_of : (ℕ → ℕ) → ℕ
sectors_of registers = if registers reg_count == 0 then 256 else registers reg_count

abbrev pub write_register : ℕ → ℕ → DriveState → DriveState
write_register r v s = record s { registers = λ k. if k == r then v else s.registers k }

-- A command to read or to write sectors starts a transfer.
abbrev pub begin_transfer : ℕ → DriveState → DriveState
begin_transfer command s = record {
  registers = λ k. if k == reg_status then command else s.registers k;
  left = 256 * sectors_of s.registers;
  position = 256 * address s.registers;
  unit = selected s.registers;
  store = s.store;
}

abbrev pub next_word : DriveState → DriveState
next_word s = record s { left = s.left - 1; position = s.position + 1 }

abbrev pub put_word : ℕ → DriveState → DriveState
put_word v s = record {
  registers = s.registers;
  left = s.left - 1;
  position = s.position + 1;
  unit = s.unit;
  store = λ u a. if u == s.unit && a == s.position then v else s.store u a;
}

-- The commands that transfer sectors.
abbrev pub IsTransfer : ℕ → Type 0
IsTransfer command = (command ≡ cmd_read) ⊎ (command ≡ cmd_write)

-- The drives of a channel, of `capacity` sectors, without errors. `delay` is for how many reads of the
-- status they are still busy, which is at most `bound`. A byte for a register is taken if the drive is
-- not busy and no transfer is under way; a word of data is taken or given if the drive is not busy
-- and a transfer is under way to which a command to write or to read has led. Within a sector the
-- drive is ready for one word after the other; after a command, and between two sectors, it may be
-- busy. Nothing is said of what is done at another time.
pub record IsDrive {ℓ} {D : Type ℓ} (ports : Ports D) (channel bound capacity : ℕ) : Type ℓ where
  pub delay : D → ℕ
  pub state : D → DriveState
  pub delay_bound : (d : D) → delay d ≤ bound
  pub busy :
      (d : D)
      → 0 < delay d
      → (has_bit (ports.in_byte (channel_base channel + reg_status) d).0 status_busy ≡ true)
        × (has_bit (ports.in_byte (channel_base channel + reg_status) d).0 status_drq ≡ false)
  pub idle :
      (d : D)
      → delay d ≡ 0
      → has_bit (ports.in_byte (channel_base channel + reg_status) d).0 status_busy ≡ false
  pub no_error :
      (d : D)
      → (has_bit (ports.in_byte (channel_base channel + reg_status) d).0 status_error ≡ false)
        × (has_bit (ports.in_byte (channel_base channel + reg_status) d).0 status_fault ≡ false)
  pub waits : (d : D) → delay (ports.in_byte (channel_base channel + reg_status) d).1 ≤ delay d - 1
  pub in_byte_state :
      (r : ℕ) (d : D)
      → 0 < r
      → r ≤ reg_status
      → state (ports.in_byte (channel_base channel + r) d).1 ≡ state d
  pub out_byte_state :
      (r v : ℕ) (d : D)
      → 0 < r
      → r < reg_status
      → delay d ≡ 0
      → (state d).left ≡ 0
      → (delay (ports.out_byte (channel_base channel + r) v d) ≡ 0)
        × (state (ports.out_byte (channel_base channel + r) v d) ≡ write_register r v (state d))
  pub out_transfer :
      (command : ℕ) (d : D)
      → IsTransfer command
      → delay d ≡ 0
      → (state d).left ≡ 0
      → address (state d).registers + sectors_of (state d).registers ≤ capacity
      → state (ports.out_byte (channel_base channel + reg_status) command d)
        ≡ begin_transfer command (state d)
  pub out_flush :
      (d : D)
      → delay d ≡ 0
      → (state d).left ≡ 0
      → state (ports.out_byte (channel_base channel + reg_status) cmd_flush d)
        ≡ write_register reg_status cmd_flush (state d)
  pub out_word_state :
      (v : ℕ) (d : D)
      → delay d ≡ 0
      → (state d).registers reg_status ≡ cmd_write
      → 0 < (state d).left
      → (state (ports.out_word (channel_base channel) v d) ≡ put_word v (state d))
        × (((state d).left % 256 ≡ 1) ⊎ (delay (ports.out_word (channel_base channel) v d) ≡ 0))
  pub in_word_state :
      (d : D)
      → delay d ≡ 0
      → (state d).registers reg_status ≡ cmd_read
      → 0 < (state d).left
      → ((ports.in_word (channel_base channel) d).0
          ≡ (state d).store (state d).unit (state d).position)
        × (state (ports.in_word (channel_base channel) d).1 ≡ next_word (state d))
        × (((state d).left % 256 ≡ 1) ⊎ (delay (ports.in_word (channel_base channel) d).1 ≡ 0))
