-- ===== src/Disk.antt =====
-- programs/ata/src/main.c and ata.h: the driver of the disks. The drives behind the ports are a
-- parameter.
pub mod Access
pub mod Drive
pub mod Registers
pub mod Transfer
mod Reads
pub mod Sectors
pub mod Model
pub mod Requests
mod Tests
use Prim.Native.Nat.{bit_or}
use c4_os.Prelude.Ports.{Ports}
use c4_os.Prelude.{
  ℕ, zero, suc, ◌+◌, ◌-◌, ◌*◌, ◌/◌, ◌%◌, ◌^◌, Bool, true, false, ◌||◌, ◌&&◌, Option, none, some,
  ◌==◌, ltb, not, if◌then◌else◌, List, [], ◌∷◌, ◌++◌, get_or, set,
}

-- `ide_device_t`, with the name as its bytes; no routine uses `type` and `ctrl`.
pub record Device : Type 0 where
  pub exists : Bool
  pub channel : ℕ
  pub drive : ℕ
  pub sign : ℕ
  pub capabilities : ℕ
  pub commands : ℕ
  pub size : ℕ
  pub model : ℕ → ℕ

-- The ports of a channel, `ide_channel_t`, as `ide_init` sets them: the only part that is used.
abbrev pub channel_base : ℕ → ℕ
channel_base channel = if channel == 0 then 0x1f0 else 0x170

-- The status bits.
abbrev pub has_bit : ℕ → ℕ → Bool
has_bit status bit = status / bit % 2 == 1

abbrev pub status_error : ℕ
status_error = 0x01

abbrev pub status_drq : ℕ
status_drq = 0x08

abbrev pub status_fault : ℕ
status_fault = 0x20

abbrev pub status_busy : ℕ
status_busy = 0x80

-- The commands.
abbrev pub cmd_read : ℕ
cmd_read = 0x20

abbrev pub cmd_write : ℕ
cmd_write = 0x30

abbrev pub cmd_flush : ℕ
cmd_flush = 0xe7

abbrev pub cmd_packet : ℕ
cmd_packet = 0xa0

abbrev pub cmd_ident : ℕ
cmd_ident = 0xec

-- The registers, from a channel's first port.
abbrev pub reg_error : ℕ
reg_error = 1

abbrev pub reg_count : ℕ
reg_count = 2

abbrev pub reg_lba0 : ℕ
reg_lba0 = 3

abbrev pub reg_lba1 : ℕ
reg_lba1 = 4

abbrev pub reg_lba2 : ℕ
reg_lba2 = 5

abbrev pub reg_select : ℕ
reg_select = 6

-- `ATA_REG_ALT_STATUS` and `ATA_REG_CONTROL`.
abbrev pub reg_alt_status : ℕ
reg_alt_status = 6

-- `ATA_REG_COMMAND` and `ATA_REG_STATUS`.
abbrev pub reg_status : ℕ
reg_status = 7

abbrev pub device_number : ℕ → ℕ → ℕ
device_number channel select = channel * 2 + select

-- The loop of `ide_copy_model` over the pairs left.
unfoldable pub copy_pairs : ℕ → ℕ → (ℕ → ℕ) → (ℕ → ℕ) → ℕ → ℕ
copy_pairs zero i model name = name
copy_pairs (suc n) i model name =
    copy_pairs n (i + 2) model
      λ j. if j == i + 1 then model i else if j == i then model (i + 1) else name j

-- The name starts at byte 0x36 of the block, and ends with a 0.
unfoldable pub copy_model : (ℕ → ℕ) → (ℕ → ℕ) → ℕ → ℕ
unfolding copy_pairs
copy_model block name j = if j == 40 then 0 else copy_pairs 20 0 (λ i. block (0x36 + i)) name j

-- Little-endian fields of a block.
abbrev pub word_at : (ℕ → ℕ) → ℕ → ℕ
word_at block i = block i + block (i + 1) * 2 ^ 8

abbrev pub dword_at : (ℕ → ℕ) → ℕ → ℕ
dword_at block i = word_at block i + word_at block (i + 2) * 2 ^ 16

module _ {ℓ} {D : Type ℓ} (ports : Ports D) where
  unfoldable pub reg_read : ℕ → ℕ → D → ℕ × D
  reg_read channel reg = ports.in_byte (channel_base channel + reg)

  -- The value is passed as a byte.
  unfoldable pub reg_write : ℕ → ℕ → ℕ → D → D
  reg_write channel reg value = ports.out_byte (channel_base channel + reg) (value % 2 ^ 8)

  unfoldable pub define_access : ℕ → ℕ → ℕ → D → D
  unfolding reg_write
  define_access channel location count d =
      let a = reg_write channel reg_count count d in
      let b = reg_write channel reg_lba0 (location % 2 ^ 8) a in
      let c = reg_write channel reg_lba1 (location / 2 ^ 8 % 2 ^ 8) b in
      reg_write channel reg_lba2 (location / 2 ^ 16 % 2 ^ 8) c

  unfoldable pub channel_ready : ℕ → D → Bool × D
  unfolding reg_read
  channel_ready channel d =
      let (status, e) = reg_read channel reg_status d in
      (not (has_bit status status_busy) || has_bit status status_drq, e)

  unfoldable pub channel_has_error : ℕ → D → Bool × D
  unfolding reg_read
  channel_has_error channel d =
      let (status, e) = reg_read channel reg_status d in
      (has_bit status status_error || has_bit status status_fault, e)

  -- The loop of `ide_channel_poll`, on fuel.
  unfoldable pub poll_loop : ℕ → ℕ → D → Option D
  unfolding channel_ready channel_has_error reg_read
  poll_loop zero channel d = none
  poll_loop (suc fuel) channel d =
      let (ready, e) = channel_ready channel d in
      let (failed, f) = channel_has_error channel e in
      let rest = poll_loop fuel channel f in
      if ready then some e else if failed then some (reg_read channel reg_error f).1 else rest

  -- Four reads of the alternate status come first. The interrupt message that is taken from the queue
  -- at the end is not used.
  unfoldable pub channel_poll : ℕ → ℕ → D → Option D
  unfolding reg_read
  channel_poll fuel channel d =
      let once : D → D = λ e. (reg_read channel reg_alt_status e).1 in
      poll_loop fuel channel (once (once (once (once d))))
