-- ===== src/Disk/Access.antt =====
-- programs/ata/src/main.c: reading and writing sectors, and what is done at the start and for a
-- request. Loops that wait for a drive are on fuel.
use Prim.Native.Nat.{bit_or}
use c4_os.Prelude.{
  ℕ, zero, suc, ◌+◌, ◌*◌, ◌/◌, ◌%◌, ◌^◌, Bool, true, false, ◌&&◌, Option, none, some, ◌==◌, ◌>>=◌,
  not, ltb, if◌then◌else◌, List, [], ◌∷◌,
}
use c4_os.Prelude.Ports.{Ports}
use c4_os.Disk.{
  Device, channel_base, has_bit, status_error, status_drq, status_busy, cmd_read, cmd_write,
  cmd_flush, cmd_packet, cmd_ident, reg_select, reg_status, word_at, dword_at, copy_model, reg_read,
  reg_write, define_access, channel_ready, channel_poll,
}

-- What a request makes the driver do besides the transfer.
pub data Action : Type 0 where
  map_buffer : ℕ → Action
  unmap_buffer : Action
  send_completed : ℕ → Action
  send_error : ℕ → Action
  cspace_remove : ℕ → Action

-- `BLOCK_MSG_READ` or `BLOCK_MSG_WRITE`, with the data of the message.
pub record Request : Type 0 where
  pub is_read : Bool
  pub device : ℕ
  pub location : ℕ
  pub sectors : ℕ

-- The value for the select register.
abbrev pub select_value : Device → ℕ → ℕ
select_value device location =
    bit_or (bit_or 0xe0 (device.drive * 2 ^ 4)) (location / 2 ^ 24 % 2 ^ 4)

module _ {ℓ} {D : Type ℓ} (ports : Ports D) where
  unfoldable pub wait_ready : ℕ → ℕ → D → Option D
  wait_ready zero channel d = none
  wait_ready (suc fuel) channel d =
      let (ready, e) = channel_ready ports channel d in
      let rest = wait_ready fuel channel e in if ready then some e else rest

  unfoldable pub start_access : ℕ → Device → ℕ → ℕ → ℕ → D → Option D
  unfolding wait_ready
  start_access fuel device location count command d = do
    ready ← wait_ready fuel device.channel d
    let a = reg_write ports device.channel reg_select (select_value device location) ready
    let b = define_access ports device.channel location count a
    channel_poll ports fuel device.channel (reg_write ports device.channel reg_status command b)

  -- The inner loop of `ide_pio_read`: `n` words to `index` and on.
  unfoldable pub read_words : ℕ → ℕ → ℕ → (ℕ → ℕ) → D → (ℕ → ℕ) × D
  read_words channel zero index buffer d = (buffer, d)
  read_words channel (suc n) index buffer d =
      let (word, e) = ports.in_word (channel_base channel) d in
      read_words channel n (index + 1) (λ j. if j == index then word else buffer j) e

  unfoldable pub read_sectors : ℕ → ℕ → ℕ → ℕ → (ℕ → ℕ) → D → Option ((ℕ → ℕ) × D)
  unfolding read_words
  read_sectors fuel channel zero sector buffer d = some (buffer, d)
  read_sectors fuel channel (suc n) sector buffer d = do
    let (filled, e) = read_words channel 256 (sector * 256) buffer d
    polled ← channel_poll ports fuel channel e
    read_sectors fuel channel n (sector + 1) filled polled

  unfoldable pub pio_read : ℕ → Device → (ℕ → ℕ) → ℕ → ℕ → D → Option ((ℕ → ℕ) × D)
  unfolding start_access read_sectors
  pio_read fuel device buffer location count d = do
    started ← start_access fuel device location count cmd_read d
    read_sectors fuel device.channel count 0 buffer started

  unfoldable pub write_words : ℕ → ℕ → ℕ → (ℕ → ℕ) → D → D
  write_words channel zero index buffer d = d
  write_words channel (suc n) index buffer d =
      write_words channel n (index + 1) buffer
        (ports.out_word (channel_base channel) (buffer index) d)

  unfoldable pub write_sectors : ℕ → ℕ → ℕ → ℕ → (ℕ → ℕ) → D → Option D
  unfolding write_words
  write_sectors fuel channel zero sector buffer d = some d
  write_sectors fuel channel (suc n) sector buffer d = do
    polled ← channel_poll ports fuel channel (write_words channel 256 (sector * 256) buffer d)
    write_sectors fuel channel n (sector + 1) buffer polled

  unfoldable pub pio_write : ℕ → Device → (ℕ → ℕ) → ℕ → ℕ → D → Option D
  unfolding start_access write_sectors
  pio_write fuel device buffer location count d = do
    started ← start_access fuel device location count cmd_write d
    written ← write_sectors fuel device.channel count 0 buffer started
    some (reg_write ports device.channel reg_status cmd_flush written)

  unfoldable pub select_drive : ℕ → ℕ → D → D
  select_drive channel select =
      reg_write ports channel reg_select (bit_or cmd_packet (select * 2 ^ 4))

  unfoldable pub identify : ℕ → D → D
  identify channel = reg_write ports channel reg_status cmd_ident

  -- `ide_init_poll`: whether the drive has an error.
  unfoldable pub init_poll : ℕ → ℕ → D → Option (Bool × D)
  init_poll zero channel d = none
  init_poll (suc fuel) channel d =
      let (status, e) = reg_read ports channel reg_status d in
      let rest = init_poll fuel channel e in
      if has_bit status status_error
      then some (true, e)
      else if not (has_bit status status_busy) && has_bit status status_drq
      then some (false, e)
      else rest

  -- `ide_read_buffer`: `n` double words to the bytes from `4 * i` on.
  unfoldable pub read_buffer : ℕ → ℕ → ℕ → (ℕ → ℕ) → D → (ℕ → ℕ) × D
  read_buffer port zero i buffer d = (buffer, d)
  read_buffer port (suc n) i buffer d =
      let (word, e) = ports.in_dword port d in
      read_buffer port n (i + 1)
        (λ j. if j / 4 == i then word / 2 ^ (8 * (j % 4)) % 2 ^ 8 else buffer j) e

  -- The device after it was looked for, with the static block that it is identified by.
  unfoldable pub init_drive : ℕ → ℕ → ℕ → Device → (ℕ → ℕ) → D → Option (Device × (ℕ → ℕ) × D)
  unfolding select_drive identify init_poll read_buffer
  init_drive fuel channel select device block d = do
    let absent = record device { exists = false }
    selected ← channel_poll ports fuel channel (select_drive channel select d)
    asked ← channel_poll ports fuel channel (identify channel selected)
    let (status, e) = reg_read ports channel reg_status asked
    if status == 0 then some (absent, block, e) else do
      (failed, f) ← init_poll fuel channel e
      let (filled, g) = read_buffer (channel_base channel) 128 0 block f
      if failed
          then some (absent, block, f)
          else some (
            record {
              exists = true;
              channel = channel;
              drive = select;
              sign = word_at filled 0x00;
              capabilities = word_at filled 0x62;
              commands = dword_at filled 0xa4;
              size = dword_at filled 0x80;
              model = copy_model filled device.model;
            },
            filled,
            g,
          )

  -- `ata_handle_access`, and the removal of the endpoint that follows in `main`. `buffer` is the
  -- memory granted as `bufobj`, by 16-bit words; `devices` are the four of `ide_drives`. The number
  -- of the device is not checked: behind the four, other memory is read as a device, a fault.
  unfoldable pub handle_access :
      ℕ → (ℕ → Device) → ℕ → ℕ → Request → (ℕ → ℕ) → D → Option (List Action × (ℕ → ℕ) × D)
  unfolding pio_read pio_write
  handle_access fuel devices endpoint bufobj request buffer d =
      let dev = devices request.device in
      let last = cspace_remove endpoint ∷ cspace_remove bufobj ∷ cspace_remove endpoint ∷ [] in
      let completed = map_buffer bufobj ∷ unmap_buffer ∷ send_completed endpoint ∷ last in
      let read = pio_read fuel dev buffer request.location request.sectors d in
      let written = pio_write fuel dev buffer request.location request.sectors d in
      if not (ltb request.device 4)
      then none
      else if not dev.exists
      then some (unmap_buffer ∷ send_error endpoint ∷ last, buffer, d)
      else if request.is_read
      then (read >>= λ (p : (ℕ → ℕ) × D). some (completed, p.0, p.1))
      else (written >>= λ (e : D). some (completed, buffer, e))
