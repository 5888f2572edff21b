-- ===== src/Mouse.antt =====
-- programs/initprogs/src/ps2mouse.c: from the bytes of the mouse to mouse events. The controller
-- behind the ports is a parameter.
pub mod Packets
mod Tests
use Prim.Native.Nat.{bit_or}
use c4_os.Prelude.Ports.{Ports}
use c4_os.Prelude.{
  ℕ, zero, suc, ◌+◌, ◌-◌, ◌/◌, ◌%◌, ◌^◌, Bool, true, false, ◌&&◌, ◌||◌, ◌==◌, ltb, not,
  if◌then◌else◌, Option, none, some, List, [], ◌∷◌, ◌++◌, map, sub32,
}

abbrev pub data_port : ℕ
data_port = 0x60

abbrev pub status_port : ℕ
status_port = 0x64

-- `mouse_event_t`, as it is sent: words of 32 bits.
pub record Event : Type 0 where
  pub flags : ℕ
  pub x : ℕ
  pub y : ℕ

-- A coordinate from its sign bit and its byte.
abbrev pub moved : Bool → ℕ → ℕ
moved negative b = if negative then sub32 0 (255 - b) else b

-- The event of a packet; packets with an overflow bit give none.
unfoldable pub decode : ℕ → ℕ → ℕ → Option Event
decode a b c =
    let event : Event = record {
      flags = a % 2 ^ 3;
      x = moved (a / 2 ^ 4 % 2 == 1) b;
      y = moved (a / 2 ^ 5 % 2 == 1) c;
    } in
    if a / 2 ^ 6 % 2 == 1 || a / 2 ^ 7 % 2 == 1 then none else some event

-- `dispatch`: the messages, each with the client that it goes to.
unfoldable pub dispatch : List ℕ → ℕ → ℕ → ℕ → List (ℕ × Event)
unfolding decode
dispatch clients a b c = elim (decode a b c) [
  | none ↦ []
  | some event ↦ map (λ client. (client, event)) clients
]

-- The static array `things`, of which three bytes are used, and `counter`.
pub record Buffer : Type 0 where
  pub things : ℕ → ℕ
  pub counter : ℕ

abbrev pub empty : Buffer
empty = record { things = λ i. 0; counter = 0 }

-- One byte, in the inner loop of `event_thread`.
unfoldable pub take_byte : List ℕ → Buffer → ℕ → List (ℕ × Event) × Buffer
take_byte clients s byte =
    let filled : ℕ → ℕ = λ i. if i == s.counter then byte else s.things i in
    let count = s.counter + 1 in
    if count == 3
    then (
      dispatch clients (filled 0) (filled 1) (filled 2),
      record { things = filled; counter = 0 },
    )
    else ([], record { things = filled; counter = count })

-- The inner loop over the bytes that are ready.
unfoldable pub drain : List ℕ → Buffer → List ℕ → List (ℕ × Event) × Buffer
unfolding take_byte
drain clients s [] = ([], s)
drain clients s (byte ∷ rest) =
    let (sent, next) = take_byte clients s byte in
    let (later, last) = drain clients next rest in (sent ++ later, last)

-- An interrupt: whether the bytes are the mouse's, and the bytes.
pub record Interrupt : Type 0 where
  pub is_mouse : Bool
  pub bytes : List ℕ

-- The rounds of `event_thread`.
unfoldable pub interrupts : List ℕ → Buffer → List Interrupt → List (ℕ × Event) × Buffer
unfolding drain
interrupts clients s [] = ([], s)
interrupts clients s (now ∷ rest) =
    let (sent, next) = drain clients s now.bytes in
    let (later, last) = interrupts clients next rest in
    let skipped = interrupts clients s rest in
    if now.is_mouse then (sent ++ later, last) else skipped

-- `timeout` of both waits.
abbrev pub timeout : ℕ
timeout = 1234

module _ {ℓ} {D : Type ℓ} (ports : Ports D) where
  -- The loops of `wait_read` and `wait_write`, over the tries left.
  unfoldable pub wait_read_from : ℕ → D → Bool × D
  wait_read_from zero d = (false, d)
  wait_read_from (suc tries) d =
      let (status, e) = ports.in_byte 0x64 d in
      let rest = wait_read_from tries e in if status % 2 == 1 then (true, e) else rest

  unfoldable pub wait_write_from : ℕ → D → Bool × D
  wait_write_from zero d = (false, d)
  wait_write_from (suc tries) d =
      let (status, e) = ports.in_byte 0x64 d in
      let rest = wait_write_from tries e in if status / 2 % 2 == 0 then (true, e) else rest

  unfoldable pub wait_read : D → Bool × D
  wait_read = wait_read_from timeout

  unfoldable pub wait_write : D → Bool × D
  wait_write = wait_write_from timeout

  -- A write goes on when the wait timed out, and so does a read.
  unfoldable pub mouse_write : ℕ → ℕ → D → D
  mouse_write port thing d = ports.out_byte port thing (wait_write d).1

  unfoldable pub mouse_read : D → ℕ × D
  mouse_read d = ports.in_byte data_port (wait_read d).1

  unfoldable pub mouse_command : ℕ → D → ℕ × D
  mouse_command command d =
      mouse_read (mouse_write data_port command (mouse_write status_port 0xd4 d))

  -- The loop for the mouse's number, over the tries left.
  unfoldable pub read_id : ℕ → ℕ → D → ℕ × D
  read_id zero id d = (id, d)
  read_id (suc tries) id d =
      let (ready, e) = wait_read d in
      let (byte, f) = mouse_read e in
      let next = read_id tries byte f in
      let again = read_id tries id e in
      if ltb 4 id then (if ready then next else again) else (id, d)

  -- The number at the end is only asserted to be at most 4: the function returns in any case.
  unfoldable pub mouse_init : D → D
  mouse_init d =
      let asked = mouse_write status_port 0x20 (mouse_write status_port 0xa8 d) in
      let (status, e) = ports.in_byte data_port (wait_read asked).1 in
      let set = mouse_write data_port (bit_or status 2) (mouse_write status_port 0x60 e) in
      let reset = (mouse_command 0xff set).1 in
      let defaults = (mouse_command 0xf6 reset).1 in
      let streaming = (mouse_command 0xf4 defaults).1 in
      let rate = mouse_write data_port 40 (mouse_command 0xf3 streaming).1 in
      let (first, f) = mouse_command 0xf2 rate in (read_id 3 first f).1
