-- ===== src/Disk/Tests.antt =====
-- Runs of the disk driver of programs/ata, with drives that are busy at times.
use c4_os.Prelude.{
  ℕ, ◌+◌, ◌-◌, ◌%◌, ◌≤◌, ◌<◌, ◌≡◌, ◌⊎◌, inl, inr, refl, ap, sym, arith, true, false, ◌==◌, ltb,
  if◌then◌else◌, Bool-cases, ==-same,
}
use c4_os.Prelude.Ports.{Ports}
use c4_os.Disk.{
  Device, channel_base, has_bit, status_busy, status_drq, status_error, status_fault, reg_status,
  cmd_flush,
}
use c4_os.Disk.Access.{Request}
use c4_os.Disk.Drive.{
  DriveState, IsDrive, IsTransfer, write_register, begin_transfer, next_word, put_word,
}

-- A channel with two drives, which are busy for two reads of the status after a command and after a
-- sector, and take and give nothing while they are.
record Machine : Type 0 where
  waiting : ℕ
  state : DriveState

-- The reads of the status for which the drive is busy yet, at most two.
abbrev delay_of : Machine → ℕ
delay_of m = if ltb 2 m.waiting then 2 else m.waiting

wait_bound : (m : Machine) → delay_of m ≤ 2
wait_bound m = ground arith

some_wait : (m : Machine) → 0 < delay_of m → 0 < m.waiting
some_wait m waits = ground (arith, waits)

not_waiting : (m : Machine) → delay_of m ≡ 0 → m.waiting ≡ 0
not_waiting m idle = ground (arith, idle)

abbrev after_word : DriveState → Machine
after_word s = record { waiting = if s.left % 256 == 0 then 2 else 0; state = s }

abbrev set_register : ℕ → ℕ → DriveState → Machine
set_register r v s =
    if r == 7
    then record {
      waiting = 2;
      state = if v == cmd_flush then write_register 7 v s else begin_transfer v s;
    }
    else record { waiting = 0; state = write_register r v s }

abbrev ports : Ports Machine
ports = record {
  in_byte = λ p m.
      if p == 0x1f7
      then (if m.waiting == 0 then 0x40 else 0x80, record m { waiting = delay_of m - 1 })
      else (0, m);
  out_byte = λ p v m. if m.waiting == 0 then set_register (p - 0x1f0) v m.state else m;
  in_word = λ p m.
      if m.waiting == 0
      then (m.state.store m.state.unit m.state.position, after_word (next_word m.state))
      else (0xffff, m);
  out_word = λ p v m. if m.waiting == 0 then after_word (put_word v m.state) else m;
  in_dword = λ p m. (0, m);
}

status_busy_now :
    (m : Machine)
    → 0 < m.waiting
    → (has_bit (ports.in_byte (channel_base 0 + reg_status) m).0 status_busy ≡ true)
      × (has_bit (ports.in_byte (channel_base 0 + reg_status) m).0 status_drq ≡ false)
status_busy_now m waits = let e : (m.waiting == 0) ≡ false = ground arith in rw e (refl, refl)

status_no_error :
    (m : Machine)
    → (has_bit (ports.in_byte (channel_base 0 + reg_status) m).0 status_error ≡ false)
      × (has_bit (ports.in_byte (channel_base 0 + reg_status) m).0 status_fault ≡ false)
status_no_error m = elim (Bool-cases (m.waiting == 0)) [
  | inl e ↦ rw e (refl, refl)
  | inr e ↦ rw e (refl, refl)
]

in_byte_same : (r : ℕ) (m : Machine) → (ports.in_byte (channel_base 0 + r) m).1.state ≡ m.state
in_byte_same r m = elim (Bool-cases (0x1f0 + r == 0x1f7)) [ inl e ↦ rw e refl | inr e ↦ rw e refl ]

out_byte_register :
    (r v : ℕ) (m : Machine)
    → r < 7
    → m.waiting ≡ 0
    → ports.out_byte (channel_base 0 + r) v m
      ≡ record { waiting = 0; state = write_register r v m.state }
out_byte_register r v m small idle =
    let e : 0x1f0 + r - 0x1f0 ≡ r = omega arith in
    let f : (r == 7) ≡ false = ground arith in rw (idle, e) (rw f refl)

out_byte_command :
    (v : ℕ) (m : Machine)
    → IsTransfer v
    → m.waiting ≡ 0
    → (ports.out_byte (channel_base 0 + reg_status) v m).state ≡ begin_transfer v m.state
out_byte_command v m (inl e) idle = rw (idle, e) refl
out_byte_command v m (inr e) idle = rw (idle, e) refl

out_byte_flush :
    (m : Machine)
    → m.waiting ≡ 0
    → (ports.out_byte (channel_base 0 + reg_status) cmd_flush m).state
      ≡ write_register reg_status cmd_flush m.state
out_byte_flush m idle = rw idle refl

-- Within a sector, the drive is ready for the next word.
next_ready :
    (s : DriveState) → 0 < s.left → (s.left % 256 ≡ 1) ⊎ ((after_word (next_word s)).waiting ≡ 0)
next_ready s some_left = elim (Bool-cases ((s.left - 1) % 256 == 0)) [
  | inl e ↦ inl (next_first s.left some_left (sym (==-same ((s.left - 1) % 256) 0 e)))
  | inr e ↦ inr (rw e refl)
]
  where
    next_first : (left : ℕ) → 0 < left → (left - 1) % 256 ≡ 0 → left % 256 ≡ 1
    next_first left some_left e = omega arith

out_word_put :
    (v : ℕ) (m : Machine)
    → m.waiting ≡ 0
    → 0 < m.state.left
    → ((ports.out_word (channel_base 0) v m).state ≡ put_word v m.state)
      × ((m.state.left % 256 ≡ 1) ⊎ ((ports.out_word (channel_base 0) v m).waiting ≡ 0))
out_word_put v m idle some_left = rw idle (refl, next_ready m.state some_left)

in_word_next :
    (m : Machine)
    → m.waiting ≡ 0
    → 0 < m.state.left
    → ((ports.in_word (channel_base 0) m).0 ≡ m.state.store m.state.unit m.state.position)
      × ((ports.in_word (channel_base 0) m).1.state ≡ next_word m.state)
      × ((m.state.left % 256 ≡ 1) ⊎ ((ports.in_word (channel_base 0) m).1.waiting ≡ 0))
in_word_next m idle some_left = rw idle (refl, refl, next_ready m.state some_left)

waiting_less :
    (m : Machine) → delay_of (ports.in_byte (channel_base 0 + reg_status) m).1 ≤ delay_of m - 1
waiting_less m = ground arith

still_idle : (m : Machine) → m.waiting ≡ 0 → delay_of m ≡ 0
still_idle m idle = rw idle refl

still_ready :
    (left : ℕ) (m : Machine)
    → (left % 256 ≡ 1) ⊎ (m.waiting ≡ 0)
    → (left % 256 ≡ 1) ⊎ (delay_of m ≡ 0)
still_ready left m (inl last) = inl last
still_ready left m (inr idle) = inr (still_idle m idle)

abbrev drive : IsDrive ports 0 2 1000
drive = record {
  delay = delay_of;
  state = λ m. m.state;
  delay_bound = wait_bound;
  busy = λ m waits. status_busy_now m (some_wait m waits);
  idle = λ m idle. rw (not_waiting m idle) refl;
  no_error = status_no_error;
  waits = waiting_less;
  in_byte_state = λ r m low high. in_byte_same r m;
  out_byte_state = λ r v m low high idle none_left.
      let done = out_byte_register r v m high (not_waiting m idle) in
      (ap delay_of done, ap (λ n. n.state) done);
  out_transfer =
      λ v m transfer idle none_left fits. out_byte_command v m transfer (not_waiting m idle);
  out_flush = λ m idle none_left. out_byte_flush m (not_waiting m idle);
  out_word_state = λ v m idle writing some_left.
      let put = out_word_put v m (not_waiting m idle) some_left in
      (put.0, still_ready m.state.left (ports.out_word (channel_base 0) v m) put.1);
  in_word_state = λ m idle reading some_left.
      let next = in_word_next m (not_waiting m idle) some_left in
      (next.0, next.1, still_ready m.state.left (ports.in_word (channel_base 0) m).1 next.2);
}

-- The drives are busy at first.
abbrev machine : Machine
machine = record {
  waiting = 2;
  state = record { registers = λ k. 0; left = 0; position = 0; unit = 0; store = λ u a. u + a };
}

abbrev slave : Device
slave = record {
  exists = true;
  channel = 0;
  drive = 1;
  sign = 0;
  capabilities = 0;
  commands = 0;
  size = 100;
  model = λ i. 0;
}

abbrev counting : ℕ → ℕ
counting i = i

abbrev write_request : Request
write_request = record { is_read = false; device = 1; location = 7; sectors = 2 }

abbrev devices : ℕ → Device
devices i = record slave { exists = i == 1 }
