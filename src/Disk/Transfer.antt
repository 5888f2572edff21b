-- ===== src/Disk/Transfer.antt =====
-- Waiting for a drive, and the words of a sector that are written, in the order of the loops.
use native.Mathlib.Decide.{dec_lt}
use c4_os.Prelude.{
  ℕ, zero, suc, ◌+◌, ◌-◌, ◌*◌, ◌≤◌, ◌<◌, ◌≡◌, ◌⊎◌, refl, ap, ap₂, sym, ◌∙◌, arith, true, false,
  Option, some, ◌==◌, ◌&&◌, ltb, leb, if◌then◌else◌, ◌>>=◌, Bool-cases, inl, inr,
}
use c4_os.Prelude.Ports.{Ports}
use c4_os.Disk.{
  channel_base, reg_status, reg_alt_status, reg_read, cmd_write, channel_ready, channel_has_error,
  poll_loop, channel_poll,
}
use c4_os.Disk.Access.{wait_ready, write_words, write_sectors}
use c4_os.Disk.Drive.{DriveState, IsDrive, put_word}

-- The words of a buffer, from an index on, put one after the other.
abbrev pub put_words : ℕ → ℕ → (ℕ → ℕ) → DriveState → DriveState
put_words zero index buffer s = s
put_words (suc n) index buffer s = put_words n (index + 1) buffer (put_word (buffer index) s)

put_words-add :
    (a b index : ℕ) (buffer : ℕ → ℕ) (s : DriveState)
    → put_words b (index + a) buffer (put_words a index buffer s) ≡ put_words (a + b) index buffer s
put_words-add zero b index buffer s =
    let e : index + 0 ≡ index = omega arith in
    let f : b ≡ 0 + b = omega arith in
    ap (λ (i : ℕ). put_words b i buffer s) e ∙ ap (λ (n : ℕ). put_words n index buffer s) f
put_words-add (suc a) b index buffer s =
    let e : suc a + b ≡ suc (a + b) = omega arith in
    let f : index + suc a ≡ index + 1 + a = omega arith in
    ap (λ (i : ℕ). put_words b i buffer (put_words (suc a) index buffer s)) f
    ∙ put_words-add a b (index + 1) buffer (put_word (buffer index) s)
    ∙ ap (λ (n : ℕ). put_words n index buffer s) (sym e)

pub sector_words : (n : ℕ) → 256 * suc n ≡ 256 + 256 * n
sector_words n = omega arith

pub less_sector : (n left : ℕ) → left ≡ 256 * suc n → left - 256 ≡ 256 * n
less_sector n left e = omega (arith, e)

-- What they leave: the words lie in the store from the place on, and nothing else has changed there.
pub record IsPut (n index : ℕ) (buffer : ℕ → ℕ) (s s' : DriveState) : Type 0 where
  pub put_left : s'.left ≡ s.left - n
  pub put_registers : (k : ℕ) → s'.registers k ≡ s.registers k
  pub put_store :
      (u a : ℕ)
      → s'.store u a ≡ (
          if u == s.unit && (leb s.position a && ltb a (s.position + n))
          then buffer (index + (a - s.position))
          else s.store u a)

pub put_words-IsPut :
    (n index : ℕ) (buffer : ℕ → ℕ) (s : DriveState)
    → IsPut n index buffer s (put_words n index buffer s)
put_words-IsPut zero index buffer s = record {
  put_left = omega arith;
  put_registers = λ k. refl;
  put_store = λ u a. ground arith;
}
put_words-IsPut (suc n) index buffer s =
    let ih = put_words-IsPut n (index + 1) buffer (put_word (buffer index) s) in
    record {
      put_left = omega (arith, ih.put_left);
      put_registers = ih.put_registers;
      put_store = λ u a. elim (dec_lt s.position a) [
        | yes after ↦
            let at : index + 1 + (a - (s.position + 1)) ≡ index + (a - s.position) = omega arith in
            ground (arith, ih.put_store u a, ap buffer at)
        | no before ↦ elim (dec_lt a s.position) [
          | yes low ↦ ground (arith, ih.put_store u a)
          | no same ↦
              let at : index ≡ index + (a - s.position) = omega arith in
              ground (arith, ih.put_store u a, ap buffer at)
        ]
      ];
    }

module _ {ℓ} {D : Type ℓ} (ports : Ports D) (channel bound capacity : ℕ)
    (drive : IsDrive ports channel bound capacity) where
  -- What a wait results in: the drive is not busy any more, and in the state that it was in.
  abbrev pub Waited : Option D → D → Type ℓ
  Waited result d =
      (e : D) × (result ≡ some e) × (drive.delay e ≡ 0) × (drive.state e ≡ drive.state d)

  ready-idle : (d : D) → (channel_ready ports channel d).0 ≡ true → drive.delay d ≡ 0
  unfolding channel_ready reg_read
  ready-idle d now = elim (dec_lt 0 (drive.delay d)) [
    | no idle ↦ omega (arith, idle)
    | yes waiting ↦ let b = drive.busy d waiting in absurd (ground (arith, now, b.0, b.1))
  ]

  busy-waiting : (d : D) → (channel_ready ports channel d).0 ≡ false → 0 < drive.delay d
  unfolding channel_ready reg_read
  busy-waiting d not_ready = elim (dec_lt 0 (drive.delay d)) [
    | yes waiting ↦ waiting
    | no idle ↦ absurd (ground (arith, not_ready, drive.idle d (omega (arith, idle))))
  ]

  no_error_seen : (d : D) → (channel_has_error ports channel d).0 ≡ false
  unfolding channel_has_error reg_read
  no_error_seen d = let n = drive.no_error d in rw (n.0, n.1) refl

  after_status :
      (d : D) → drive.state (ports.in_byte (channel_base channel + reg_status) d).1 ≡ drive.state d
  after_status d = drive.in_byte_state reg_status d (omega arith) (omega arith)

  poll_loop-Waited :
      (fuel : ℕ) (d e : D)
      → drive.delay e < fuel
      → drive.state e ≡ drive.state d
      → Waited (poll_loop ports fuel channel e) d
  unfolding poll_loop channel_ready channel_has_error reg_read
  poll_loop-Waited zero d e enough kept = absurd (omega arith)
  poll_loop-Waited (suc fuel) d e enough kept =
      let status = channel_base channel + reg_status in
      let e1 = (ports.in_byte status e).1 in
      let e2 = (ports.in_byte status e1).1 in
      elim (Bool-cases (channel_ready ports channel e).0) [
        | inl now ↦
            let none_left = ready-idle e now in
            rw now (e1, refl, omega (arith, drive.waits e, none_left), after_status e ∙ kept)
        | inr busy ↦
            let later =
              poll_loop-Waited fuel d e2
                (omega (arith, enough, busy-waiting e busy, drive.waits e, drive.waits e1))
                (after_status e1 ∙ after_status e ∙ kept) in
            let fine = no_error_seen e1 in rw (busy, fine) later
      ]

  after_alt :
      (d e : D)
      → drive.state e ≡ drive.state d
      → drive.state (ports.in_byte (channel_base channel + reg_alt_status) e).1 ≡ drive.state d
  after_alt d e kept = drive.in_byte_state reg_alt_status e (omega arith) (omega arith) ∙ kept

  pub channel_poll-Waited :
      (fuel : ℕ) (d : D) → bound < fuel → Waited (channel_poll ports fuel channel d) d
  unfolding channel_poll reg_read
  channel_poll-Waited fuel d enough =
      let alt = channel_base channel + reg_alt_status in
      let e1 = (ports.in_byte alt d).1 in
      let e2 = (ports.in_byte alt e1).1 in
      let e3 = (ports.in_byte alt e2).1 in
      let e4 = (ports.in_byte alt e3).1 in
      poll_loop-Waited fuel d e4 (omega (arith, drive.delay_bound e4))
        (after_alt d e3 (after_alt d e2 (after_alt d e1 (after_alt d d refl))))

  wait_ready_from :
      (fuel : ℕ) (d e : D)
      → drive.delay e < fuel
      → drive.state e ≡ drive.state d
      → Waited (wait_ready ports fuel channel e) d
  unfolding wait_ready channel_ready reg_read
  wait_ready_from zero d e enough kept = absurd (omega arith)
  wait_ready_from (suc fuel) d e enough kept =
      let e1 = (ports.in_byte (channel_base channel + reg_status) e).1 in
      elim (Bool-cases (channel_ready ports channel e).0) [
        | inl now ↦
            let none_left = ready-idle e now in
            rw now (e1, refl, omega (arith, drive.waits e, none_left), after_status e ∙ kept)
        | inr busy ↦
            let later =
              wait_ready_from fuel d e1 (omega (arith, enough, busy-waiting e busy, drive.waits e))
                (after_status e ∙ kept) in
            rw busy later
      ]

  pub wait_ready-Waited :
      (fuel : ℕ) (d : D) → bound < fuel → Waited (wait_ready ports fuel channel d) d
  wait_ready-Waited fuel d enough =
      wait_ready_from fuel d d (omega (arith, drive.delay_bound d, enough)) refl

  -- The words of a sector, or the last `n` of them, before `m` more sectors.
  write_words-state :
      (n m index : ℕ) (buffer : ℕ → ℕ) (d : D)
      → (n ≡ 0) ⊎ (drive.delay d ≡ 0)
      → (drive.state d).registers reg_status ≡ cmd_write
      → (drive.state d).left ≡ n + 256 * m
      → n ≤ 256
      → drive.state (write_words ports channel n index buffer d)
        ≡ put_words n index buffer (drive.state d)
  unfolding write_words
  write_words-state zero m index buffer d idle writing left small = refl
  write_words-state (suc n) m index buffer d idle writing left small =
      let none_left : drive.delay d ≡ 0 = ground (arith, idle) in
      let next = ports.out_word (channel_base channel) (buffer index) d in
      let out = drive.out_word_state (buffer index) d none_left writing (omega (arith, left)) in
      let ready : (n ≡ 0) ⊎ (drive.delay next ≡ 0) = elim out.1 [
        | inl last ↦ inl (omega (arith, last, left, small))
        | inr more ↦ inr more
      ] in
      write_words-state n m (index + 1) buffer next ready
        (ap (λ s. s.registers reg_status) out.0 ∙ writing)
        (ap (λ s. s.left) out.0 ∙ omega (arith, left)) (omega (arith, small))
      ∙ ap (put_words n (index + 1) buffer) out.0

  pub write_sectors-state :
      (fuel n sector : ℕ) (buffer : ℕ → ℕ) (d : D)
      → bound < fuel
      → drive.delay d ≡ 0
      → (drive.state d).registers reg_status ≡ cmd_write
      → (drive.state d).left ≡ 256 * n
      → (e : D) × (write_sectors ports fuel channel n sector buffer d ≡ some e)
        × (drive.delay e ≡ 0)
        × (drive.state e ≡ put_words (n * 256) (sector * 256) buffer (drive.state d))
  unfolding write_sectors
  write_sectors-state fuel zero sector buffer d enough idle writing left = (d, refl, idle, refl)
  write_sectors-state fuel (suc n) sector buffer d enough idle writing left =
      let after = write_words ports channel 256 (sector * 256) buffer d in
      let put =
        write_words-state 256 n (sector * 256) buffer d (inr idle) writing (left ∙ sector_words n)
          (omega arith) in
      let (polled, is_done, ready, kept) = channel_poll-Waited fuel after enough in
      let here = kept ∙ put in
      let is_put = put_words-IsPut 256 (sector * 256) buffer (drive.state d) in
      let (e, rest, last, all) =
        write_sectors-state fuel n (sector + 1) buffer polled enough ready
          (ap (λ s. s.registers reg_status) here ∙ is_put.put_registers reg_status ∙ writing)
          (ap (λ s. s.left) here ∙ is_put.put_left ∙ less_sector n _ left) in
      let next : (sector + 1) * 256 ≡ sector * 256 + 256 = omega arith in
      let count : 256 + n * 256 ≡ suc n * 256 = omega arith in
      (
        e,
        ap (λ r. r >>= λ (p : D). write_sectors ports fuel channel n (sector + 1) buffer p) is_done
            ∙ rest,
        last,
        all
            ∙ ap₂ (λ (i : ℕ) (s : DriveState). put_words (n * 256) i buffer s) next here
            ∙ put_words-add 256 (n * 256) (sector * 256) buffer (drive.state d)
            ∙ ap (λ (k : ℕ). put_words k (sector * 256) buffer (drive.state d)) count,
      )
