-- ===== src/Disk/Reads.antt =====
-- The words that `ide_pio_read` reads, sector by sector.
use mathlib.Core.Path.{subst}
use native.Mathlib.Decide.{dec_lt}
use c4_os.Prelude.{
  ℕ, zero, suc, ◌+◌, ◌-◌, ◌*◌, ◌≤◌, ◌<◌, ◌≡◌, ◌⊎◌, inl, inr, refl, ap, sym, ◌∙◌, arith, false, true,
  some, Bool-cases, ==-same, ◌==◌, if◌then◌else◌, ◌>>=◌, ltb, leb, ◌&&◌,
}
use c4_os.Prelude.Ports.{Ports}
use c4_os.Disk.{channel_base, reg_status, cmd_read}
use c4_os.Disk.Access.{read_words, read_sectors}
use c4_os.Disk.Drive.{DriveState, IsDrive}
use c4_os.Disk.Transfer.{channel_poll-Waited, sector_words, less_sector}

-- The words that are read, one after the other, as those of a drive's store from a place on.
pub record IsRead (n index : ℕ) (buffer filled : ℕ → ℕ) (s s' : DriveState) : Type 0 where
  pub read_left : s'.left ≡ s.left - n
  pub read_position : s'.position ≡ s.position + n
  pub read_unit : s'.unit ≡ s.unit
  pub read_command : s'.registers reg_status ≡ s.registers reg_status
  pub read_store : (u a : ℕ) → s'.store u a ≡ s.store u a
  pub read_filled :
      (j : ℕ)
      → filled j ≡ (
          if leb index j && ltb j (index + n)
          then s.store s.unit (s.position + (j - index))
          else buffer j)

IsRead-none : (index : ℕ) (buffer : ℕ → ℕ) (s : DriveState) → IsRead 0 index buffer buffer s s
IsRead-none index buffer s = record {
  read_left = omega arith;
  read_position = omega arith;
  read_unit = refl;
  read_command = refl;
  read_store = λ u a. refl;
  read_filled = λ j. ground arith;
}

-- A read of `n` words and then one of `m` are a read of all of them.
IsRead-add :
    (n m index : ℕ) (b0 b1 b2 : ℕ → ℕ) (s s1 s2 : DriveState)
    → IsRead n index b0 b1 s s1
    → IsRead m (index + n) b1 b2 s1 s2
    → IsRead (n + m) index b0 b2 s s2
IsRead-add n m index b0 b1 b2 s s1 s2 r1 r2 = record {
  read_left = omega (arith, r1.read_left, r2.read_left);
  read_position = omega (arith, r1.read_position, r2.read_position);
  read_unit = r2.read_unit ∙ r1.read_unit;
  read_command = r2.read_command ∙ r1.read_command;
  read_store = λ u a. r2.read_store u a ∙ r1.read_store u a;
  read_filled = λ j. elim (dec_lt j (index + n)) [
    | yes low ↦
        let past : (leb (index + n) j && ltb j (index + n + m)) ≡ false = ground arith in
        let same : (leb index j && ltb j (index + n)) ≡ (leb index j && ltb j (index + (n + m))) =
          ground arith in
        r2.read_filled j ∙ rw past (r1.read_filled j ∙ rw same refl)
    | no high ↦
        let past : (leb index j && ltb j (index + n)) ≡ false = ground arith in
        let same : (leb (index + n) j && ltb j (index + n + m))
            ≡ (leb index j && ltb j (index + (n + m))) =
          ground arith in
        let place : s1.position + (j - (index + n)) ≡ s.position + (j - index) =
          omega (arith, r1.read_position, high) in
        let value : s1.store s1.unit (s1.position + (j - (index + n)))
            ≡ s.store s.unit (s.position + (j - index)) =
          r1.read_store s1.unit _
          ∙ ap (λ (u : ℕ). s.store u (s1.position + (j - (index + n)))) r1.read_unit
          ∙ ap (λ (a : ℕ). s.store s.unit a) place in
        let kept : b1 j ≡ b0 j = r1.read_filled j ∙ rw past refl in
        r2.read_filled j
        ∙ (λ i. if leb (index + n) j && ltb j (index + n + m) then value i else kept i)
        ∙ rw same refl
  ];
}

module _ {ℓ} {D : Type ℓ} (ports : Ports D) (channel bound capacity : ℕ)
    (drive : IsDrive ports channel bound capacity) where
  in_word-IsRead :
      (index : ℕ) (buffer : ℕ → ℕ) (d : D)
      → drive.delay d ≡ 0
      → (drive.state d).registers reg_status ≡ cmd_read
      → 0 < (drive.state d).left
      → IsRead 1 index buffer
          (λ j. if j == index then (ports.in_word (channel_base channel) d).0 else buffer j)
          (drive.state d)
          (drive.state (ports.in_word (channel_base channel) d).1)
  in_word-IsRead index buffer d idle reading some_left =
      let s = drive.state d in
      let word = drive.in_word_state d idle reading some_left in
      let first : s.position + (index - index) ≡ s.position = omega arith in
      record {
        read_left = ap (λ t. t.left) word.1;
        read_position = ap (λ t. t.position) word.1;
        read_unit = ap (λ t. t.unit) word.1;
        read_command = ap (λ t. t.registers reg_status) word.1;
        read_store = λ u a. ap (λ t. t.store u a) word.1;
        read_filled = λ j. elim (Bool-cases (j == index)) [
          | inl here ↦
              let e : index ≡ j = ==-same j index here in
              let inside : (leb index j && ltb j (index + 1)) ≡ true = ground arith in
              let at : s.position ≡ s.position + (j - index) = omega (arith, e) in
              rw (here, inside) (word.0 ∙ ap (λ (a : ℕ). s.store s.unit a) at)
          | inr other ↦
              let outside : (leb index j && ltb j (index + 1)) ≡ false = ground (arith, other) in
              rw (other, outside) refl
        ];
      }

  -- The words of a sector, or the last `n` of them, before `m` more sectors.
  read_words-IsRead :
      (n m index : ℕ) (buffer : ℕ → ℕ) (d : D)
      → (n ≡ 0) ⊎ (drive.delay d ≡ 0)
      → (drive.state d).registers reg_status ≡ cmd_read
      → (drive.state d).left ≡ n + 256 * m
      → n ≤ 256
      → IsRead n index buffer
          (read_words ports channel n index buffer d).0
          (drive.state d)
          (drive.state (read_words ports channel n index buffer d).1)
  unfolding read_words
  read_words-IsRead zero m index buffer d idle reading left small =
      IsRead-none index buffer (drive.state d)
  read_words-IsRead (suc n) m index buffer d idle reading left small =
      let none_left : drive.delay d ≡ 0 = ground (arith, idle) in
      let next = (ports.in_word (channel_base channel) d).1 in
      let some_left : 0 < (drive.state d).left = omega (arith, left) in
      let word = in_word-IsRead index buffer d none_left reading some_left in
      let in_word = drive.in_word_state d none_left reading some_left in
      let ready : (n ≡ 0) ⊎ (drive.delay next ≡ 0) = elim in_word.2 [
        | inl last ↦ inl (omega (arith, last, left, small))
        | inr more ↦ inr more
      ] in
      let rest =
        read_words-IsRead n m (index + 1)
          (λ j. if j == index then (ports.in_word (channel_base channel) d).0 else buffer j) next
          ready (word.read_command ∙ reading) (omega (arith, word.read_left, left))
          (omega (arith, small)) in
      let count : 1 + n ≡ suc n = omega arith in
      rw_count count (IsRead-add 1 n index buffer _ _ _ _ _ word rest)
    where
      rw_count :
          {k l i : ℕ} {b c : ℕ → ℕ} {s t : DriveState}
          → k ≡ l
          → IsRead k i b c s t
          → IsRead l i b c s t
      rw_count {i = i} {b = b} {c = c} {s = s} {t = t} e r =
          subst (λ (k : ℕ). IsRead k i b c s t) e r

  pub read_sectors-IsRead :
      (fuel n sector : ℕ) (buffer : ℕ → ℕ) (d : D)
      → bound < fuel
      → drive.delay d ≡ 0
      → (drive.state d).registers reg_status ≡ cmd_read
      → (drive.state d).left ≡ 256 * n
      → (filled : ℕ → ℕ) × (e : D) × (read_sectors ports fuel channel n sector buffer d
          ≡ some (filled, e))
        × (drive.delay e ≡ 0)
        × IsRead (n * 256) (sector * 256) buffer filled (drive.state d) (drive.state e)
  unfolding read_sectors
  read_sectors-IsRead fuel zero sector buffer d enough idle reading left =
      (buffer, d, refl, idle, IsRead-none (sector * 256) buffer (drive.state d))
  read_sectors-IsRead fuel (suc n) sector buffer d enough idle reading left =
      let r = read_words ports channel 256 (sector * 256) buffer d in
      let now =
        read_words-IsRead 256 n (sector * 256) buffer d (inr idle) reading (left ∙ sector_words n)
          (omega arith) in
      let (polled, is_done, ready, kept) =
        channel_poll-Waited ports channel bound capacity drive fuel r.1 enough in
      let here =
        subst (λ s. IsRead 256 (sector * 256) buffer r.0 (drive.state d) s) (sym kept) now in
      let (filled, e, rest, last, all) =
        read_sectors-IsRead fuel n (sector + 1) r.0 polled enough ready
          (here.read_command ∙ reading) (here.read_left ∙ less_sector n _ left) in
      let next : (sector + 1) * 256 ≡ sector * 256 + 256 = omega arith in
      let count : 256 + n * 256 ≡ suc n * 256 = omega arith in
      let after =
        subst (λ (i : ℕ). IsRead (n * 256) i r.0 filled (drive.state polled) (drive.state e)) next
          all in
      (
        filled,
        e,
        ap (λ t. t >>= λ (p : D). read_sectors ports fuel channel n (sector + 1) r.0 p) is_done
            ∙ rest,
        last,
        subst (λ (k : ℕ). IsRead k (sector * 256) buffer filled (drive.state d) (drive.state e))
            count
            (IsRead-add 256 (n * 256) (sector * 256) buffer r.0 filled (drive.state d)
              (drive.state polled) (drive.state e) here after),
      )
