-- ===== src/Keyboard/Held.antt =====
-- The modifiers that are held down.
use Prim.Native.Nat.{bit_or, bit_and}
use mathlib.Core.Path.{subst}
use native.Mathlib.Decide.{dec_lt}
use native.Mathlib.Nat.{zero-div}
use c4_os.Prelude.{
  ◌∙◌, ℕ, zero, suc, ◌+◌, ◌-◌, ◌*◌, ◌%◌, ◌/◌, ◌^◌, ◌≤◌, ◌<◌, ◌≡◌, refl, sym, ap, arith, ◌||◌, ◌&&◌,
  Bool, true, false, List, [], ◌∷◌, ◌==◌, ltb, leb, not, if◌then◌else◌, get_or, All, ◌⊎◌, inl, inr,
  length,
}
use c4_os.Prelude.Bits.{passes_to, passes_to_lem}
use c4_os.Keyboard.{
  lowercase, uppercase, code_left_shift, code_right_shift, code_end, is_keyup, is_modifier,
  decode_scancode, get_event, after,
}

-- Both tables have the modifiers at the same keys.
tables_agree :
    passes_to
      (λ i.
        (get_or lowercase i 0 == get_or uppercase i 0)
        || (leb code_end (get_or lowercase i 0) && leb code_end (get_or uppercase i 0)))
      73
    ≡ true
unfolding passes_to
tables_agree = refl

same_or_both :
    (a b : ℕ)
    → ((a == b) || (leb code_end a && leb code_end b)) ≡ true
    → (b ≡ a) ⊎ ((code_end ≤ b) × (code_end ≤ a))
same_or_both a b h = ground (arith, h)

-- The 64 sets of modifiers, and the two changes of bit `c`, as seen at bit `k`.
abbrev bit : ℕ → ℕ → ℕ
bit m k = m / 2 ^ k % 2

abbrev is_change : ℕ → ℕ → ℕ → Bool
is_change m c k =
    ltb (bit_or m (2 ^ c)) 64
    && ltb (bit_and m (2 ^ 32 - 1 - 2 ^ c)) 64
    && (bit (bit_or m (2 ^ c)) k == (if k == c then 1 else bit m k))
    && (bit (bit_and m (2 ^ 32 - 1 - 2 ^ c)) k == (if k == c then 0 else bit m k))

changes_table : passes_to (λ v. is_change (v / 36) (v / 6 % 6) (v % 6)) 2304 ≡ true
unfolding passes_to
changes_table = refl

changes :
    (m c k : ℕ)
    → m < 64
    → c < 6
    → k < 6
    → (bit_or m (2 ^ c) < 64)
      × (bit_and m (2 ^ 32 - 1 - 2 ^ c) < 64)
      × (bit (bit_or m (2 ^ c)) k ≡ (if k == c then 1 else bit m k))
      × (bit (bit_and m (2 ^ 32 - 1 - 2 ^ c)) k ≡ (if k == c then 0 else bit m k))
changes m c k hm hc hk =
    let e1 : (m * 36 + c * 6 + k) / 36 ≡ m = omega arith in
    let e2 : (m * 36 + c * 6 + k) / 6 % 6 ≡ c = omega arith in
    let e3 : (m * 36 + c * 6 + k) % 6 ≡ k = omega arith in
    let row = passes_to_lem _ 2304 changes_table (m * 36 + c * 6 + k) (omega arith) in
    let v = m * 36 + c * 6 + k in
    let moved : is_change m c k ≡ true =
      subst (λ a. is_change a c k ≡ true) e1
        (subst (λ b. is_change (v / 36) b k ≡ true) e2
          (subst (λ d. is_change (v / 36) (v / 6 % 6) d ≡ true) e3 row)) in
    ground (arith, moved)

get_or_default : (xs : List ℕ) (i d e : ℕ) → i < length xs → get_or xs i d ≡ get_or xs i e
get_or_default [] i d e h = absurd (omega arith)
get_or_default (x ∷ xs) zero d e h = refl
get_or_default (x ∷ xs) (suc i) d e h = get_or_default xs i d e (omega arith)

-- The key's modifier, or its character without shift.
abbrev pub key : ℕ → ℕ
key code = get_or lowercase (code % 2 ^ 7) 0

-- Whether the modifier was pressed, and not released since.
unfoldable pub held : ℕ → List ℕ → Bool
held k [] = false
held k (code ∷ codes) =
    let rest = held k codes in if key code == k then not (is_keyup code) else rest

-- Whether the last event of either shift key was a press.
unfoldable pub shifted : List ℕ → Bool
shifted [] = false
shifted (code ∷ codes) =
    let rest = shifted codes in
    if key code == code_left_shift || key code == code_right_shift
    then not (is_keyup code)
    else rest

-- The key is in the tables.
abbrev pub IsKey : ℕ → Type 0
IsKey code = code % 2 ^ 7 < 73

not_it : (x k : ℕ) → code_end ≤ x → k < 6 → (x == k) ≡ false
not_it x k a b = ground arith

abbrev is_shift : ℕ → Bool
is_shift x = x == code_left_shift || x == code_right_shift

no_shift : (x : ℕ) → code_end ≤ x → is_shift x ≡ false
no_shift x a = ground arith

abbrev one_if : Bool → ℕ
one_if b = if b then 1 else 0

abbrev changed : ℕ → ℕ → Bool → ℕ
changed m c up =
    if is_modifier c then if up then bit_and m (2 ^ 32 - 1 - 2 ^ c) else bit_or m (2 ^ c) else m

-- One key's event, at bit `k`.
changed-held :
    (m c k : ℕ) (up old : Bool)
    → m < 64
    → k < 6
    → bit m k ≡ one_if old
    → (changed m c up < 64) × (bit (changed m c up) k ≡ one_if (if c == k then not up else old))
changed-held m c k up old small low is = elim (dec_lt c 6) [
  | yes p ↦ let t = changes m c k small p low in ground (arith, t, p, is)
  | no np ↦ ground (arith, is)
]

module _ (behind : ℕ → ℕ) where
  -- Either table tells the same about modifiers.
  decode_scancode-key :
      (code : ℕ) (upper : Bool)
      → IsKey code
      → let c = (decode_scancode behind code upper).0 in
        (c ≡ key code) ⊎ ((code_end ≤ c) × (code_end ≤ key code))
  unfolding decode_scancode
  decode_scancode-key code true h =
      let e = get_or_default uppercase (code % 2 ^ 7) (behind (code % 2 ^ 7)) 0 h in
      let row = passes_to_lem _ 73 tables_agree (code % 2 ^ 7) h in
      subst (λ z. (z ≡ key code) ⊎ ((code_end ≤ z) × (code_end ≤ key code))) (sym e)
        (same_or_both _ _ row)
  decode_scancode-key code false h =
      let e = get_or_default lowercase (code % 2 ^ 7) (behind (code % 2 ^ 7)) 0 h in inl e

  changed-key :
      (code m k : ℕ) (upper up old : Bool)
      → IsKey code
      → m < 64
      → k < 6
      → bit m k ≡ one_if old
      → let c = (decode_scancode behind code upper).0 in
        (changed m c up < 64)
        × (bit (changed m c up) k ≡ one_if (if key code == k then not up else old))
  changed-key code m k upper up old h small low is =
      let c = (decode_scancode behind code upper).0 in
      let t = changed-held m c k up old small low is in
      elim (decode_scancode-key code upper h) [
        | inl e ↦ (t.0, t.1 ∙ ap (λ (x : ℕ). one_if (if x == k then not up else old)) e)
        | inr (a, b) ↦ (
          t.0,
          t.1
              ∙ ap (λ (x : Bool). one_if (if x then not up else old))
                  (not_it c k a low ∙ sym (not_it (key code) k b low)),
        )
      ]

  decode_scancode-upper :
      (code : ℕ) (upper : Bool)
      → (decode_scancode behind code upper).1
        ≡ (if is_shift (decode_scancode behind code upper).0 then not (is_keyup code) else upper)
  unfolding decode_scancode
  decode_scancode-upper code upper = refl

  zero_bit : (k : ℕ) → 0 / 2 ^ k % 2 ≡ 0
  zero_bit k = omega (arith, zero-div (2 ^ k))

  decode_scancode-shift :
      (code : ℕ) (upper : Bool)
      → IsKey code
      → (decode_scancode behind code upper).1
        ≡ (if is_shift (key code) then not (is_keyup code) else upper)
  decode_scancode-shift code upper h =
      let c = (decode_scancode behind code upper).0 in
      let by_code : (decode_scancode behind code upper).1
          ≡ (if is_shift c then not (is_keyup code) else upper) =
        decode_scancode-upper code upper in
      by_code
      ∙ ap (λ (x : Bool). if x then not (is_keyup code) else upper)
          (elim (decode_scancode-key code upper h) [
            | inl e ↦ ap is_shift e
            | inr (a, b) ↦ no_shift c a ∙ sym (no_shift (key code) b)
          ])

  -- After any scancodes of keys in the tables, each of the six bits of `modifiers` is set exactly if
  -- the modifier's key was pressed and not released since, no other bit is set, and the upper-case
  -- table is in use exactly if the last event of either shift key was a press.
  pub after-held :
      (codes : List ℕ) (k : ℕ)
      → All IsKey codes
      → k < 6
      → let s = after behind codes in
        (s.modifiers < 64)
        × (s.modifiers / 2 ^ k % 2 ≡ (if held k codes then 1 else 0))
        × (s.is_uppercase ≡ shifted codes)
  unfolding after get_event held shifted
  after-held [] k keys low = (omega arith, zero_bit k, refl)
  after-held (code ∷ codes) k keys low =
      let (small, is, upper) = after-held codes k keys.1 low in
      let s = after behind codes in
      let t =
        changed-key code s.modifiers k s.is_uppercase (is_keyup code) (held k codes) keys.0 small
          low is in
      (
        t.0,
        t.1,
        decode_scancode-shift code s.is_uppercase keys.0
            ∙ ap (λ (u : Bool). if is_shift (key code) then not (is_keyup code) else u) upper,
      )
