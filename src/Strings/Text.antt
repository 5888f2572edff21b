-- ===== src/Strings/Text.antt =====
-- Strings in memory, and `strlen` and `strchr` on them.
use mathlib.Core.Path.{subst}
use c4_os.Prelude.{
  ℕ, zero, suc, ◌+◌, ◌^◌, ◌<◌, ◌≡◌, ◌≢◌, refl, ap, ◌∙◌, arith, List, [], ◌∷◌, ◌==◌, if◌then◌else◌,
  length, Option, none, some, Bool-cases, inl, inr, false,
}
use c4_os.Strings.{Memory, strlen_from, strlen, strchr, char_to_int}

-- The characters of the string at an address, which are bytes and not 0, and the 0 that ends it.
abbrev pub IsString : Memory → ℕ → List ℕ → Type 0
IsString m s [] = m s ≡ 0
IsString m s (c ∷ cs) = (m s ≡ c) × (c ≢ 0) × (c < 2 ^ 8) × IsString m (s + 1) cs

strlen_from-IsString :
    (fuel i s : ℕ) (m : Memory) (str : List ℕ)
    → IsString m (s + i) str
    → length str < fuel
    → strlen_from fuel i s m ≡ some (i + length str)
unfolding strlen_from
strlen_from-IsString zero i s m str is enough = absurd (omega arith)
strlen_from-IsString (suc fuel) i s m [] is enough = ground (arith, is)
strlen_from-IsString (suc fuel) i s m (c ∷ cs) is enough =
    let far : s + i + 1 ≡ s + (i + 1) = omega arith in
    let next =
      strlen_from-IsString fuel (i + 1) s m cs (subst (λ a. IsString m a cs) far is.3)
        (omega arith) in
    ground (arith, is.0, is.1, next)

-- With more rounds than characters, `strlen` ends and returns their number.
pub strlen-IsString :
    (fuel s : ℕ) (m : Memory) (str : List ℕ)
    → IsString m s str
    → length str < fuel
    → strlen fuel s m ≡ some (length str)
unfolding strlen
strlen-IsString fuel s m str is enough =
    let here : s ≡ s + 0 = omega arith in
    strlen_from-IsString fuel 0 s m str (subst (λ a. IsString m a str) here is) enough
    ∙ ap some (omega arith)

abbrev one_further : Option ℕ → Option ℕ
one_further none = none
one_further (some i) = some (suc i)

-- How far the character is into the list.
unfoldable pub index_of : ℕ → List ℕ → Option ℕ
index_of c [] = none
index_of c (x ∷ xs) =
    let rest = one_further (index_of c xs) in if char_to_int x == c then some 0 else rest

-- The address that many characters on.
abbrev pub address : ℕ → Option ℕ → Option ℕ
address s none = none
address s (some i) = some (s + i)

address-one_further : (s : ℕ) (o : Option ℕ) → address (s + 1) o ≡ address s (one_further o)
address-one_further s none = refl
address-one_further s (some i) = ap some (omega arith)

-- With more rounds than characters, `strchr` ends with the address of the first character that
-- equals the value, and with null where there is none, also for the final 0.
pub strchr-index_of :
    (fuel s c : ℕ) (m : Memory) (str : List ℕ)
    → IsString m s str
    → length str < fuel
    → strchr fuel s c m ≡ some (address s (index_of c str))
unfolding strchr index_of
strchr-index_of zero s c m str is enough = absurd (omega arith)
strchr-index_of (suc fuel) s c m [] is enough = ground (arith, is)
strchr-index_of (suc fuel) s c m (x ∷ xs) is enough =
    let next = strchr-index_of fuel (s + 1) c m xs is.3 (omega arith) in
    let more : (m s == 0) ≡ false = ground (arith, is.0, is.1) in
    let moved = next ∙ ap some (address-one_further s (index_of c xs)) in
    rw more (elim (Bool-cases (char_to_int x == c)) [
      | inl e ↦ rw (is.0, e) (ap (λ (a : ℕ). some (some a)) (omega arith))
      | inr ne ↦ rw (is.0, ne) moved
    ])
