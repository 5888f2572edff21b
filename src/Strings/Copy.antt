-- ===== src/Strings/Copy.antt =====
-- `strlcpy`: what it leaves at the destination.
use mathlib.Core.Path.{subst}
use c4_os.Prelude.{
  false, ℕ, zero, suc, ◌+◌, ◌-◌, ◌≤◌, ◌<◌, ◌≡◌, ◌⊎◌, ap, ◌∙◌, arith, List, [], ◌∷◌, ◌==◌,
  if◌then◌else◌, length, take, min, some, ltb, leb, ◌&&◌,
}
use c4_os.Strings.{Memory, store, strlcpy_from, strlcpy}
use c4_os.Strings.Text.{IsString, strlen-IsString}

-- Memory that agrees on a string's bytes and the one behind holds the string as well.
IsString-agree :
    (m m' : Memory) (s : ℕ) (str : List ℕ)
    → IsString m s str
    → ((j : ℕ) → s ≤ j → j ≤ s + length str → m' j ≡ m j)
    → IsString m' s str
IsString-agree m m' s [] is same = same s (omega arith) (omega arith) ∙ is
IsString-agree m m' s (c ∷ cs) is same = (
  same s (omega arith) (omega arith) ∙ is.0,
  is.1,
  is.2,
  IsString-agree m m' (s + 1) cs is.3 (λ j low high. same j (omega arith) (omega arith)),
)

-- The loop's result: where it stops, and the bytes copied by then.
pub record IsCopied (n i d s : ℕ) (m : Memory) (str : List ℕ) (r : ℕ × Memory) : Type 0 where
  pub stop : r.0 ≡ i + min n (length str)
  pub bytes :
      (j : ℕ)
      → r.1 j
        ≡ (if leb (d + i) j && ltb j (d + i + min n (length str)) then m (s + (j - d)) else m j)

strlcpy_from-IsCopied :
    (n i d s : ℕ) (m : Memory) (str : List ℕ)
    → IsString m (s + i) str
    → (d + i + length str < s + i) ⊎ (s + i + length str < d + i)
    → IsCopied n i d s m str (strlcpy_from n i d s m)
unfolding strlcpy_from store
strlcpy_from-IsCopied zero i d s m str is apart = record {
  stop = omega arith;
  bytes = λ j. ground arith;
}
strlcpy_from-IsCopied (suc n) i d s m [] is apart =
    rw is (record { stop = omega arith; bytes = λ j. ground arith })
strlcpy_from-IsCopied (suc n) i d s m (c ∷ cs) is apart =
    let m' = store m (d + i) (m (s + i)) in
    let far : s + i + 1 ≡ s + (i + 1) = omega arith in
    let more : (m (s + i) == 0) ≡ false = ground (arith, is.0, is.1) in
    let rest : IsString m' (s + (i + 1)) cs =
      IsString-agree m m' (s + (i + 1)) cs (subst (λ a. IsString m a cs) far is.3)
        (λ j low high. ground (arith, low, high, apart)) in
    let r = strlcpy_from-IsCopied n (i + 1) d s m' cs rest (ground (arith, apart)) in
    let stop = r.stop in
    rw more (record { stop = omega arith; bytes = λ j. ground (arith, r.bytes j, apart) })

copied-IsString :
    (k d s : ℕ) (m : Memory) (str : List ℕ)
    → IsString m s str
    → (m' : Memory) → ((j : ℕ) → j < min k (length str) → m' (d + j) ≡ m (s + j))
    → m' (d + min k (length str)) ≡ 0
    → IsString m' d (take k str)
copied-IsString zero d s m str is m' same end = ap m' (omega arith) ∙ end
copied-IsString (suc k) d s m [] is m' same end = ap m' (omega arith) ∙ end
copied-IsString (suc k) d s m (c ∷ cs) is m' same end = (
  ap m' (omega arith) ∙ same 0 (omega arith) ∙ ap m (omega arith) ∙ is.0,
  is.1,
  is.2,
  copied-IsString k (d + 1) (s + 1) m cs is.3 m'
      (λ j low. ap m' (omega arith) ∙ same (suc j) (omega arith) ∙ ap m (omega arith))
      (ap m' (omega arith) ∙ end),
)

-- For a string of which no byte, nor its final 0, is among the first bytes of the destination that
-- it would fill, and a size `n` above 0, `strlcpy` leaves at the destination the first `n - 1`
-- characters as a string, changes nothing outside its `n` bytes, and returns the source's length.
pub strlcpy_lem :
    (fuel d s n : ℕ) (m : Memory) (str : List ℕ)
    → IsString m s str
    → (d + length str < s) ⊎ (s + length str < d)
    → length str < fuel
    → 0 < n
    → let (r, t) = strlcpy fuel d s n m in
      (r ≡ some (length str))
      × IsString t d (take (n - 1) str)
      × ((j : ℕ) → (j < d) ⊎ (d + n ≤ j) → t j ≡ m j)
unfolding strlcpy store
strlcpy_lem fuel d s n m str is apart enough some_room =
    let here : s ≡ s + 0 = omega arith in
    let w =
      strlcpy_from-IsCopied (n - 1) 0 d s m str (subst (λ a. IsString m a str) here is)
        (ground (arith, apart)) in
    let stop = w.stop in
    let out = strlcpy_from (n - 1) 0 d s m in
    let ended = store out.1 (d + out.0) 0 in
    let kept : IsString ended s str =
      IsString-agree m ended s str is (λ j low high. ground (arith, w.bytes j, stop, apart)) in
    let copied : IsString ended d (take (n - 1) str) =
      copied-IsString (n - 1) d s m str is ended
        (λ j low.
          let e : s + (d + j - d) ≡ s + j = omega arith in
          ground (arith, w.bytes (d + j), stop, low, ap m e))
        (ground (arith, stop)) in
    let positive : (n == 0) ≡ false = ground arith in
    rw positive (
      strlen-IsString fuel s ended str kept enough,
      copied,
      λ j outside. ground (arith, w.bytes j, stop, outside),
    )
