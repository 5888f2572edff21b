-- ===== src/Disk/Model.antt =====
-- `ide_copy_model`: the bytes of a drive's name.
use native.Mathlib.Decide.{dec_lt}
use c4_os.Prelude.{
  ap, ◌∙◌, ◌≤◌, ◌<◌, true, false, ℕ, zero, suc, ◌+◌, ◌-◌, ◌*◌, ◌%◌, ◌≡◌, refl, arith, ◌==◌, ltb,
  leb, ◌&&◌, if◌then◌else◌,
}
use c4_os.Disk.{copy_pairs, copy_model}

-- The pair at `i`.
pair :
    (i j : ℕ) (model : ℕ → ℕ) (old : ℕ)
    → i ≤ j
    → j < i + 2
    → (if j == i + 1 then model i else if j == i then model (i + 1) else old)
      ≡ (if (j - i) % 2 == 0 then model (j + 1) else model (j - 1))
pair i j model old low high = elim (dec_lt i j) [
  | yes second ↦ let e : i ≡ j - 1 = omega arith in ground (arith, ap model e, second)
  | no first ↦ let e : i + 1 ≡ j + 1 = omega (arith, first) in ground (arith, ap model e, first)
]

copy_pairs_lem :
    (n i : ℕ) (model name : ℕ → ℕ) (j : ℕ)
    → copy_pairs n i model name j ≡ (
        if leb i j && ltb j (i + 2 * n)
        then if (j - i) % 2 == 0 then model (j + 1) else model (j - 1)
        else name j)
unfolding copy_pairs
copy_pairs_lem zero i model name j = ground arith
copy_pairs_lem (suc n) i model name j =
    let next : ℕ → ℕ =
      λ k. if k == i + 1 then model i else if k == i then model (i + 1) else name k in
    let ih = copy_pairs_lem n (i + 2) model next j in
    ih ∙ elim (dec_lt j i) [
      | yes before ↦ ground (arith, before)
      | no from ↦ elim (dec_lt j (i + 2)) [
        | no later ↦
            let same : (j - (i + 2)) % 2 ≡ (j - i) % 2 = omega (arith, later) in
            let inside : (leb (i + 2) j && ltb j (i + 2 + 2 * n))
                ≡ (leb i j && ltb j (i + 2 * suc n)) =
              ground arith in
            let other : (j == i + 1) ≡ false = ground arith in
            let other' : (j == i) ≡ false = ground arith in rw (same, inside, other, other') refl
        | yes here ↦
            let inside : (leb i j && ltb j (i + 2 * suc n)) ≡ true = ground (arith, from, here) in
            let outside : (leb (i + 2) j && ltb j (i + 2 + 2 * n)) ≡ false = ground (arith, here) in
            rw (inside, outside) (pair i j model (name j) (omega (arith, from)) here)
      ]
    ]

-- `ide_copy_model` exchanges the two bytes of each of the 20 words that hold the name in the block,
-- puts a 0 behind them, and leaves the memory behind that alone.
pub copy_model_lem :
    (block name : ℕ → ℕ) (j : ℕ)
    → copy_model block name j ≡ (
        if j == 40
        then 0
        else if ltb j 40
        then block (0x36 + (if j % 2 == 0 then j + 1 else j - 1))
        else name j)
unfolding copy_model
copy_model_lem block name j =
    let pairs = copy_pairs_lem 20 0 (λ i. block (0x36 + i)) name j in
    let inside : (leb 0 j && ltb j (0 + 2 * 20)) ≡ ltb j 40 = ground arith in
    let plain : j - 0 ≡ j = omega arith in
    ap (λ (t : ℕ). if j == 40 then 0 else t)
      (pairs
        ∙ (rw (inside, plain) (ap (λ (t : ℕ). if ltb j 40 then t else name j) (swapped (j % 2)))))
  where
    swapped :
        (k : ℕ)
        → (if k == 0 then block (0x36 + (j + 1)) else block (0x36 + (j - 1)))
          ≡ block (0x36 + (if k == 0 then j + 1 else j - 1))
    swapped zero = refl
    swapped (suc k) = ground arith
