-- ===== src/Heap/Sizes.antt =====
-- The list that a request is served from, after `ulog2` and the head of `c4a_alloc`.
use c4_os.Prelude.{
  ℕ, zero, suc, ◌+◌, ◌*◌, ◌/◌, ◌^◌, ◌≤◌, ◌<◌, ◌≡◌, arith, ◌==◌, if◌then◌else◌, add32,
}
use native.Mathlib.Nat.{pow-suc}
use native.Mathlib.Decide.{dec_lt}

unfoldable pub ulog2_from : ℕ → ℕ → ℕ → ℕ
ulog2_from zero n i = i
ulog2_from (suc fuel) n i =
    let rest = ulog2_from fuel (n / 2) (i + 1) in
    if n == 0 then i else if n / 2 == 0 then i else rest

-- The number halves in each round, so that it is fuel enough itself.
unfoldable pub ulog2 : ℕ → ℕ
ulog2 n = ulog2_from n n 0

unfoldable pub bucket_index : ℕ → ℕ
bucket_index size =
    let adjusted = add32 size 20 in
    let index = ulog2 adjusted in if adjusted == 2 ^ index then index else index + 1

ulog2_from_lem :
    (fuel n i : ℕ)
    → 0 < n
    → n ≤ fuel
    → (k : ℕ) × (ulog2_from fuel n i ≡ i + k) × (2 ^ k ≤ n) × (n < 2 ^ suc k)
unfolding ulog2_from
ulog2_from_lem zero n i positive enough = absurd (omega arith)
ulog2_from_lem (suc fuel) n i positive enough = elim (dec_lt 1 n) [
  | yes more ↦
      let below = ulog2_from_lem fuel (n / 2) (i + 1) (omega arith) (omega arith) in
      (
        suc below.0,
        ground (arith, below.1),
        omega (arith, below.2, pow-suc 2 below.0),
        omega (arith, below.3, pow-suc 2 (suc below.0)),
      )
  | no one ↦ (0, ground arith, omega arith, omega (arith, pow-suc 2 0))
]

-- The logarithm is the number of the highest bit that is set.
pub ulog2_lem : (n : ℕ) → 0 < n → (2 ^ ulog2 n ≤ n) × (n < 2 ^ suc (ulog2 n))
unfolding ulog2
ulog2_lem n positive =
    let found = ulog2_from_lem n n 0 positive (omega arith) in
    let e : ulog2_from n n 0 ≡ found.0 = omega (arith, found.1) in rw e (found.2, found.3)

-- A request of `size` bytes that does not wrap with its header is served from the list of the
-- smallest blocks, of the powers of two, that hold both.
pub bucket_index_lem :
    (size : ℕ)
    → size + 20 < 2 ^ 32
    → (size + 20 ≤ 2 ^ bucket_index size) × (2 ^ bucket_index size < 2 * (size + 20))
unfolding bucket_index
bucket_index_lem size small =
    let e : add32 size 20 ≡ size + 20 = omega arith in
    let log = ulog2_lem (size + 20) (omega arith) in
    rw e (ground (arith, log.0, log.1, pow-suc 2 (ulog2 (size + 20))))
