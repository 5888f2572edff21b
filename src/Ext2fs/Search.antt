-- ===== src/Ext2fs/Search.antt =====
-- The search in a bitmap, on a disk in order.
use c4_os.Prelude.{
  ℕ, zero, suc, ◌+◌, ◌-◌, ◌*◌, ◌/◌, ◌<◌, ◌≡◌, ◌∙◌, refl, ap, arith, Bool, true, false, none, add32,
}
use native.Mathlib.Nat.{div-eq_of_lt}
use c4_os.Ext2fs.{BlockDevice, Io, Ext2fs, block_size, read_block}
use c4_os.Ext2fs.Bitmap.{find_clear, bitmap_block, bitmap_round, bitmap_loop}

module _ {ℓ} {D : Type ℓ} (dev : BlockDevice D) (fs : Ext2fs) (count : ℕ → ℕ)
    (g bitmap per_group : ℕ) where
  loop_round :
      (left i : ℕ) (have : Bool) (last : ℕ) (io : Io D)
      → bitmap_loop dev fs count g bitmap per_group (suc left) i have last io
        ≡ bitmap_round dev fs count g
            (add32 bitmap (i / block_size fs))
            per_group
            i
            (i - i / block_size fs * block_size fs)
            (bitmap_block dev fs bitmap (i / block_size fs) have last io)
            (bitmap_loop dev fs count g bitmap per_group left
              (i + 32)
              true
              (i / block_size fs)
              (bitmap_block dev fs bitmap (i / block_size fs) have last io).1)
  unfolding bitmap_loop
  loop_round left i have last io = refl

  -- A round with a word of the bitmap's first block, when that is in the buffer.
  pub first_block :
      (left i : ℕ) (io : Io D)
      → i < block_size fs
      → bitmap_loop dev fs count g bitmap per_group (suc left) i true 0 io
        ≡ bitmap_round dev fs count g
            (add32 bitmap 0)
            per_group
            i
            i
            (true, io)
            (bitmap_loop dev fs count g bitmap per_group left (i + 32) true 0 io)
  unfolding bitmap_block
  first_block left i io small =
      let e : i / block_size fs ≡ 0 = div-eq_of_lt small in
      let f : i - 0 * block_size fs ≡ i = omega arith in
      rw (loop_round left i true 0 io) (rw e (rw f refl))

  pass_word :
      (left i : ℕ) (io : Io D)
      → i < block_size fs
      → find_clear 32 0 (io.buffer i) ≡ none
      → bitmap_loop dev fs count g bitmap per_group (suc left) i true 0 io
        ≡ bitmap_loop dev fs count g bitmap per_group left (i + 32) true 0 io
  unfolding bitmap_round
  pass_word left i io small full = rw (first_block left i io small) (rw full refl)

  -- Words of the bitmap's first block in the buffer without a clear bit are passed over.
  pub skip_words :
      (r left i : ℕ) (io : Io D)
      → i + 32 * r < block_size fs
      → ((j : ℕ) → j < r → find_clear 32 0 (io.buffer (i + 32 * j)) ≡ none)
      → bitmap_loop dev fs count g bitmap per_group (r + left) i true 0 io
        ≡ bitmap_loop dev fs count g bitmap per_group left (i + 32 * r) true 0 io
  skip_words zero left i io small full =
      let e : i + 32 * 0 ≡ i = omega arith in
      let f : 0 + left ≡ left = omega arith in rw (e, f) refl
  skip_words (suc r) left i io small full =
      let e : suc r + left ≡ suc (r + left) = omega arith in
      let f : i + 32 * suc r ≡ i + 32 + 32 * r = omega arith in
      let h : find_clear 32 0 (io.buffer i) ≡ none =
        ap (λ (w : ℕ). find_clear 32 0 (io.buffer w)) (omega arith) ∙ full 0 (omega arith) in
      rw (e, f)
        (pass_word (r + left) i io (omega arith) h
          ∙ skip_words r left (i + 32) io (omega arith) (λ j below.
            ap (λ (w : ℕ). find_clear 32 0 (io.buffer w)) (omega arith)
            ∙ full (suc j) (omega arith)))

  -- The first round reads the bitmap's first block.
  pub read_first :
      (left : ℕ) (io : Io D)
      → 0 < block_size fs
      → (read_block dev fs (add32 bitmap 0) io).0 ≡ true
      → bitmap_loop dev fs count g bitmap per_group (suc left) 0 false 0 io
        ≡ bitmap_loop dev fs count g bitmap per_group
            (suc left)
            0
            true
            0
            (read_block dev fs (add32 bitmap 0) io).1
  unfolding bitmap_block
  read_first left io some_bytes read =
      let e : 0 / block_size fs ≡ 0 = div-eq_of_lt some_bytes in
      let f : 0 - 0 * block_size fs ≡ 0 = omega arith in
      let io1 : Io D = (read_block dev fs (add32 bitmap 0) io).1 in
      rw (loop_round left 0 false 0 io, first_block left 0 io1 some_bytes)
        (rw e (
          rw f (
            ap
              (λ (b : Bool).
                bitmap_round dev fs count g (add32 bitmap 0) per_group 0 0 (b, io1)
                  (bitmap_loop dev fs count g bitmap per_group left 32 true 0 io1))
              read)))
