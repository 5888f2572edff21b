-- ===== src/Ext2fs/Marks.antt =====
-- The bit of a bitmap and the counter of a group, on a disk in order.
use Prim.Native.Nat.{bit_or}
use c4_os.Prelude.{
  ℕ, ◌^◌, ◌≤◌, ◌<◌, ◌≡◌, ◌≢◌, ◌⊎◌, ◌∙◌, refl, sym, ap, arith, true, some, ltb, ◌==◌, Bool-cases,
  ==-same, inl, inr,
}
use c4_os.Ext2fs.{
  BlockDevice, Io, Ext2fs, with_word, desc_word, desc_start, total_block_descs, max_block,
  read_block, write_block, get_block_descs, write_block_descs,
}
use c4_os.Ext2fs.Bitmap.{get_block_desc, count_down, take_bit}
use c4_os.Ext2fs.Access.{
  IsDisk, IsFormatted, block_words, word_of, read_block-IsRead, write_block-IsWritten,
}

with_word-other : (at v i : ℕ) (words : ℕ → ℕ) → i ≢ at → with_word at v words i ≡ words i
with_word-other at v i words apart = ground arith

elsewhere : (c b i w : ℕ) → c ≡ b → (c ≢ b) ⊎ (i ≢ w) → i ≢ w
elsewhere c b i w e (inl f) = absurd (f e)
elsewhere c b i w e (inr f) = f

with_word-same : (at v : ℕ) (words : ℕ → ℕ) → with_word at v words at ≡ v
with_word-same at v words = ground arith

module _ {ℓ} {D : Type ℓ} (dev : BlockDevice D) (fs : Ext2fs) (capacity : ℕ)
    (disk : IsDisk dev fs.block_device capacity) (format : IsFormatted fs capacity) where
  abbrev word : D → ℕ → ℕ → ℕ
  word = word_of dev fs capacity disk format

  abbrev start : ℕ
  start = desc_start dev fs

  -- A word of a block is rewritten through the buffer: it is the only one that changes.
  abbrev IsPut : D → D → ℕ → ℕ → ℕ → Type 0
  IsPut d d' b w v =
      (word d' b w ≡ v)
      × ((c i : ℕ)
          → c ≤ max_block fs
          → i < block_words fs
          → (c ≢ b) ⊎ (i ≢ w)
          → word d' c i ≡ word d c i)

  write_block-IsPut :
      (d : D) (io : Io D) (b w v : ℕ)
      → b ≤ max_block fs
      → w < block_words fs
      → ((i : ℕ) → i < block_words fs → io.buffer i ≡ word d b i)
      → ((a : ℕ) → disk.cell io.disk a ≡ disk.cell d a)
      → IsPut d (write_block dev fs b record io { buffer = with_word w v io.buffer }).1.disk b w v
  write_block-IsPut d io b w v inside small here cells =
      let put : Io D = record io { buffer = with_word w v io.buffer } in
      let write = (write_block-IsWritten dev fs capacity disk format b put inside).1 in
      (
        write.written w small ∙ with_word-same w v io.buffer,
        λ c i c_inside i_small apart. elim (Bool-cases (c == b)) [
          | inr e ↦ write.others c i c_inside (λ f. ground (arith, f, e)) i_small ∙ cells _
          | inl e ↦
              let f : c ≡ b = sym (==-same c b e) in
              let g : i ≢ w = elsewhere c b i w f apart in
              ap (λ (x : ℕ). word (write_block dev fs b put).1.disk x i) f
              ∙ write.written i i_small
              ∙ with_word-other w v i io.buffer g
              ∙ here i i_small
              ∙ ap (λ (x : ℕ). word d x i) (sym f)
        ],
      )

  -- What taking a bit does to the disk: the bit is set in the bitmap, the group's counter is changed,
  -- and every other word of every block is kept.
  pub record IsTaken (count : ℕ → ℕ) (d d' : D) (b w k g : ℕ) : Type 0 where
    pub bit_set : word d' b w ≡ bit_or (word d b w) (2 ^ k)
    pub counted : word d' start (desc_word g 3) ≡ count (word d start (desc_word g 3))
    pub others_kept :
        (c i : ℕ)
        → c ≤ max_block fs
        → i < block_words fs
        → (c ≢ b) ⊎ (i ≢ w)
        → (c ≢ start) ⊎ (i ≢ desc_word g 3)
        → word d' c i ≡ word d c i

  pub take_bit-IsTaken :
      (count : ℕ → ℕ) (d : D) (io : Io D) (b w k g : ℕ)
      → b ≤ max_block fs
      → w < block_words fs
      → start ≤ max_block fs
      → b ≢ start
      → g < total_block_descs fs
      → desc_word g 3 < block_words fs
      → ((i : ℕ) → i < block_words fs → io.buffer i ≡ word d b i)
      → ((a : ℕ) → disk.cell io.disk a ≡ disk.cell d a)
      → (io' : Io D) × (take_bit dev fs count g b w k io ≡ some io')
        × IsTaken count d io'.disk b w k g
  unfolding take_bit count_down get_block_desc get_block_descs write_block_descs
  take_bit-IsTaken count d io b w k g inside small low apart group counter here cells =
      let v : ℕ = bit_or (io.buffer w) (2 ^ k) in
      let at : ℕ = desc_word g 3 in
      let marked : Io D = record io { buffer = with_word w v io.buffer } in
      let io1 : Io D = (write_block dev fs b marked).1 in
      let first = write_block-IsPut d io b w v inside small here cells in
      let io2 : Io D = (read_block dev fs start io1).1 in
      let read = read_block-IsRead dev fs capacity disk format start io1 low in
      let second =
        write_block-IsPut io1.disk io2 start at (count (io2.buffer at)) low counter read.1.in_buffer
          read.1.same_cells in
      let e : ltb g (total_block_descs fs) ≡ true = ground arith in
      rw (e, read.0)
        (
          _,
          refl,
          record {
            bit_set =
                second.1 b w inside small (inl apart)
                ∙ first.0
                ∙ ap (λ (x : ℕ). bit_or x (2 ^ k)) (here w small);
            counted =
                second.0
                ∙ ap count (
                    read.1.in_buffer at counter
                    ∙ first.1 start at low counter (inl (λ z. apart (sym z))));
            others_kept = λ c i c_inside i_small other_bit other_counter.
                second.1 c i c_inside i_small other_counter
                ∙ first.1 c i c_inside i_small other_bit;
          },
        )
