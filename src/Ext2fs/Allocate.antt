-- ===== src/Ext2fs/Allocate.antt =====
-- What `ext2_alloc_block` and `ext2_alloc_inode` do to a disk in order.
use c4_os.Prelude.{
  ℕ, suc, ◌+◌, ◌-◌, ◌*◌, ◌/◌, ◌^◌, ◌≤◌, ◌<◌, ◌≡◌, ◌≢◌, ◌∙◌, refl, ap, arith, true, false, Option,
  none, some, ltb, add32,
}
use c4_os.Ext2fs.{
  BlockDevice, Io, Ext2fs, desc_word, desc_start, block_size, block_size_to_sectors,
  total_block_descs, max_block, read_block, get_block_descs,
}
use c4_os.Ext2fs.Bitmap.{
  find_clear, count_block, count_inode, get_block_desc, answer, bitmap_round, bitmap_loop,
  search_group, alloc_block, alloc_inode,
}
use c4_os.Ext2fs.Access.{IsDisk, IsFormatted, block_words, word_of, read_block-IsRead}
use c4_os.Ext2fs.Search.{read_first, skip_words, first_block}
use c4_os.Ext2fs.Bits.{find_clear_lem, bit_or-clear}
use c4_os.Ext2fs.Marks.{IsTaken, take_bit-IsTaken}

module _ {ℓ} {D : Type ℓ} (dev : BlockDevice D) (fs : Ext2fs) (capacity : ℕ)
    (disk : IsDisk dev fs.block_device capacity) (format : IsFormatted fs capacity) where
  abbrev word : D → ℕ → ℕ → ℕ
  word = word_of dev fs capacity disk format

  abbrev start : ℕ
  start = desc_start dev fs

  -- The block that the bitmap of a group begins with, named by a word of the group's descriptor.
  abbrev pub map_block : D → ℕ → ℕ → ℕ
  map_block d g field = add32 (word d start (desc_word g field)) 0

  -- The first bit that is clear in the words of the bitmap that are looked at is bit `k` of the
  -- `r`-th, which lies in the first block; that block and the descriptors are of the filesystem.
  pub record HasClear (d : D) (field per_group g r k : ℕ) : Type 0 where
    pub group_inside : g < total_block_descs fs
    pub low : start ≤ max_block fs
    pub map_inside : map_block d g field ≤ max_block fs
    pub map_apart : map_block d g field ≢ start
    pub field_inside : desc_word g field < block_words fs
    pub counter_inside : desc_word g 3 < block_words fs
    pub word_inside : 32 * r < block_words fs
    pub in_group : 32 * r < per_group
    pub full : (j : ℕ) → j < r → find_clear 32 0 (word d (map_block d g field) (32 * j)) ≡ none
    pub found : find_clear 32 0 (word d (map_block d g field) (32 * r)) ≡ some k

  -- What a search comes to: the number, and a bit that is taken.
  abbrev Allocated : (ℕ → ℕ) → D → ℕ → ℕ → ℕ → ℕ → ℕ → Option (ℕ × Io D) → Type ℓ
  Allocated count d field per_group g r k result =
      (io' : Io D) × (result ≡ some (add32 (g * per_group) (32 * r + k), io'))
      × IsTaken dev fs capacity disk format count d io'.disk (map_block d g field) (32 * r) k g

  words_bytes : block_words fs ≤ block_size fs
  unfolding block_size_to_sectors
  words_bytes = omega arith

  search_loop :
      (count : ℕ → ℕ) (field per_group g r k : ℕ) (d : D) (io : Io D)
      → HasClear d field per_group g r k
      → ((a : ℕ) → disk.cell io.disk a ≡ disk.cell d a)
      → Allocated count d field per_group g r k (
          bitmap_loop dev fs count g
            (word d start (desc_word g field))
            per_group
            ((per_group + 31) / 32)
            0
            false
            0
            io)
  unfolding bitmap_round answer
  search_loop count field per_group g r k d io clear cells =
      let bitmap : ℕ = word d start (desc_word g field) in
      let b : ℕ = map_block d g field in
      let left : ℕ = (per_group + 31) / 32 - suc r in
      let rounds : (per_group + 31) / 32 ≡ suc (r + left) = omega (arith, clear.in_group) in
      let rounds' : suc (r + left) ≡ r + suc left = omega arith in
      let bytes = words_bytes in
      let read = read_block-IsRead dev fs capacity disk format b io clear.map_inside in
      let io1 : Io D = (read_block dev fs b io).1 in
      let here = λ (i : ℕ) (small : i < block_words fs). read.1.in_buffer i small ∙ cells _ in
      let e : 0 + 32 * r ≡ 32 * r = omega arith in
      let skip =
        skip_words dev fs count g bitmap per_group r (suc left) 0 io1
          (omega (arith, clear.word_inside, bytes))
          (λ j below.
            ap (λ (i : ℕ). find_clear 32 0 (io1.buffer i)) (omega arith)
            ∙ ap (λ (x : ℕ). find_clear 32 0 x)
                (here (32 * j) (omega (arith, below, clear.word_inside)))
            ∙ clear.full j below) in
      let f : find_clear 32 0 (io1.buffer (32 * r)) ≡ some k =
        ap (λ (x : ℕ). find_clear 32 0 x) (here (32 * r) clear.word_inside) ∙ clear.found in
      let taken =
        take_bit-IsTaken dev fs capacity disk format count d io1 b (32 * r) k g clear.map_inside
          clear.word_inside clear.low clear.map_apart clear.group_inside clear.counter_inside here
          (λ a. read.1.same_cells a ∙ cells a) in
      (
        taken.0,
        ap (λ (n : ℕ). bitmap_loop dev fs count g bitmap per_group n 0 false 0 io) rounds
            ∙ read_first dev fs count g bitmap per_group (r + left) io
                (omega (arith, clear.word_inside, bytes)) read.0
            ∙ ap (λ (n : ℕ). bitmap_loop dev fs count g bitmap per_group n 0 true 0 io1) rounds'
            ∙ skip
            ∙ ap (λ (i : ℕ). bitmap_loop dev fs count g bitmap per_group (suc left) i true 0 io1) e
            ∙ first_block dev fs count g bitmap per_group left (32 * r) io1
                (omega (arith, clear.word_inside, bytes))
            ∙ rw f (rw taken.1 refl),
        taken.2,
      )

  found_desc :
      (io : Io D) (g : ℕ)
      → g < total_block_descs fs
      → start ≤ max_block fs
      → get_block_desc dev fs g io ≡ some (true, (read_block dev fs start io).1)
  unfolding get_block_desc get_block_descs
  found_desc io g inside low =
      let e : ltb g (total_block_descs fs) ≡ true = ground arith in
      let read = read_block-IsRead dev fs capacity disk format start io low in rw (e, read.0) refl

  search-Allocated :
      (count : ℕ → ℕ) (field per_group g r k : ℕ) (io : Io D)
      → HasClear io.disk field per_group g r k
      → Allocated count io.disk field per_group g r k
          (search_group dev fs count field per_group g (get_block_desc dev fs g io))
  unfolding search_group
  search-Allocated count field per_group g r k io clear =
      let io1 : Io D = (read_block dev fs start io).1 in
      let read = (read_block-IsRead dev fs capacity disk format start io clear.low).1 in
      rw (found_desc io g clear.group_inside clear.low) (
        rw (read.in_buffer (desc_word g field) clear.field_inside)
          (search_loop count field per_group g r k io.disk io1 clear read.same_cells))

  -- On a disk in order, for a group of the filesystem: the words of the first block of its bitmap that
  -- are looked at are the words `32 * j`. If those before `32 * r` are full and bit `k` is the first
  -- that is clear in `32 * r`, inside the group and the block, the number returned is that of bit
  -- `32 * r + k` of the group. The bit was clear, the word grows by it, the group's counter of free
  -- blocks is counted down, and every other word of every block up to `max_block` is kept. The
  -- bitmap's block and the descriptors' are two blocks of the filesystem, and the blocks follow each
  -- other on the disk.
  pub alloc_block_lem :
      (g r k : ℕ) (io : Io D)
      → HasClear io.disk 0 fs.superblock.blocks_per_group g r k
      → (io' : Io D) × (alloc_block dev fs g io
          ≡ some (add32 (g * fs.superblock.blocks_per_group) (32 * r + k), io'))
        × IsTaken dev fs capacity disk format count_block io.disk io'.disk
            (map_block io.disk g 0)
            (32 * r)
            k
            g
        × (word io'.disk (map_block io.disk g 0) (32 * r)
            ≡ word io.disk (map_block io.disk g 0) (32 * r) + 2 ^ k)
  unfolding alloc_block
  alloc_block_lem g r k io clear =
      let found = search-Allocated count_block 0 fs.superblock.blocks_per_group g r k io clear in
      let bit = find_clear_lem _ k clear.found in
      (found.0, found.1, found.2, found.2.bit_set ∙ bit_or-clear k _ bit.1)

  -- The same of the bitmap of inodes.
  pub alloc_inode_lem :
      (g r k : ℕ) (io : Io D)
      → HasClear io.disk 1 fs.superblock.inodes_in_group g r k
      → (io' : Io D) × (alloc_inode dev fs g io
          ≡ some (add32 (g * fs.superblock.inodes_in_group) (32 * r + k), io'))
        × IsTaken dev fs capacity disk format count_inode io.disk io'.disk
            (map_block io.disk g 1)
            (32 * r)
            k
            g
        × (word io'.disk (map_block io.disk g 1) (32 * r)
            ≡ word io.disk (map_block io.disk g 1) (32 * r) + 2 ^ k)
  unfolding alloc_inode
  alloc_inode_lem g r k io clear =
      let found = search-Allocated count_inode 1 fs.superblock.inodes_in_group g r k io clear in
      let bit = find_clear_lem _ k clear.found in
      (found.0, found.1, found.2, found.2.bit_set ∙ bit_or-clear k _ bit.1)
