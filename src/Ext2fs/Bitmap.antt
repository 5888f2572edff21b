-- ===== src/Ext2fs/Bitmap.antt =====
-- `ext2_alloc_block` and `ext2_alloc_inode`: a search in a bitmap, which the two functions write out
-- alike, and the callers that give what they find to an inode.
use Prim.Native.Nat.{bit_or}
use c4_os.Prelude.{
  ℕ, zero, suc, ◌+◌, ◌-◌, ◌*◌, ◌/◌, ◌%◌, ◌^◌, Bool, true, false, not, Option, none, some, ltb, ◌==◌,
  if◌then◌else◌, add32,
}
use c4_os.Ext2fs.{
  BlockDevice, Io, Ext2fs, Inode, with_word, desc_word, block_size, total_block_descs, block_group,
  pointers_per_block, direct_ptr, single_indirect_ptr, read_block, write_block, get_block_descs,
  write_block_descs, get_inode, inode_update, inode_init,
}

-- The first bit of `map` that is clear, of those from `k` on that are left.
unfoldable pub find_clear : ℕ → ℕ → ℕ → Option ℕ
find_clear zero k map = none
find_clear (suc left) k map =
    let rest = find_clear left (k + 1) map in if map / 2 ^ k % 2 == 0 then some k else rest

-- The two counters of a descriptor share a word.
unfoldable pub count_block : ℕ → ℕ
count_block w = w / 2 ^ 16 * 2 ^ 16 + (w % 2 ^ 16 + 2 ^ 16 - 1) % 2 ^ 16

unfoldable pub count_inode : ℕ → ℕ
count_inode w = (w / 2 ^ 16 + 2 ^ 16 - 1) % 2 ^ 16 * 2 ^ 16 + w % 2 ^ 16

module _ {ℓ} {D : Type ℓ} (dev : BlockDevice D) (fs : Ext2fs) where
  -- Whether there is a descriptor of this number, which is then in the buffer. If the descriptors
  -- cannot be read, a `C4_ASSERT` prints, and the callers read through a pointer near `NULL`: a fault.
  unfoldable pub get_block_desc : ℕ → Io D → Option (Bool × Io D)
  get_block_desc index io =
      let descs = get_block_descs dev fs io in
      if ltb index (total_block_descs fs)
      then (if descs.0 then some (true, descs.1) else none)
      else some (false, io)

  -- The counter of a descriptor is changed and the descriptors are written back.
  unfoldable pub count_down : (ℕ → ℕ) → ℕ → Option (Bool × Io D) → Option (Io D)
  count_down count index none = none
  count_down count index (some (false, io)) = none
  count_down count index (some (true, io)) =
      let at = desc_word index 3 in
      let counted : Io D = record io { buffer = with_word at (count (io.buffer at)) io.buffer } in
      some (write_block_descs dev fs counted).1

  -- A bit was found: it is set, and the bitmap's block is written.
  unfoldable pub take_bit : (ℕ → ℕ) → ℕ → ℕ → ℕ → ℕ → Io D → Option (Io D)
  take_bit count desc_index block word k io =
      let map = bit_or (io.buffer word) (2 ^ k) in
      let marked : Io D = record io { buffer = with_word word map io.buffer } in
      count_down count desc_index (get_block_desc desc_index (write_block dev fs block marked).1)

  -- The answer, with the number of the bit.
  unfoldable pub answer : ℕ → Option (Io D) → Option (ℕ × Io D)
  answer number none = none
  answer number (some io) = some (number, io)

  -- A block of the bitmap is read if it is not the one in the buffer.
  unfoldable pub bitmap_block : ℕ → ℕ → Bool → ℕ → Io D → Bool × Io D
  bitmap_block bitmap index have last io =
      if have
      then (if index == last then (true, io) else read_block dev fs (add32 bitmap index) io)
      else read_block dev fs (add32 bitmap index) io

  -- A round of the loop, with the bitmap's block in the buffer, or `NULL`: the bits from `i` on are
  -- looked for in the word `word`, and `rest` is what the later rounds return.
  unfoldable pub bitmap_round :
      (ℕ → ℕ) → ℕ → ℕ → ℕ → ℕ → ℕ → Bool × Io D → Option (ℕ × Io D) → Option (ℕ × Io D)
  bitmap_round count desc_index block per_group i word table rest =
      let found = λ (k : ℕ).
        answer (add32 (desc_index * per_group) (i + k))
          (take_bit count desc_index block word k table.1) in
      if table.0
      then elim (find_clear 32 0 (table.1.buffer word)) [ none ↦ rest | some k ↦ found k ]
      else none

  -- The loop over the bitmap, with `left` rounds of 32 bits each.
  unfoldable pub bitmap_loop : (ℕ → ℕ) → ℕ → ℕ → ℕ → ℕ → ℕ → Bool → ℕ → Io D → Option (ℕ × Io D)
  bitmap_loop count desc_index bitmap per_group zero i have last io = some (0, io)
  bitmap_loop count desc_index bitmap per_group (suc left) i have last io =
      let index = i / block_size fs in
      let table = bitmap_block bitmap index have last io in
      let word = i - index * block_size fs in
      let rest = bitmap_loop count desc_index bitmap per_group left (i + 32) true index table.1 in
      bitmap_round count desc_index (add32 bitmap index) per_group i word table rest

  -- The search in a group of `per_group` items, whose bitmap is named by a word of the descriptor.
  unfoldable pub search_group : (ℕ → ℕ) → ℕ → ℕ → ℕ → Option (Bool × Io D) → Option (ℕ × Io D)
  search_group count field per_group desc_index none = none
  search_group count field per_group desc_index (some (false, io)) = some (0, io)
  search_group count field per_group desc_index (some (true, io)) =
      bitmap_loop count desc_index (io.buffer (desc_word desc_index field)) per_group
        ((per_group + 31) / 32) 0 false 0 io

  unfoldable pub alloc_block : ℕ → Io D → Option (ℕ × Io D)
  alloc_block desc_index io =
      search_group count_block 0 fs.superblock.blocks_per_group desc_index
        (get_block_desc desc_index io)

  unfoldable pub alloc_inode : ℕ → Io D → Option (ℕ × Io D)
  alloc_inode desc_index io =
      search_group count_inode 1 fs.superblock.inodes_in_group desc_index
        (get_block_desc desc_index io)

  -- The number is returned whatever the initialisation returned: a `C4_ASSERT` that fails only
  -- prints.
  unfoldable pub same_number : ℕ → Option (ℕ × Io D) → Option (ℕ × Io D)
  same_number number none = none
  same_number number (some (n, io)) = some (number, io)

  unfoldable pub init_type : ℕ → Option (ℕ × Io D) → Option (ℕ × Io D)
  init_type type none = none
  init_type type (some (number, io)) =
      if number == 0
      then some (0, io)
      else same_number number (inode_init dev fs number (bit_or (type * 2 ^ 12) 0x1ff) io)

  unfoldable pub alloc_inode_type : ℕ → ℕ → Io D → Option (ℕ × Io D)
  alloc_inode_type desc type io = init_type type (alloc_inode desc io)

  -- A new block is entered in the inode, as its word `field`.
  unfoldable pub enter_block : ℕ → ℕ → Inode → Option (ℕ × Io D) → Option (ℕ × Inode × Io D)
  enter_block inode field old none = none
  enter_block inode field old (some (block, io)) =
      let new : Inode = with_word field block old in
      let updated = inode_update dev fs inode new io in
      if block == 0
      then some (0, old, io)
      else elim updated [ none ↦ none | some after ↦ some (block, new, after.1) ]

  -- The number that `ext2_inode_alloc_block` returns.
  unfoldable pub returned : Option (ℕ × Inode × Io D) → Option (ℕ × Io D)
  returned none = none
  returned (some (block, inode, io)) = some (block, io)

  -- A new block is entered in a table of pointers.
  unfoldable pub enter_pointer : ℕ → ℕ → Bool × Io D → Option (ℕ × Io D) → Option (ℕ × Io D)
  enter_pointer table index ents none = none
  enter_pointer table index ents (some (block, io)) =
      let entered : Io D = record io { buffer = with_word index block io.buffer } in
      if block == 0 then some (0, io) else some (block, (write_block dev fs table entered).1)

  -- The second half of the indirect case, with the table of pointers there.
  unfoldable pub alloc_pointer : ℕ → ℕ → Option (ℕ × Inode × Io D) → Option (ℕ × Io D)
  alloc_pointer inode index none = none
  alloc_pointer inode index (some (table, new, io)) =
      let ents = read_block dev fs table io in
      let allocated = alloc_block (block_group fs inode) ents.1 in
      if table == 0
      then some (0, io)
      else if not ents.0
      then none
      else if ents.1.buffer index == 0
      then enter_pointer table index ents allocated
      else some (ents.1.buffer index, ents.1)

  unfoldable pub alloc_in : ℕ → ℕ → Inode → Io D → Option (ℕ × Io D)
  alloc_in inode block old io =
      let allocated = alloc_block (block_group fs inode) io in
      let table = single_indirect_ptr old in
      let with_table : Option (ℕ × Inode × Io D) =
        if table == 0 then enter_block inode 22 old allocated else some (table, old, io) in
      if ltb block 12
      then (if direct_ptr old block == 0
          then returned (enter_block inode (10 + block) old allocated)
          else some (direct_ptr old block, io))
      else if ltb block (pointers_per_block fs + 12)
      then alloc_pointer inode (block - 12) with_table
      else some (0, io)

  -- The `C4_ASSERT` on the inode only prints when it fails: the function goes on with what the
  -- uninitialised `inodebuf` holds, which is `garbage`.
  unfoldable pub alloc_for : Inode → ℕ → ℕ → Option (ℕ × Inode) × Io D → Option (ℕ × Io D)
  alloc_for garbage inode block (none, io) = alloc_in inode block garbage io
  alloc_for garbage inode block (some (ptr, old), io) = alloc_in inode block old io

  unfoldable pub inode_alloc_block : Inode → ℕ → ℕ → Io D → Option (ℕ × Io D)
  inode_alloc_block garbage inode block io =
      alloc_for garbage inode block (get_inode dev fs inode io)
