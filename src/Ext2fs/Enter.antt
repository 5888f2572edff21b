-- ===== src/Ext2fs/Enter.antt =====
-- `ext2_inode_alloc_block` on a disk in order, for a block that the inode does not have.
use c4_os.Prelude.{
  ℕ, ◌+◌, ◌*◌, ◌<◌, ◌≡◌, ◌≢◌, inl, inr, ◌∙◌, refl, sym, ap, arith, true, false, some, ltb, ◌==◌,
  if◌then◌else◌, add32,
}
use c4_os.Ext2fs.{
  BlockDevice, Io, Ext2fs, Inode, block_group, inode_words, with_word, direct_ptr, desc_word,
  desc_start, get_inode,
}
use c4_os.Ext2fs.Bitmap.{alloc_block, enter_block, returned, alloc_in, alloc_for, inode_alloc_block}
use c4_os.Ext2fs.Access.{IsDisk, IsFormatted, word_of}
use c4_os.Ext2fs.Inodes.{
  IsStored, IsStored-same, inode_word, inode_block, get_inode-Got, inode_update-get_inode,
}
use c4_os.Ext2fs.Allocate.{HasClear, map_block, alloc_block_lem}

entered-get_inode {ℓ} :
    {D : Type ℓ} (dev : BlockDevice D) (fs : Ext2fs) (capacity : ℕ)
    (disk : IsDisk dev fs.block_device capacity) (format : IsFormatted fs capacity)
    (garbage : Inode) (inode block n ptr : ℕ) (old : Inode) (io io1 io2 : Io D)
    → get_inode dev fs inode io ≡ (some (ptr, old), io1)
    → block < 12
    → direct_ptr old block ≡ 0
    → alloc_block dev fs (block_group fs inode) io1 ≡ some (n, io2)
    → n ≢ 0
    → IsStored dev fs capacity disk format io2.disk inode
    → (io' : Io D) × (l : Inode) × (inode_alloc_block dev fs garbage inode block io ≡ some (n, io'))
      × ((get_inode dev fs inode io').0 ≡ some (inode_word fs inode, l))
      × ((k : ℕ) → k < inode_words → l k ≡ (if k == 10 + block then n else old k))
unfolding inode_alloc_block alloc_for alloc_in enter_block returned
entered-get_inode dev fs capacity disk format garbage inode block n ptr old io io1 io2 got direct
      missing allocated valid stored =
    let new : Inode = with_word (10 + block) n old in
    let after = inode_update-get_inode dev fs capacity disk format inode new io2 stored in
    let e : ltb block 12 ≡ true = ground arith in
    let f : (direct_ptr old block == 0) ≡ true = ground (arith, missing) in
    let g : (n == 0) ≡ false = ground (arith, valid) in
    (after.0, after.1, rw (got, e, f, allocated, g) (rw after.2 refl), after.3, after.4)

module _ {ℓ} {D : Type ℓ} (dev : BlockDevice D) (fs : Ext2fs) (capacity : ℕ)
    (disk : IsDisk dev fs.block_device capacity) (format : IsFormatted fs capacity) where
  abbrev word : D → ℕ → ℕ → ℕ
  word = word_of dev fs capacity disk format

  HasClear-same :
      (d d' : D) (field per_group g r k : ℕ)
      → ((a : ℕ) → disk.cell d' a ≡ disk.cell d a)
      → HasClear dev fs capacity disk format d field per_group g r k
      → HasClear dev fs capacity disk format d' field per_group g r k
  HasClear-same d d' field per_group g r k same clear =
      let e : map_block dev fs capacity disk format d' g field
          ≡ map_block dev fs capacity disk format d g field =
        ap (λ (t : ℕ). add32 t 0) (same _) in
      record {
        group_inside = clear.group_inside;
        low = clear.low;
        map_inside = rw e clear.map_inside;
        map_apart = rw e clear.map_apart;
        field_inside = clear.field_inside;
        counter_inside = clear.counter_inside;
        word_inside = clear.word_inside;
        in_group = clear.in_group;
        full = λ j below. rw e (rw (same _) (clear.full j below));
        found = rw e (rw (same _) clear.found);
      }

  -- On a disk in order, for a direct block that the inode does not have: if the first clear bit in
  -- the words `32 * j` of the first block of the bitmap of the inode's group is bit `k` of the word
  -- `32 * r` (a bit that is clear in another word is not looked at), its number, when it is not 0, is
  -- returned, and the inode is read back with it entered and is otherwise as it was. The inode's
  -- number, its group, its block and the bitmap's are inside the filesystem, and neither block is the
  -- descriptors'; the blocks follow each other on the disk.
  pub inode_alloc_block-get_inode :
      (garbage : Inode) (inode block r k n : ℕ) (io : Io D)
      → IsStored dev fs capacity disk format io.disk inode
      → HasClear dev fs capacity disk format io.disk 0 fs.superblock.blocks_per_group
          (block_group fs inode)
          r
          k
      → block < 12
      → word io.disk
          (inode_block dev fs capacity disk format io.disk inode)
          (inode_word fs inode + (10 + block))
        ≡ 0
      → n ≡ add32 (block_group fs inode * fs.superblock.blocks_per_group) (32 * r + k)
      → n ≢ 0
      → (io' : Io D) × (l : Inode) × (inode_alloc_block dev fs garbage inode block io
          ≡ some (n, io'))
        × ((get_inode dev fs inode io').0 ≡ some (inode_word fs inode, l))
        × ((i : ℕ)
            → i < inode_words
            → l i ≡ (
                if i == 10 + block
                then n
                else word io.disk
                    (inode_block dev fs capacity disk format io.disk inode)
                    (inode_word fs inode + i)))
  inode_alloc_block-get_inode garbage inode block r k n io stored clear direct missing number
        valid =
      let g : ℕ = block_group fs inode in
      let got = get_inode-Got dev fs capacity disk format inode io stored in
      let old : Inode = got.0 in
      let io1 : Io D = (get_inode dev fs inode io).1 in
      let clear1 =
        HasClear-same io.disk io1.disk 0 fs.superblock.blocks_per_group g r k got.4 clear in
      let taken = alloc_block_lem dev fs capacity disk format g r k io1 clear1 in
      let io2 : Io D = taken.0 in
      let here =
        (IsStored-same dev fs capacity disk format io.disk io1.disk inode (got.4 _) stored).1 in
      let apart : desc_word g 2 ≢ desc_word g 3 = λ e. omega (arith, e) in
      let there =
        (IsStored-same dev fs capacity disk format io1.disk io2.disk inode
          (taken.2.others_kept (desc_start dev fs) (desc_word g 2) stored.descs_inside
            stored.desc_inside (inl (λ e. clear1.map_apart (sym e))) (inr apart))
          here).1 in
      let e : old (10 + block) ≡ 0 = got.2 (10 + block) (omega (arith, direct)) ∙ missing in
      let after =
        entered-get_inode dev fs capacity disk format garbage inode block n (inode_word fs inode)
          old io io1 io2 (ap (λ p. (p, io1)) got.1) direct e
          (taken.1 ∙ ap (λ (x : ℕ). some (x, io2)) (sym number)) valid there in
      (
        after.0,
        after.1,
        after.2,
        after.3,
        λ i small.
            after.4 i small ∙ ap (λ (x : ℕ). if i == 10 + block then n else x) (got.2 i small),
      )
