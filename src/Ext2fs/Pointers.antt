-- ===== src/Ext2fs/Pointers.antt =====
-- `ext2_inode_alloc_block` next to `ext2_inode_read_block`: the blocks that an inode points to.
use c4_os.Prelude.{
  ℕ, ◌+◌, ◌-◌, ◌≡◌, ◌≢◌, inl, inr, ◌∙◌, refl, sym, ap, arith, Bool-cases, true, false, Option, none,
  some, ltb, ◌==◌,
}
use c4_os.Ext2fs.{
  BlockDevice, Io, Ext2fs, Inode, direct_ptr, single_indirect_ptr, pointers_per_block, read_block,
  get_inode, pointed_block,
}
use c4_os.Ext2fs.Bitmap.{alloc_pointer, alloc_in, alloc_for, inode_alloc_block}

number {ℓ} : {A : Type ℓ} → Option (ℕ × A) → ℕ
number none = 0
number (some (n, a)) = n

module _ {ℓ} {D : Type ℓ} (dev : BlockDevice D) (fs : Ext2fs) (inode block n : ℕ) (old : Inode)
    (io1 io2 : Io D) (found : pointed_block dev fs old block io1 ≡ some (n, io2))
    (valid : n ≢ 0) where
  direct_there : ltb block 12 ≡ true → alloc_in dev fs inode block old io1 ≡ some (n, io2)
  unfolding alloc_in pointed_block number
  direct_there e =
      let p : pointed_block dev fs old block io1 ≡ some (direct_ptr old block, io1) = rw e refl in
      let g : direct_ptr old block ≡ n = ap number (sym p ∙ found) in
      let h : (direct_ptr old block == 0) ≡ false = ground (arith, g, valid) in
      rw (e, h) (sym p ∙ found)

  indirect_there :
      ltb block 12 ≡ false
      → ltb block (pointers_per_block fs + 12) ≡ true
      → alloc_in dev fs inode block old io1 ≡ some (n, io2)
  unfolding alloc_in alloc_pointer pointed_block number
  indirect_there e f = elim (Bool-cases (single_indirect_ptr old == 0)) [
    | inl z ↦
        let p : pointed_block dev fs old block io1 ≡ some (0, io1) = rw (e, f, z) refl in
        absurd (valid (sym (ap number (sym p ∙ found))))
    | inr z ↦
        let ents = read_block dev fs (single_indirect_ptr old) io1 in
        elim (Bool-cases ents.0) [
          | inr none_read ↦
              let p : pointed_block dev fs old block io1 ≡ none = rw (e, f, z, none_read) refl in
              absurd (valid (sym (ap number (sym p ∙ found))))
          | inl read ↦
              let p : pointed_block dev fs old block io1
                  ≡ some (ents.1.buffer (block - 12), ents.1) =
                rw (e, f, z, read) refl in
              let g : ents.1.buffer (block - 12) ≡ n = ap number (sym p ∙ found) in
              let h : (ents.1.buffer (block - 12) == 0) ≡ false = ground (arith, g, valid) in
              rw (e, f, z) (rw z (rw (read, h) (sym p ∙ found)))
        ]
  ]

  beyond_there :
      ltb block 12 ≡ false
      → ltb block (pointers_per_block fs + 12) ≡ false
      → alloc_in dev fs inode block old io1 ≡ some (n, io2)
  unfolding pointed_block number
  beyond_there e f =
      let p : pointed_block dev fs old block io1 ≡ some (0, io1) = rw (e, f) refl in
      absurd (valid (sym (ap number (sym p ∙ found))))

  block_there : alloc_in dev fs inode block old io1 ≡ some (n, io2)
  block_there = elim (Bool-cases (ltb block 12)) [
    | inl e ↦ direct_there e
    | inr e ↦ elim (Bool-cases (ltb block (pointers_per_block fs + 12))) [
      | inl f ↦ indirect_there e f
      | inr f ↦ beyond_there e f
    ]
  ]

-- A block that reading the inode finds is not allocated again: the answer is its number, and nothing
-- is written.
pub inode_alloc_block-pointed_block {ℓ} :
    {D : Type ℓ} (dev : BlockDevice D) (fs : Ext2fs) (garbage : Inode) (inode block n ptr : ℕ)
    (old : Inode) (io io1 io2 : Io D)
    → get_inode dev fs inode io ≡ (some (ptr, old), io1)
    → pointed_block dev fs old block io1 ≡ some (n, io2)
    → n ≢ 0
    → inode_alloc_block dev fs garbage inode block io ≡ some (n, io2)
unfolding inode_alloc_block alloc_for
inode_alloc_block-pointed_block dev fs garbage inode block n ptr old io io1 io2 got found valid =
    rw got (block_there dev fs inode block n old io1 io2 found valid)
