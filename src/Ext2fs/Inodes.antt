-- ===== src/Ext2fs/Inodes.antt =====
-- Reading and writing inodes on a disk in order.
use c4_os.Prelude.{
  ℕ, ◌+◌, ◌-◌, ◌*◌, ◌/◌, ◌%◌, ◌≤◌, ◌<◌, ◌≡◌, ◌≢◌, ◌⊎◌, inl, inr, ◌∙◌, refl, sym, ap, arith,
  Bool-cases, ==-same, true, false, some, ltb, ◌==◌, add32, Option,
}
use c4_os.Ext2fs.{
  BlockDevice, Io, Ext2fs, Inode, block_group, group_index, inodes_per_block, inode_size, max_inode,
  max_block, desc_word, desc_start, inode_words, load_inode, store_inode, read_block, write_block,
  get_block_descs, get_inode, inode_table_block, store_update, update_at, inode_update,
}
use c4_os.Ext2fs.Access.{
  IsDisk, IsFormatted, block_words, word_of, read_block-IsRead, write_block-IsWritten,
}

elsewhere :
    (c b i ptr : ℕ)
    → c ≡ b
    → (c ≢ b) ⊎ (i < ptr) ⊎ (ptr + inode_words ≤ i)
    → (i < ptr) ⊎ (ptr + inode_words ≤ i)
elsewhere c b i ptr e (inl f) = absurd (f e)
elsewhere c b i ptr e (inr f) = f

-- The word of its block that an inode begins at.
abbrev pub inode_word : Ext2fs → ℕ → ℕ
inode_word fs inode = group_index fs inode % inodes_per_block fs * inode_size fs / 4

module _ {ℓ} {D : Type ℓ} (dev : BlockDevice D) (fs : Ext2fs) (capacity : ℕ)
    (disk : IsDisk dev fs.block_device capacity) (format : IsFormatted fs capacity) where
  abbrev word : D → ℕ → ℕ → ℕ
  word = word_of dev fs capacity disk format

  -- The block of an inode, from the descriptor of its group.
  abbrev pub inode_block : D → ℕ → ℕ
  inode_block d inode =
      add32 (word d (desc_start dev fs) (desc_word (block_group fs inode) 2))
        (group_index fs inode / inodes_per_block fs)

  -- The descriptor and the inode lie in blocks of the filesystem, not in the same one.
  pub record IsStored (d : D) (inode : ℕ) : Type 0 where
    pub numbered : inode ≤ max_inode fs
    pub descs_inside : desc_start dev fs ≤ max_block fs
    pub desc_inside : desc_word (block_group fs inode) 2 < block_words fs
    pub block_inside : inode_block d inode ≤ max_block fs
    pub block_apart : inode_block d inode ≢ desc_start dev fs
    pub word_inside : inode_word fs inode + inode_words ≤ block_words fs

  -- What is read for an inode: its place, its words and the block of it in the buffer.
  abbrev pub Got : ℕ → Io D → Option (ℕ × Inode) × Io D → Type 0
  Got inode io got =
      (l : Inode) × (got.0 ≡ some (inode_word fs inode, l))
      × ((k : ℕ)
          → k < inode_words
          → l k ≡ word io.disk (inode_block io.disk inode) (inode_word fs inode + k))
      × ((i : ℕ) → i < block_words fs → got.1.buffer i ≡ word io.disk (inode_block io.disk inode) i)
      × ((a : ℕ) → disk.cell got.1.disk a ≡ disk.cell io.disk a)

  pub get_inode-Got :
      (inode : ℕ) (io : Io D) → IsStored io.disk inode → Got inode io (get_inode dev fs inode io)
  unfolding get_inode get_block_descs load_inode
  get_inode-Got inode io stored =
      let group_word = desc_word (block_group fs inode) 2 in
      let io1 : Io D = (read_block dev fs (desc_start dev fs) io).1 in
      let descs =
        read_block-IsRead dev fs capacity disk format (desc_start dev fs) io stored.descs_inside in
      let block : ℕ = inode_block io.disk inode in
      let same : add32 (io1.buffer group_word) (group_index fs inode / inodes_per_block fs)
          ≡ block =
        ap (λ (t : ℕ). add32 t (group_index fs inode / inodes_per_block fs))
          (descs.1.in_buffer group_word stored.desc_inside) in
      let read = read_block-IsRead dev fs capacity disk format block io1 stored.block_inside in
      let e : ltb (max_inode fs) inode ≡ false = ground (arith, stored.numbered) in
      rw (descs.0, e, same, read.0)
        (
          _,
          refl,
          λ k small.
              let f : ltb k inode_words ≡ true = ground arith in
              rw f (
                read.1.in_buffer (inode_word fs inode + k)
                  (omega (arith, small, stored.word_inside))
                ∙ descs.1.same_cells _),
          λ i small. read.1.in_buffer i small ∙ descs.1.same_cells _,
          λ a. read.1.same_cells a ∙ descs.1.same_cells a,
        )

  inode_table_block-Got :
      (inode : ℕ) (io : Io D)
      → IsStored io.disk inode
      → (io' : Io D) × (inode_table_block dev fs inode io ≡ some (inode_block io.disk inode, io'))
        × ((a : ℕ) → disk.cell io'.disk a ≡ disk.cell io.disk a)
  unfolding inode_table_block get_block_descs
  inode_table_block-Got inode io stored =
      let group_word = desc_word (block_group fs inode) 2 in
      let descs =
        read_block-IsRead dev fs capacity disk format (desc_start dev fs) io stored.descs_inside in
      rw (descs.0, descs.1.in_buffer group_word stored.desc_inside)
        (_, refl, λ a. descs.1.same_cells a)

  -- Disks with the same words in the descriptors keep an inode in the same place.
  pub IsStored-same :
      (d d' : D) (inode : ℕ)
      → word d' (desc_start dev fs) (desc_word (block_group fs inode) 2)
        ≡ word d (desc_start dev fs) (desc_word (block_group fs inode) 2)
      → IsStored d inode
      → (inode_block d' inode ≡ inode_block d inode) × IsStored d' inode
  IsStored-same d d' inode same stored =
      let e : inode_block d' inode ≡ inode_block d inode =
        ap (λ (t : ℕ). add32 t (group_index fs inode / inodes_per_block fs)) same in
      (
        e,
        record {
          numbered = stored.numbered;
          descs_inside = stored.descs_inside;
          desc_inside = stored.desc_inside;
          block_inside = rw e stored.block_inside;
          block_apart = rw e stored.block_apart;
          word_inside = stored.word_inside;
        },
      )

  -- What an update does to the disk: the words of the inode are the new ones, and every other word
  -- of every block is kept.
  pub record IsUpdated (d d' : D) (inode : ℕ) (new : Inode) : Type 0 where
    pub new_words :
        (k : ℕ) → k < inode_words → word d' (inode_block d inode) (inode_word fs inode + k) ≡ new k
    pub other_words :
        (c i : ℕ)
        → c ≤ max_block fs
        → i < block_words fs
        → (c ≢ inode_block d inode)
          ⊎ (i < inode_word fs inode)
          ⊎ (inode_word fs inode + inode_words ≤ i)
        → word d' c i ≡ word d c i

  store_inode-new :
      (ptr k : ℕ) (new : Inode) (buffer : ℕ → ℕ)
      → k < inode_words
      → store_inode ptr new buffer (ptr + k) ≡ new k
  unfolding store_inode
  store_inode-new ptr k new buffer small =
      let e : ltb (ptr + k) ptr ≡ false = ground arith in
      let f : ltb (ptr + k) (ptr + inode_words) ≡ true = ground arith in
      let g : ptr + k - ptr ≡ k = omega arith in rw (e, f, g) refl

  store_inode-other :
      (ptr i : ℕ) (new : Inode) (buffer : ℕ → ℕ)
      → (i < ptr) ⊎ (ptr + inode_words ≤ i)
      → store_inode ptr new buffer i ≡ buffer i
  unfolding store_inode
  store_inode-other ptr i new buffer apart = ground arith

  inode_update-IsUpdated :
      (inode : ℕ) (new : Inode) (io : Io D)
      → IsStored io.disk inode
      → (io' : Io D) × (inode_update dev fs inode new io ≡ some (inode, io'))
        × IsUpdated io.disk io'.disk inode new
  unfolding inode_update update_at store_update
  inode_update-IsUpdated inode new io stored =
      let table = inode_table_block-Got inode io stored in
      let io1 : Io D = table.0 in
      let same = IsStored-same io.disk io1.disk inode (table.2 _) stored in
      let got = get_inode-Got inode io1 same.1 in
      let block : ℕ = inode_block io.disk inode in
      let ptr : ℕ = inode_word fs inode in
      let io2 : Io D = (get_inode dev fs inode io1).1 in
      let stored_io : Io D = record io2 { buffer = store_inode ptr new io2.buffer } in
      let write =
        write_block-IsWritten dev fs capacity disk format block stored_io stored.block_inside in
      rw (table.1, got.1)
        (
          _,
          refl,
          record {
            new_words = λ k small.
                write.1.written (ptr + k) (omega (arith, small, stored.word_inside))
                ∙ store_inode-new ptr k new io2.buffer small;
            other_words = λ c i inside small apart. elim (Bool-cases (c == block)) [
              | inl e ↦
                  let f : c ≡ block = sym (==-same c block e) in
                  let clear : (i < ptr) ⊎ (ptr + inode_words ≤ i) =
                    elsewhere c block i ptr f apart in
                  ap (λ (b : ℕ). word (write_block dev fs block stored_io).1.disk b i) f
                  ∙ write.1.written i small
                  ∙ store_inode-other ptr i new io2.buffer clear
                  ∙ got.3 i small
                  ∙ table.2 _
                  ∙ ap (λ (b : ℕ). word io.disk b i) (same.0 ∙ sym f)
              | inr e ↦
                  write.1.others c i inside (λ f. ground (arith, f, e)) small ∙ got.4 _ ∙ table.2 _
            ];
          },
        )

  -- On a disk in order, whose blocks follow each other, for an inode whose number is inside the
  -- filesystem and whose group's descriptor and own block are: an update ends, the inode is read back
  -- as it was written, and every word of every block up to `max_block` that is not one of this
  -- inode's is as it was.
  pub inode_update-get_inode :
      (inode : ℕ) (new : Inode) (io : Io D)
      → IsStored io.disk inode
      → (io' : Io D) × (l : Inode) × (inode_update dev fs inode new io ≡ some (inode, io'))
        × ((get_inode dev fs inode io').0 ≡ some (inode_word fs inode, l))
        × ((k : ℕ) → k < inode_words → l k ≡ new k)
        × IsUpdated io.disk io'.disk inode new
  inode_update-get_inode inode new io stored =
      let updated = inode_update-IsUpdated inode new io stored in
      let io' : Io D = updated.0 in
      let same =
        IsStored-same io.disk io'.disk inode
          (updated.2.other_words _ _ stored.descs_inside stored.desc_inside
            (inl (λ e. stored.block_apart (sym e))))
          stored in
      let got = get_inode-Got inode io' same.1 in
      (
        io',
        got.0,
        updated.1,
        got.1,
        λ k small.
            got.2 k small
            ∙ ap (λ (b : ℕ). word io'.disk b (inode_word fs inode + k)) same.0
            ∙ updated.2.new_words k small,
        updated.2,
      )
