-- ===== src/Ext2fs/Access.antt =====
-- Reading and writing blocks, over what is documented of a disk.
use c4_os.Prelude.{
  ℕ, ◌+◌, ◌-◌, ◌*◌, ◌≤◌, ◌<◌, ◌≡◌, ◌≢◌, ◌⊎◌, inl, inr, refl, arith, true, false, ltb, if◌then◌else◌,
}
use native.Mathlib.Decide.{dec_lt}
use c4_os.Ext2fs.{
  BlockDevice, Io, Ext2fs, block_to_sector, block_size_to_sectors, max_block, read_disk, write_disk,
  read_block, write_block,
}

-- Drive 0 of the driver `id`, in order: it has `capacity` sectors and answers requests within them
-- without an error. `cell` is its contents, a word at a time, which reads give and writes change.
-- Nothing is said of other drives, of other drivers, or of requests beyond the end.
pub record IsDisk {ℓ} {D : Type ℓ} (dev : BlockDevice D) (id capacity : ℕ) : Type ℓ where
  pub cell : D → ℕ → ℕ
  pub read_fine :
      (s n : ℕ) (buffer : ℕ → ℕ) (d : D)
      → s + n ≤ capacity
      → (dev.block_read id 0 s n buffer d).0 ≡ false
  pub read_buffer :
      (s n : ℕ) (buffer : ℕ → ℕ) (d : D) (i : ℕ)
      → s + n ≤ capacity
      → i < 128 * n
      → (dev.block_read id 0 s n buffer d).1 i ≡ cell d (128 * s + i)
  pub read_cell :
      (s n : ℕ) (buffer : ℕ → ℕ) (d : D) (a : ℕ)
      → s + n ≤ capacity
      → cell (dev.block_read id 0 s n buffer d).2 a ≡ cell d a
  pub write_fine :
      (s n : ℕ) (buffer : ℕ → ℕ) (d : D)
      → s + n ≤ capacity
      → (dev.block_write id 0 s n buffer d).0 ≡ false
  pub write_cell :
      (s n : ℕ) (buffer : ℕ → ℕ) (d : D) (a : ℕ)
      → s + n ≤ capacity
      → cell (dev.block_write id 0 s n buffer d).1 a ≡ (
          if ltb a (128 * s)
          then cell d a
          else if ltb a (128 * (s + n))
          then buffer (a - 128 * s)
          else cell d a)

-- The blocks of the filesystem lie on the disk one after the other.
pub record IsFormatted (fs : Ext2fs) (capacity : ℕ) : Type 0 where
  pub room : (b : ℕ) → b ≤ max_block fs → block_to_sector fs b + block_size_to_sectors fs ≤ capacity
  pub in_order :
      (b c : ℕ)
      → b < c
      → c ≤ max_block fs
      → block_to_sector fs b + block_size_to_sectors fs ≤ block_to_sector fs c

-- The words of a block.
abbrev pub block_words : Ext2fs → ℕ
block_words fs = 128 * block_size_to_sectors fs

-- Where a block starts, in words.
abbrev pub spot : Ext2fs → ℕ → ℕ
spot fs b = 128 * block_to_sector fs b

-- A word of what is written, and one before or after it.
module _ (s n i : ℕ) (buffer old : ℕ → ℕ) (new : ℕ) where
  written_here :
      i < 128 * n
      → new ≡ (
          if ltb (128 * s + i) (128 * s)
          then old (128 * s + i)
          else if ltb (128 * s + i) (128 * (s + n))
          then buffer (128 * s + i - 128 * s)
          else old (128 * s + i))
      → new ≡ buffer i
  written_here small e =
      let f : ltb (128 * s + i) (128 * s) ≡ false = ground arith in
      let g : ltb (128 * s + i) (128 * (s + n)) ≡ true = ground arith in
      let h : 128 * s + i - 128 * s ≡ i = omega arith in ground (arith, e, f, g, h)

  written_there :
      (i < 128 * s) ⊎ (128 * s + 128 * n ≤ i)
      → new ≡ (
          if ltb i (128 * s)
          then old i
          else if ltb i (128 * (s + n))
          then buffer (i - 128 * s)
          else old i)
      → new ≡ old i
  written_there apart e = ground arith

module _ {ℓ} {D : Type ℓ} (dev : BlockDevice D) (fs : Ext2fs) (capacity : ℕ)
    (disk : IsDisk dev fs.block_device capacity) (format : IsFormatted fs capacity) where
  -- The word `i` of block `b` of a disk.
  abbrev pub word_of : D → ℕ → ℕ → ℕ
  word_of d b i = disk.cell d (spot fs b + i)

  -- A block of the filesystem is read into the buffer, and the disk keeps what it holds.
  pub record IsRead (io io' : Io D) (b : ℕ) : Type ℓ where
    pub in_buffer : (i : ℕ) → i < block_words fs → io'.buffer i ≡ word_of io.disk b i
    pub same_cells : (a : ℕ) → disk.cell io'.disk a ≡ disk.cell io.disk a

  pub read_block-IsRead :
      (b : ℕ) (io : Io D)
      → b ≤ max_block fs
      → ((read_block dev fs b io).0 ≡ true) × IsRead io (read_block dev fs b io).1 b
  unfolding read_block read_disk
  read_block-IsRead b io inside =
      let e : ltb (max_block fs) b ≡ false = ground arith in
      let s : ℕ = block_to_sector fs b in
      let n : ℕ = block_size_to_sectors fs in
      let fits = format.room b inside in
      let fine = disk.read_fine s n io.buffer io.disk fits in
      rw (e, fine)
        (
          refl,
          record {
            in_buffer = λ i small. disk.read_buffer s n io.buffer io.disk i fits small;
            same_cells = λ a. disk.read_cell s n io.buffer io.disk a fits;
          },
        )

  -- A block is written from the buffer, and every other block is kept.
  pub record IsWritten (io io' : Io D) (b : ℕ) : Type ℓ where
    pub kept_buffer : (i : ℕ) → io'.buffer i ≡ io.buffer i
    pub written : (i : ℕ) → i < block_words fs → word_of io'.disk b i ≡ io.buffer i
    pub others :
        (c i : ℕ)
        → c ≤ max_block fs
        → c ≢ b
        → i < block_words fs
        → word_of io'.disk c i ≡ word_of io.disk c i

  blocks_apart :
      (b c i : ℕ)
      → b ≤ max_block fs
      → c ≤ max_block fs
      → c ≢ b
      → i < block_words fs
      → (spot fs c + i < spot fs b) ⊎ (spot fs b + block_words fs ≤ spot fs c + i)
  blocks_apart b c i inside inside' apart small = elim (dec_lt c b) [
    | yes below ↦ inl (omega (arith, format.in_order c b below inside, small))
    | no above ↦
        inr (omega (arith, format.in_order b c (ground (arith, above, apart)) inside', small))
  ]

  pub write_block-IsWritten :
      (b : ℕ) (io : Io D)
      → b ≤ max_block fs
      → ((write_block dev fs b io).0 ≡ true) × IsWritten io (write_block dev fs b io).1 b
  unfolding write_block write_disk
  write_block-IsWritten b io inside =
      let e : ltb (max_block fs) b ≡ false = ground arith in
      let s : ℕ = block_to_sector fs b in
      let n : ℕ = block_size_to_sectors fs in
      let fits = format.room b inside in
      let fine = disk.write_fine s n io.buffer io.disk fits in
      let cells = λ (a : ℕ). disk.write_cell s n io.buffer io.disk a fits in
      rw (e, fine)
        (
          refl,
          record {
            kept_buffer = λ i. refl;
            written = λ i small.
                written_here s n i io.buffer (disk.cell io.disk) _ small (cells (spot fs b + i));
            others = λ c i inside' apart small.
                written_there s n (spot fs c + i) io.buffer (disk.cell io.disk) _
                  (blocks_apart b c i inside inside' apart small) (cells (spot fs c + i));
          },
        )
