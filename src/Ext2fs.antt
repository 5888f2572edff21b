-- ===== src/Ext2fs.antt =====
-- The filesystem of `programs/ext2fs/src/main.c` and `include/ext2fs/ext2fs.h`: blocks, descriptors
-- of block groups and inodes, over what `block_read` and `block_write` do with a disk.
--
-- `block_buffer` is a memory of 32-bit words, the lower halves first, as the program's tables and
-- structures lie in it; the size of an inode is a multiple of 4 bytes. A fault, such as a read
-- through `NULL`, is `none`; a `C4_ASSERT` that fails prints, and what follows it is done. The model
-- is of a build without `NDEBUG`, under which the condition of a `C4_ASSERT` is not evaluated.
mod Layout
pub mod Bitmap
pub mod Access
pub mod Inodes
mod Pointers
mod Bits
mod Search
mod Marks
mod Allocate
mod Enter
mod Format
mod Tests
unfoldable pub use Layout.*
use c4_os.Prelude.{
  ℕ, zero, suc, ◌+◌, ◌-◌, ◌*◌, ◌/◌, ◌%◌, ◌^◌, Bool, true, false, not, ◌||◌, Option, none, some, ltb,
  ◌==◌, if◌then◌else◌, add32, sub32,
}

-- What the disk driver answers: whether there was an error, what the buffer holds after a read, and
-- the state of the disk. The numbers are the driver's, the drive's, the first sector and the count.
pub record BlockDevice {ℓ} (D : Type ℓ) : Type ℓ where
  pub block_read : ℕ → ℕ → ℕ → ℕ → (ℕ → ℕ) → D → Bool × (ℕ → ℕ) × D
  pub block_write : ℕ → ℕ → ℕ → ℕ → (ℕ → ℕ) → D → Bool × D

-- The static `block_buffer` and the disk.
pub record Io {ℓ} (D : Type ℓ) : Type ℓ where
  pub buffer : ℕ → ℕ
  pub disk : D

module _ {ℓ} {D : Type ℓ} (dev : BlockDevice D) where
  -- The first part of an answer is whether it is a pointer to the buffer, not `NULL`.
  unfoldable pub read_disk : ℕ → ℕ → ℕ → ℕ → Io D → Bool × Io D
  read_disk id drive sector count io =
      let answer = dev.block_read id drive sector count io.buffer io.disk in
      (not answer.0, record { buffer = answer.1; disk = answer.2 })

  unfoldable pub write_disk : ℕ → ℕ → ℕ → ℕ → Io D → Bool × Io D
  write_disk id drive sector count io =
      let answer = dev.block_write id drive sector count io.buffer io.disk in
      (not answer.0, record io { disk = answer.1 })

  unfoldable pub get_superblock : ℕ → ℕ → Io D → Option Superblock × Io D
  get_superblock device drive io =
      let got = read_disk device drive 2050 2 io in
      (if got.0 then some (load_superblock got.1.buffer) else none, got.1)

  -- The start of `main`: the filesystem, if there is one.
  unfoldable pub mount : ℕ → Io D → Option Ext2fs × Io D
  mount disk io = let got = get_superblock disk 0 io in (checked_fs disk got.0, got.1)

  module _ (fs : Ext2fs) where
    unfoldable pub read_block : ℕ → Io D → Bool × Io D
    read_block block io =
        if ltb (max_block fs) block
        then (false, io)
        else read_disk fs.block_device 0 (block_to_sector fs block) (block_size_to_sectors fs) io

    unfoldable pub write_block : ℕ → Io D → Bool × Io D
    write_block block io =
        if ltb (max_block fs) block
        then (false, io)
        else write_disk fs.block_device 0 (block_to_sector fs block) (block_size_to_sectors fs) io

    unfoldable pub desc_start : ℕ
    desc_start = if block_size fs == 1024 then 2 else 1

    unfoldable pub get_block_descs : Io D → Bool × Io D
    get_block_descs io = read_block desc_start io

    unfoldable pub write_block_descs : Io D → Bool × Io D
    write_block_descs io = write_block desc_start io

    -- The place of the inode in the buffer, and the copy of it, or `NULL`.
    unfoldable pub get_inode : ℕ → Io D → Option (ℕ × Inode) × Io D
    get_inode inode io =
        let descs = get_block_descs io in
        let table = descs.1.buffer (desc_word (block_group fs inode) 2) in
        let place = group_index fs inode in
        let got = read_block (add32 table (place / inodes_per_block fs)) descs.1 in
        let ptr = place % inodes_per_block fs * inode_size fs / 4 in
        if not descs.0
        then (none, descs.1)
        else if ltb (max_inode fs) inode
        then (none, descs.1)
        else if not got.0
        then (none, got.1)
        else (some (ptr, load_inode ptr got.1.buffer), got.1)

    unfoldable pub inode_table_block : ℕ → Io D → Option (ℕ × Io D)
    inode_table_block inode io =
        let descs = get_block_descs io in
        let table = descs.1.buffer (desc_word (block_group fs inode) 2) in
        let block = add32 table (group_index fs inode / inodes_per_block fs) in
        if descs.0 then some (block, descs.1) else none

    -- The end of `ext2_inode_update`, with what `ext2_get_inode` gave.
    unfoldable pub store_update : ℕ → ℕ → Inode → Option (ℕ × Inode) → Io D → ℕ × Io D
    store_update inode block new none io = (0, io)
    store_update inode block new (some (ptr, old)) io =
        let stored : Io D = record io { buffer = store_inode ptr new io.buffer } in
        (inode, (write_block block stored).1)

    unfoldable pub update_at : ℕ → Inode → Option (ℕ × Io D) → Option (ℕ × Io D)
    update_at inode new none = none
    update_at inode new (some (block, io)) =
        let got = get_inode inode io in some (store_update inode block new got.0 got.1)

    unfoldable pub inode_update : ℕ → Inode → Io D → Option (ℕ × Io D)
    inode_update inode new io = update_at inode new (inode_table_block inode io)

    unfoldable pub inode_init : ℕ → ℕ → Io D → Option (ℕ × Io D)
    inode_init inode modes io =
        if inode == 0 then some (0, io) else inode_update inode (cleared_inode modes) io

    -- The block behind a table of pointers, for `ext2_inode_read_block`.
    unfoldable pub pointed_block : Inode → ℕ → Io D → Option (ℕ × Io D)
    pointed_block inode block io =
        let ents = read_block (single_indirect_ptr inode) io in
        if ltb block 12
        then some (direct_ptr inode block, io)
        else if ltb block (pointers_per_block fs + 12)
        then (if single_indirect_ptr inode == 0
            then some (0, io)
            else if ents.0
            then some (ents.1.buffer (block - 12), ents.1)
            else none)
        else some (0, io)

    -- The end of `ext2_inode_read_block`: a block that is not there is read as zeros.
    unfoldable pub read_or_zero : Option (ℕ × Io D) → Option (Bool × Io D)
    read_or_zero none = none
    read_or_zero (some (block, io)) =
        let zeros = λ (i : ℕ). if ltb i (block_size fs / 4) then 0 else io.buffer i in
        if block == 0
        then some (false, record io { buffer = zeros })
        else some (read_block block io)

    unfoldable pub inode_read_block : Inode → ℕ → Io D → Option (Bool × Io D)
    inode_read_block inode block io = read_or_zero (pointed_block inode block io)
