-- ===== src/Ext2fs/Tests.antt =====
-- A filesystem of two groups on the one drive of a driver.
use c4_os.Prelude.{
  ℕ, ◌+◌, ◌-◌, ◌*◌, ◌^◌, ◌<◌, ◌≡◌, refl, arith, false, some, ltb, ◌==◌, true, ◌&&◌, if◌then◌else◌,
  add32,
}
use c4_os.Ext2fs.{
  BlockDevice, Io, Ext2fs, Inode, inode_words, block_size, block_size_to_sectors, block_to_sector,
  max_block, max_inode, total_block_descs, block_group, group_index, inodes_per_group,
  inodes_per_block, inode_size, desc_start, get_inode, inode_update, read_block, read_disk,
  get_block_descs, load_inode, pointed_block,
}
use c4_os.Ext2fs.Bitmap.{find_clear, count_block, alloc_block, inode_alloc_block}
use c4_os.Ext2fs.Format.{sizes-IsFormatted}
use c4_os.Ext2fs.Access.{IsDisk, IsFormatted, word_of}
use c4_os.Ext2fs.Inodes.{IsStored, IsUpdated, inode_word, inode_block, inode_update-get_inode}
use c4_os.Ext2fs.Pointers.{inode_alloc_block-pointed_block}
use c4_os.Ext2fs.Marks.{IsTaken}
use c4_os.Ext2fs.Allocate.{HasClear, map_block, alloc_block_lem}
use c4_os.Ext2fs.Enter.{inode_alloc_block-get_inode}

-- Driver 1 has one drive; requests to other drives or drivers are answered with an error.
abbrev device : BlockDevice (ℕ → ℕ)
device = record {
  block_read = λ id drive s n buffer d.
      if id == 1 && drive == 0
      then (false, λ (i : ℕ). if ltb i (128 * n) then d (128 * s + i) else buffer i, d)
      else (true, buffer, d);
  block_write = λ id drive s n buffer d.
      if id == 1 && drive == 0
      then (
        false,
        λ (a : ℕ).
            if ltb a (128 * s)
            then d a
            else if ltb a (128 * (s + n))
            then buffer (a - 128 * s)
            else d a,
      )
      else (true, d);
}

device_reads :
    (s n i : ℕ) (buffer d : ℕ → ℕ)
    → i < 128 * n
    → (if ltb i (128 * n) then d (128 * s + i) else buffer i) ≡ d (128 * s + i)
device_reads s n i buffer d small = ground arith

abbrev device-IsDisk : IsDisk device 1 3000
device-IsDisk = record {
  cell = λ d. d;
  read_fine = λ s n buffer d fits. refl;
  read_buffer = λ s n buffer d i fits small. device_reads s n i buffer d small;
  read_cell = λ s n buffer d a fits. refl;
  write_fine = λ s n buffer d fits. refl;
  write_cell = λ s n buffer d a fits. refl;
}

-- Blocks of 1024 bytes, 16 blocks and 8 inodes in a group.
abbrev small_fs : Ext2fs
small_fs = record {
  superblock = record {
    total_inodes = 16;
    total_blocks = 32;
    block_shift = 0;
    blocks_per_group = 16;
    inodes_in_group = 8;
    sign = 0xef53;
    inode_bytes = 128;
  };
  block_device_start = 2048;
  block_device = 1;
}

small_fs-IsFormatted : IsFormatted small_fs 3000
unfolding max_block block_size_to_sectors block_size
small_fs-IsFormatted = sizes-IsFormatted small_fs 3000 (omega arith) (omega arith) (omega arith)

-- The first descriptor names the blocks 3, 4 and 5; the first three blocks of the group are taken,
-- and inode 2 has block 12 as its first.
abbrev contents : ℕ → ℕ
contents a =
    if a == 262656
    then 3
    else if a == 262657
    then 4
    else if a == 262658
    then 5
    else if a == 262659
    then 0x7000d
    else if a == 262912
    then 7
    else if a == 263466
    then 12
    else 0

abbrev small_io : Io (ℕ → ℕ)
small_io = record { buffer = λ i. 0; disk = contents }

inode_two-IsStored :
    IsStored device small_fs 3000 device-IsDisk small_fs-IsFormatted small_io.disk 2
unfolding max_block max_inode block_to_sector block_size_to_sectors block_size block_group
    group_index inodes_per_group inodes_per_block inode_size desc_start
inode_two-IsStored = record {
  numbered = omega arith;
  descs_inside = omega arith;
  desc_inside = omega arith;
  block_inside = omega arith;
  block_apart = λ e. omega (arith, e);
  word_inside = omega arith;
}

group_zero-HasClear :
    HasClear device small_fs 3000 device-IsDisk small_fs-IsFormatted small_io.disk 0 16 0 0 3
unfolding max_block total_block_descs block_to_sector block_size_to_sectors block_size desc_start
    find_clear
group_zero-HasClear = record {
  group_inside = omega arith;
  low = omega arith;
  map_inside = omega arith;
  map_apart = λ e. omega (arith, e);
  field_inside = omega arith;
  counter_inside = omega arith;
  word_inside = omega arith;
  in_group = omega arith;
  full = λ j below. absurd (omega (arith, below));
  found = refl;
}

inode_update-get_inode_example :
    (io' : Io (ℕ → ℕ)) × (l : Inode) × (inode_update device small_fs 2 (λ k. k + 1) small_io
      ≡ some (2, io'))
    × ((get_inode device small_fs 2 io').0 ≡ some (inode_word small_fs 2, l))
    × ((k : ℕ) → k < inode_words → l k ≡ k + 1)
    × IsUpdated device small_fs 3000 device-IsDisk small_fs-IsFormatted contents io'.disk 2
        (λ k. k + 1)
inode_update-get_inode_example =
    inode_update-get_inode device small_fs 3000 device-IsDisk small_fs-IsFormatted 2 (λ k. k + 1)
      small_io inode_two-IsStored

alloc_block_lem_example :
    (io' : Io (ℕ → ℕ)) × (alloc_block device small_fs 0 small_io
      ≡ some (add32 (0 * 16) (32 * 0 + 3), io'))
    × IsTaken device small_fs 3000 device-IsDisk small_fs-IsFormatted count_block contents io'.disk
        (map_block device small_fs 3000 device-IsDisk small_fs-IsFormatted contents 0 0)
        (32 * 0)
        3
        0
    × (word_of device small_fs 3000 device-IsDisk small_fs-IsFormatted io'.disk
          (map_block device small_fs 3000 device-IsDisk small_fs-IsFormatted contents 0 0)
          (32 * 0)
        ≡ word_of device small_fs 3000 device-IsDisk small_fs-IsFormatted contents
            (map_block device small_fs 3000 device-IsDisk small_fs-IsFormatted contents 0 0)
            (32 * 0)
          + 2 ^ 3)
alloc_block_lem_example =
    alloc_block_lem device small_fs 3000 device-IsDisk small_fs-IsFormatted 0 0 3 small_io
      group_zero-HasClear

-- What is read for inode 2.
abbrev inode_two : Inode
inode_two = load_inode 32 (get_inode device small_fs 2 small_io).1.buffer

abbrev io_two : Io (ℕ → ℕ)
io_two = (get_inode device small_fs 2 small_io).1

inode_two_got : get_inode device small_fs 2 small_io ≡ (some (32, inode_two), io_two)
unfolding get_inode get_block_descs read_block read_disk max_block max_inode block_to_sector
    block_size_to_sectors block_size block_group group_index inodes_per_group inodes_per_block
    inode_size desc_start
inode_two_got = refl

inode_two_block : pointed_block device small_fs inode_two 0 io_two ≡ some (12, io_two)
unfolding pointed_block get_inode get_block_descs read_block read_disk load_inode max_block
    max_inode block_to_sector block_size_to_sectors block_size block_group group_index
    inodes_per_group inodes_per_block inode_size desc_start
inode_two_block = refl

inode_alloc_block-pointed_block_example :
    inode_alloc_block device small_fs (λ k. 9) 2 0 small_io ≡ some (12, io_two)
inode_alloc_block-pointed_block_example =
    inode_alloc_block-pointed_block device small_fs (λ k. 9) 2 0 12 32 inode_two small_io io_two
      io_two inode_two_got inode_two_block (λ e. omega (arith, e))

inode_two_group : block_group small_fs 2 ≡ 0
unfolding block_group inodes_per_group
inode_two_group = refl

inode_two-HasClear :
    HasClear device small_fs 3000 device-IsDisk small_fs-IsFormatted small_io.disk 0 16
      (block_group small_fs 2)
      0
      3
inode_two-HasClear = rw inode_two_group group_zero-HasClear

inode_two_missing :
    word_of device small_fs 3000 device-IsDisk small_fs-IsFormatted contents
      (inode_block device small_fs 3000 device-IsDisk small_fs-IsFormatted contents 2)
      (inode_word small_fs 2 + (10 + 1))
    ≡ 0
unfolding max_block max_inode block_to_sector block_size_to_sectors block_size block_group
    group_index inodes_per_group inodes_per_block inode_size desc_start
inode_two_missing = refl

inode_alloc_block-get_inode_example :
    (io' : Io (ℕ → ℕ)) × (l : Inode) × (inode_alloc_block device small_fs (λ k. 9) 2 1 small_io
      ≡ some (3, io'))
    × ((get_inode device small_fs 2 io').0 ≡ some (inode_word small_fs 2, l))
    × ((i : ℕ)
        → i < inode_words
        → l i ≡ (
            if i == 10 + 1
            then 3
            else word_of device small_fs 3000 device-IsDisk small_fs-IsFormatted contents
                (inode_block device small_fs 3000 device-IsDisk small_fs-IsFormatted contents 2)
                (inode_word small_fs 2 + i)))
inode_alloc_block-get_inode_example =
    inode_alloc_block-get_inode device small_fs 3000 device-IsDisk small_fs-IsFormatted (λ k. 9) 2 1
      0 3 3 small_io inode_two-IsStored inode_two-HasClear (omega arith) inode_two_missing
      (rw inode_two_group refl) (λ e. omega (arith, e))
