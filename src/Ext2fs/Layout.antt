-- ===== src/Ext2fs/Layout.antt =====
-- The structures of `ext2fs.h` in memory, and the numbers that follow from a superblock.
use c4_os.Prelude.{
  ℕ, ◌+◌, ◌-◌, ◌*◌, ◌/◌, ◌%◌, ◌^◌, Bool, Option, none, some, ltb, ◌==◌, if◌then◌else◌, add32, sub32,
}

abbrev pub signature : ℕ
signature = 0xef53

abbrev pub inode_type_directory : ℕ
inode_type_directory = 4

-- The fields of `ext2_superblock_t` that the program uses. `block_shift` is `block_size`,
-- `inodes_in_group` is `inodes_per_group`, `sign` is `signature` and `inode_bytes` is `inode_size`,
-- names that the functions below have.
pub record Superblock : Type 0 where
  pub total_inodes : ℕ
  pub total_blocks : ℕ
  pub block_shift : ℕ
  pub blocks_per_group : ℕ
  pub inodes_in_group : ℕ
  pub sign : ℕ
  pub inode_bytes : ℕ

unfoldable pub load_superblock : (ℕ → ℕ) → Superblock
load_superblock words = record {
  total_inodes = words 0;
  total_blocks = words 1;
  block_shift = words 6;
  blocks_per_group = words 8;
  inodes_in_group = words 10;
  sign = words 14 % 2 ^ 16;
  inode_bytes = words 22 % 2 ^ 16;
}

-- `ext2fs_t`.
pub record Ext2fs : Type 0 where
  pub superblock : Superblock
  pub block_device_start : ℕ
  pub block_device : ℕ

unfoldable pub is_valid : Ext2fs → Bool
is_valid fs = fs.superblock.sign == signature

-- A superblock that was read, if it has the signature.
unfoldable pub checked_fs : ℕ → Option Superblock → Option Ext2fs
checked_fs disk none = none
checked_fs disk (some sb) =
    let fs : Ext2fs = record { superblock = sb; block_device_start = 2048; block_device = disk } in
    if is_valid fs then some fs else none

unfoldable pub block_size : Ext2fs → ℕ
block_size fs = 2 ^ (fs.superblock.block_shift + 10)

unfoldable pub inode_size : Ext2fs → ℕ
inode_size fs = fs.superblock.inode_bytes

unfoldable pub block_to_sector : Ext2fs → ℕ → ℕ
block_to_sector fs block = add32 (block * block_size fs % 2 ^ 32 / 512) fs.block_device_start

unfoldable pub block_size_to_sectors : Ext2fs → ℕ
block_size_to_sectors fs = block_size fs / 512

unfoldable pub total_block_descs : Ext2fs → ℕ
total_block_descs fs = fs.superblock.total_blocks / fs.superblock.blocks_per_group

unfoldable pub inodes_per_group : Ext2fs → ℕ
inodes_per_group fs = fs.superblock.inodes_in_group

unfoldable pub inodes_per_block : Ext2fs → ℕ
inodes_per_block fs = block_size fs / inode_size fs

unfoldable pub max_inode : Ext2fs → ℕ
max_inode fs = fs.superblock.total_inodes

unfoldable pub max_block : Ext2fs → ℕ
max_block fs = fs.superblock.total_blocks

unfoldable pub block_group : Ext2fs → ℕ → ℕ
block_group fs inode = sub32 inode 1 / inodes_per_group fs

unfoldable pub group_index : Ext2fs → ℕ → ℕ
group_index fs inode = sub32 inode 1 % inodes_per_group fs

unfoldable pub pointers_per_block : Ext2fs → ℕ
pointers_per_block fs = block_size fs / 4

-- `ext2_inode_t`: its 30 words. The pointers are those from the tenth on.
abbrev pub Inode : Type 0
Inode = ℕ → ℕ

abbrev pub inode_words : ℕ
inode_words = 30

abbrev pub direct_ptr : Inode → ℕ → ℕ
direct_ptr inode k = inode (10 + k)

abbrev pub single_indirect_ptr : Inode → ℕ
single_indirect_ptr inode = inode 22

unfoldable pub inode_type : Inode → ℕ
inode_type inode = inode 0 % 2 ^ 16 / 2 ^ 12

unfoldable pub is_directory : Inode → Bool
is_directory inode = inode_type inode == inode_type_directory

-- `*buffer = *inode_ptr`.
unfoldable pub load_inode : ℕ → (ℕ → ℕ) → Inode
load_inode ptr words k = if ltb k inode_words then words (ptr + k) else 0

-- `*bufptr = *iptr`.
unfoldable pub store_inode : ℕ → Inode → (ℕ → ℕ) → ℕ → ℕ
store_inode ptr inode words i =
    if ltb i ptr then words i else if ltb i (ptr + inode_words) then inode (i - ptr) else words i

abbrev pub with_word : ℕ → ℕ → (ℕ → ℕ) → ℕ → ℕ
with_word at value words i = if i == at then value else words i

-- A cleared inode but for its modes.
unfoldable pub cleared_inode : ℕ → Inode
cleared_inode modes = with_word 0 (modes % 2 ^ 16) (λ i. 0)

-- The `k`-th word of a descriptor, of 8 words each: `block_map`, `inode_map`, `inode_table`, and the
-- two counters of what is not allocated, of 16 bits each.
abbrev pub desc_word : ℕ → ℕ → ℕ
desc_word index k = index * 8 + k
