-- ===== src/FileServer/Tests.antt =====
-- A directory of two entries, and a client of a filesystem that reads a file.
use c4_os.Prelude.{
  ℕ, ◌/◌, ◌≤◌, ◌<◌, ◌≡◌, ◌⊎◌, inl, refl, arith, true, false, Option, some, [], ◌∷◌, ◌==◌,
  if◌then◌else◌,
}
use c4_os.RingBuffer.{RingBuf}
use c4_os.RingBuffer.Bounds.{IsValid}
use c4_os.Ext2fs.{
  BlockDevice, Io, Ext2fs, Inode, block_size, inode_read_block, pointed_block, read_or_zero,
  read_block, read_disk, max_block,
}
use c4_os.FileServer.{
  completed, failed, error_queue_full, ClientState, Conn, lower_size, byte_at, dirent_size,
  find_entry, handle_read_block,
}
use c4_os.FileServer.Names.{AreEntries, IsFirst, find_entry-IsFirst}
use c4_os.FileServer.Answers.{to_send, room, IsSent, handle_read_block_lem}

-- The entries "a" of 12 bytes and "b" of the other 1012.
abbrev directory : ℕ → ℕ
directory w =
    if w == 0
    then 11
    else if w == 1
    then 0x0201000c
    else if w == 2
    then 97
    else if w == 3
    then 12
    else if w == 4
    then 0x010103f4
    else if w == 5
    then 98
    else 0

directory-AreEntries : AreEntries directory 1024 0 (0 ∷ 12 ∷ [])
unfolding dirent_size byte_at
directory-AreEntries = (refl, omega arith, (refl, omega arith, refl))

find_entry-IsFirst_example :
    (found : Option ℕ) × (find_entry 3 directory 1024 0 (98 ∷ []) ≡ some found)
    × IsFirst directory (98 ∷ []) (0 ∷ 12 ∷ []) found
find_entry-IsFirst_example =
    find_entry-IsFirst 3 1024 0 directory (98 ∷ []) (0 ∷ 12 ∷ []) (omega arith) (omega arith)
      directory-AreEntries

-- A disk that answers every read with the numbers of the words.
abbrev device : BlockDevice (Unit {0})
device = record {
  block_read = λ id drive s n buffer d. (false, λ i. i, d);
  block_write = λ id drive s n buffer d. (false, d);
}

abbrev small_fs : Ext2fs
small_fs = record {
  superblock = record {
    total_inodes = 16;
    total_blocks = 32;
    block_shift = 0;
    blocks_per_group = 16;
    inodes_in_group = 8;
    sign = 0xef53;
    inode_bytes = 128;
  };
  block_device_start = 2048;
  block_device = 1;
}

-- A file of 6 bytes in block 7.
abbrev file : Inode
file k = if k == 1 then 6 else if k == 10 then 7 else 0

abbrev reader : ClientState
reader = record { inode = 11; e2node = file; index = 2 }

abbrev small_ring : RingBuf
small_ring = record {
  read_index = 0;
  write_index = 0;
  size = 8;
  bytes = 0 ∷ 0 ∷ 0 ∷ 0 ∷ 0 ∷ 0 ∷ 0 ∷ 0 ∷ [];
}

small_ring-IsValid : IsValid small_ring
small_ring-IsValid = omega arith

abbrev small_conn : Conn (Unit {0})
small_conn = record {
  prog_data = some reader;
  ring = small_ring;
  io = record { buffer = λ i. 0; disk = tt };
}

abbrev read_io : Io (Unit {0})
read_io = record { buffer = λ i. i; disk = tt }

file_block :
    inode_read_block device small_fs file (reader.index / block_size small_fs) small_conn.io
    ≡ some (true, read_io)
unfolding inode_read_block pointed_block read_or_zero read_block read_disk max_block block_size
file_block = refl

handle_read_block_lem_example :
    ((lower_size file ≤ 2)
      × (handle_read_block device small_fs small_conn ≡ some (completed 0 0 0, small_conn)))
    ⊎ ((room small_ring < to_send small_fs reader)
        × (handle_read_block device small_fs small_conn
            ≡ some (failed error_queue_full, small_conn)))
    ⊎ ((to_send small_fs reader ≤ room small_ring)
        × ((conn' : Conn (Unit {0})) × (handle_read_block device small_fs small_conn
              ≡ some (completed (to_send small_fs reader) 0 0, conn'))
            × IsSent small_fs small_conn reader read_io conn'))
handle_read_block_lem_example =
    handle_read_block_lem device small_fs small_conn reader read_io refl small_ring-IsValid
      (inl (omega arith)) (omega arith) file_block
