-- ===== src/FileServer.antt =====
-- The filesystem server of `programs/ext2fs/src/server.c`: requests of a client, answered from the
-- filesystem through the ring buffer that the two share.
--
-- A fault, such as a read through `NULL`, is `none`, and so is a directory whose entries lead to no
-- end within the fuel.
mod Dirents
mod Names
mod Answers
mod Tests
unfoldable pub use Dirents.*
use c4_os.Prelude.{
  ℕ, zero, suc, ◌+◌, ◌-◌, ◌*◌, ◌/◌, ◌%◌, ◌^◌, Bool, true, false, not, Option, none, some, List, [],
  ◌∷◌, length, ltb, leb, ◌==◌, if◌then◌else◌, add32, sub32,
}
use c4_os.RingBuffer.{RingBuf, can_read, can_write, is_empty, read, write}
use c4_os.Ext2fs.{
  BlockDevice, Io, Ext2fs, Inode, block_size, inode_type, is_directory, get_inode, inode_read_block,
  read_block, write_block,
}
use c4_os.Ext2fs.Bitmap.{inode_alloc_block}

-- `FS_MSG_COMPLETED` with three words of data, and `FS_MSG_ERROR`.
pub data Reply : Type 0 where
  completed : ℕ → ℕ → ℕ → Reply
  failed : ℕ → Reply

abbrev pub error_not_directory : ℕ
error_not_directory = 1

abbrev pub error_not_implemented : ℕ
error_not_implemented = 3

abbrev pub error_not_found : ℕ
error_not_found = 4

abbrev pub error_queue_full : ℕ
error_queue_full = 6

abbrev pub error_bad_request : ℕ
error_bad_request = 7

abbrev pub max_name_len : ℕ
max_name_len = 256

abbrev pub file_type_directory : ℕ
file_type_directory = 2

-- `client_state_t`, with the inode's number for `fsnode`.
pub record ClientState : Type 0 where
  pub inode : ℕ
  pub e2node : Inode
  pub index : ℕ

-- A connection, with the filesystem's buffer and disk.
pub record Conn {ℓ} (D : Type ℓ) : Type ℓ where
  pub prog_data : Option ClientState
  pub ring : RingBuf
  pub io : Io D

abbrev pub lower_size : Inode → ℕ
lower_size inode = inode 1

unfoldable pub entry_reply : (ℕ → ℕ) → ℕ → Reply
entry_reply words at = completed (dirent_inode words at) (translate_type (dirent_type words at)) 0

-- The end of `handle_read_block`: what the ring took of the bytes is what the client has read.
unfoldable pub advance {ℓ} : {D : Type ℓ} → ClientState → ℕ × RingBuf → Io D → Reply × Conn D
advance cli wrote io = (
  completed wrote.0 0 0,
  record {
    prog_data = some record cli { index = add32 cli.index wrote.0 };
    ring = wrote.1;
    io = io;
  },
)

module _ {ℓ} {D : Type ℓ} (dev : BlockDevice D) (fs : Ext2fs) where
  -- The answers keep what they do not name.
  unfoldable pub answered : Reply → Conn D → Option (Reply × Conn D)
  answered reply conn = some (reply, conn)

  -- `calloc` gives a client without a state a cleared one.
  unfoldable pub client_of : Option ClientState → ClientState
  client_of none = record { inode = 0; e2node = λ k. 0; index = 0 }
  client_of (some cli) = cli

  unfoldable pub found_inode : Option (ℕ × Inode) → Inode → Inode
  found_inode none old = old
  found_inode (some (ptr, inode)) old = inode

  unfoldable pub handle_set_node : ℕ → Conn D → Option (Reply × Conn D)
  handle_set_node inode conn =
      let got = get_inode dev fs inode conn.io in
      let cli : ClientState = record {
        inode = inode;
        e2node = found_inode got.0 (client_of conn.prog_data).e2node;
        index = 0;
      } in
      answered (completed 0 0 0) record conn { prog_data = some cli; io = got.1 }

  -- The outer loop of `handle_find_name`, over the blocks of the directory.
  unfoldable pub find_blocks : ℕ → ℕ → Inode → ℕ → List ℕ → Io D → Option (Reply × Io D)
  find_blocks fuel zero e2node block name io = some (failed error_not_found, io)
  find_blocks fuel (suc left) e2node block name io =
      elim (inode_read_block dev fs e2node block io) [
        | none ↦ none
        | some (there, io1) ↦
            let rest = find_blocks fuel left e2node (block + 1) name io1 in
            if there
            then elim (find_entry fuel io1.buffer (block_size fs) 0 name) [
              | none ↦ none
              | some none ↦ rest
              | some (some at) ↦ some (entry_reply io1.buffer at, io1)
            ]
            else none
      ]

  unfoldable pub found_name :
      RingBuf → Option ClientState → Option (Reply × Io D) → Option (Reply × Conn D)
  found_name ring client none = none
  found_name ring client (some (reply, io)) =
      some (reply, record { prog_data = client; ring = ring; io = io })

  -- Without a state, the error is sent and the code goes on to read through `NULL`.
  unfoldable pub find_name_of : ℕ → ℕ → Conn D → Option ClientState → Option (Reply × Conn D)
  find_name_of fuel namelen conn none = none
  find_name_of fuel namelen conn (some cli) =
      let got = read conn.ring namelen in
      let size = lower_size cli.e2node in
      let rounds = (size + block_size fs - 1) / block_size fs in
      let found = find_blocks fuel rounds cli.e2node 0 got.1 conn.io in
      if not (is_directory cli.e2node)
      then answered (failed error_not_directory) conn
      else if not (can_read conn.ring namelen)
      then answered (failed error_bad_request) conn
      else if leb max_name_len namelen
      then answered (failed error_bad_request) conn
      else found_name got.2 conn.prog_data found

  unfoldable pub handle_find_name : ℕ → ℕ → Conn D → Option (Reply × Conn D)
  handle_find_name fuel namelen conn = find_name_of fuel namelen conn conn.prog_data

  unfoldable pub node_info : Option (ℕ × Inode) → Reply
  node_info none = failed error_not_found
  node_info (some (ptr, inode)) = completed (lower_size inode) (translate_type (inode_type inode)) 0

  -- The program reads what is not there as whatever the stack holds; here that is a fault.
  unfoldable pub rootdir_info : Option (ℕ × Inode) → Option Reply
  rootdir_info none = none
  rootdir_info (some (ptr, inode)) = some (completed 2 file_type_directory (lower_size inode))

  unfoldable pub handle_get_rootdir : Conn D → Option (Reply × Conn D)
  handle_get_rootdir conn =
      let got = get_inode dev fs 2 conn.io in
      elim (rootdir_info got.0) [
        | none ↦ none
        | some reply ↦ answered reply record conn { io = got.1 }
      ]

  unfoldable pub handle_get_node_info : ℕ → Conn D → Option (Reply × Conn D)
  handle_get_node_info inode conn =
      let got = get_inode dev fs inode conn.io in
      answered (node_info got.0) record conn { io = got.1 }

  unfoldable pub sent_block :
      ClientState → RingBuf → ℕ → ℕ → Option (Bool × Io D) → Option (Reply × Conn D)
  sent_block cli ring offset writesize none = none
  sent_block cli ring offset writesize (some (false, io)) = none
  sent_block cli ring offset writesize (some (true, io)) =
      some (advance cli (write ring (bytes_from writesize offset io.buffer)) io)

  unfoldable pub read_block_of : Conn D → Option ClientState → Option (Reply × Conn D)
  read_block_of conn none = answered (failed error_bad_request) conn
  read_block_of conn (some cli) =
      let size = lower_size cli.e2node in
      let blocksize = block_size fs in
      let diff = size - cli.index in
      let writesize = if ltb blocksize diff then blocksize else diff in
      let offset = cli.index % blocksize in
      let block = inode_read_block dev fs cli.e2node (cli.index / blocksize) conn.io in
      if leb size cli.index
      then answered (completed 0 0 0) conn
      else if not (can_write conn.ring writesize)
      then answered (failed error_queue_full) conn
      else sent_block cli conn.ring offset writesize block

  unfoldable pub handle_read_block : Conn D → Option (Reply × Conn D)
  handle_read_block conn = read_block_of conn conn.prog_data

  -- The allocated block is read, filled from the ring and written.
  unfoldable pub filled_block :
      ClientState → RingBuf → ℕ → ℕ → Option (ℕ × Io D) → Option (Reply × Conn D)
  filled_block cli ring offset writesize none = none
  filled_block cli ring offset writesize (some (fs_block, io)) =
      let there = read_block dev fs fs_block io in
      let got = read ring writesize in
      let io1 : Io D = record there.1 { buffer = with_bytes offset got.1 there.1.buffer } in
      if there.0
      then some (advance cli (got.0, got.2) (write_block dev fs fs_block io1).1)
      else none

  -- `garbage` is what `inodebuf` holds in `ext2_inode_alloc_block` when the inode cannot be read.
  unfoldable pub write_block_of : Inode → Conn D → Option ClientState → Option (Reply × Conn D)
  write_block_of garbage conn none = answered (failed error_bad_request) conn
  write_block_of garbage conn (some cli) =
      let blocksize = block_size fs in
      let offset = cli.index % blocksize in
      let allocated = inode_alloc_block dev fs garbage cli.inode (cli.index / blocksize) conn.io in
      if is_empty conn.ring
      then answered (completed 0 0 0) conn
      else filled_block cli conn.ring offset (blocksize - offset) allocated

  unfoldable pub handle_write_block : Inode → Conn D → Option (Reply × Conn D)
  handle_write_block garbage conn = write_block_of garbage conn conn.prog_data

  unfoldable pub handle_unimplemented : Conn D → Option (Reply × Conn D)
  handle_unimplemented conn = answered (failed error_not_implemented) conn
