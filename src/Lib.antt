-- ===== src/Lib.antt =====
-- The runtime library and the user programs of an operating system on a microkernel.
--
-- Shared code, from libraries/c4rt, runs inside the programs, from programs/, which exchange
-- messages through the kernel. The files here translate the parts that keep state and decide;
-- names of definitions are the source's, without the prefix that stands for the file.
--
-- RingBuffer: libraries/c4rt/src/ringbuffer.c, the ring of bytes through which a server queues
--   data for a client. `RingBuf` is `c4_ringbuf_t`, with the memory behind it as a list of bytes;
--   `init`, `put_byte`, `get_byte`, `write`, `read`, `available`, `can_write`, `can_read`,
--   `is_full` and `is_empty` are the `c4_ringbuf_` functions. Bounds has the invariant, Queue the
--   bounded queue that it implements, Refine and Bulk the refinement, Space the room left.
-- Prng: libraries/c4rt/src/galois_lfsr.c, a 64-bit shift register that numbers clients and colours
--   windows. The static `state` is an argument and a result. Register is about one step, Draws
--   about the numbers drawn.
-- AndTree: libraries/c4rt/src/andtree.c, balanced trees that hold clients by number and ranges by
--   address. `Tree` is what the `leaves` of a node reach, and a pointer to a node is a `Place`, the
--   subtree with the frames that its `parent` pointers lead through. Nodes, Balance, Search, Insert,
--   Check and Remove have the operations and what they do to the sorted list of items; Walk has the
--   iteration.
-- Console: programs/display/src/display.c and textmode.c, the console. `Display` is `display_t`, its
--   text buffer the memory from it on as a map from cell numbers; `Driver` is the pair of function
--   pointers that the console calls, `text_driver` those of the text mode. `handle` is a round of
--   the message loop. Cursor has the invariant, Scroll, Clear and Memory what the cells hold.
-- NameServer: programs/nameserver/src/main.c and nameserver.h, where programs find each other's
--   endpoints by the hash of a name. `Names` is the memory from the array `names` on; `serve` is a
--   round of the message loop, with the kernel calls that it makes as a list of actions and the
--   server that lookups are forwarded to as a parameter. Table, Bind and Latest are about the table,
--   Requests about the answers, Hash about `nameserver_hash`.
-- Keyboard: programs/initprogs/src/keyboard.c, from scancodes to key events. `Keys` has the static
--   variables, and what stands behind the two tables is a parameter. Held has the theorem.
-- Strings: libraries/c4rt/libc/string.c, on a memory that maps addresses to bytes. The routines that
--   run to a final 0 take a number of rounds (`fuel`), of which one more than the string has
--   characters is enough. Text has the strings in memory, Memory, Compare and Copy the routines.
-- WindowManager: programs/stubbywm/src/main.c and the drawing of ppm.c. `Wm` is `wm_t`, with the
--   window list as a list from the bottom to the top and the display buffers as memories by pixel.
--   Draw has the routines that draw and `frame`, the drawing of a round of `event_loop`; Events has
--   the handlers and the rounds; Screen is about the regions to draw. Below Draw, Pixels, Regions,
--   Colors, Windows and Frame are about the loops, from one pixel to a whole frame, and Scene
--   describes the picture that a frame is compared with. Below Events, Marks, Shown, Carried, Mouse,
--   Pointer, Server and Loop are about what the framebuffer shows from message to message, and Raise
--   about the order of the windows.
-- Disk: programs/ata/src/main.c and ata.h, the disk driver. `Ports` is what the kernel calls for ports
--   do with a machine, a parameter; `IsDrive` (in Drive) is what is documented of the drives. Access
--   has the transfers and the handler of a request; Transfer, Registers, Reads, Sectors, Model and
--   Requests have the theorems. The waiting loops take a number of rounds (`fuel`), of which one more
--   than a drive is busy for is enough.
-- Mouse: programs/initprogs/src/ps2mouse.c, from the mouse's bytes to mouse events. `interrupts` is
--   the loop of `event_thread` over the interrupts that come, each with the bytes that are ready
--   then; `mouse_init` works over `Ports`. Packets has the theorems.
-- Pci: programs/initprogs/src/pci.c, the scan of the bus. What the configuration ports answer is a
--   function of the address, a parameter. Places has its addresses, Lookup and
--   Numbers have the theorems.
-- Heap: libraries/c4rt/src/alloc.c and include/c4alloc/c4alloc.h, the allocator. `Heap` has the
--   heap and the headers of its blocks, a map for each field. Sizes is about the list a request is
--   served from, Lists about the lists of free blocks and Unlink about leaving them, Chains about the
--   blocks of a region in the order of their addresses; Split, Spill, Merge and Join change these,
--   Coalesce and Free are about freeing, Supply, Leave and Take about allocating. The merging loop is
--   on fuel, of which one more than the region has blocks is enough; the loop that grows the heap makes one step, far below its fuel.
-- Ext2fs: programs/ext2fs/src/main.c and include/ext2fs/ext2fs.h, the filesystem below its requests.
--   `BlockDevice` is what the disk driver answers, a parameter; `IsDisk` (in Access) is what is
--   documented of a disk in order. `Io` has the shared buffer, a memory of 32-bit words, and the
--   disk. Layout has the structures, Bitmap the searches and allocations; Inodes, Pointers, Bits,
--   Search, Marks, Allocate, Enter and Format have the theorems.
-- FileServer: programs/ext2fs/src/server.c, the requests to the filesystem, which use the ring buffer
--   of the connection and Ext2fs. `Conn` has the client's state, the ring and the filesystem's
--   buffer and disk; a handler gives the reply and the connection after it. Dirents has the entries
--   of a directory, Names is about the search in them, of which one round more than a block has
--   entries is enough, and Answers about reading.
-- Prelude: tests on numbers, 32-bit words, lists and bits, and the machine's ports.
--
-- Numbers are naturals. The indices of the ring buffer, the counter and the keys of the tree, the
-- hashes, the results of the comparisons and the coordinates of the screen are 32-bit words, whose
-- sums and differences wrap at 2 ^ 32; an `int` or `int32_t` is such a word in two's complement.
-- Addresses and cell numbers are not bounded: the screen and the strings are assumed to lie within
-- the address space. A loop is structural recursion over the list or the count that bounds it; only
-- the walk over a whole tree (`visit`), which the number of nodes bounds, the loops over strings,
-- those that wait for a drive, the merging of free blocks and the search in a directory are on fuel,
-- of which enough is a hypothesis of their theorems. The depth of `alloc_update` and
-- `set_full_update` calling each other is fixed at 2, since the inner call finds the regions reset,
-- and the digits of a 32-bit number at 32.
--
-- Not modelled: the kernel calls and the start-up code, since the kernel is not in the repository;
-- the loops of `main` that receive messages and the collection of their clients, but for those named
-- above; the links of the window list and the image header, whose results the window manager uses;
-- what a drive does behind its ports; the listing of a directory; memory exhaustion, which the code does not test for; the
-- printing of debug messages. A rotation of the tree is written out as the subtree that it leaves,
-- with the parent pointers that follow from it.
pub mod Prelude
pub mod RingBuffer
pub mod Prng
pub mod AndTree
pub mod Console
pub mod Keyboard
pub mod NameServer
pub mod Strings
pub mod WindowManager
pub mod Disk
pub mod Mouse
pub mod Pci
pub mod Heap
pub mod Ext2fs
pub mod FileServer
