-- ===== src/Lib.antt =====
-- A model of the YFS file system: a FUSE file system over an extent server whose disk lives in
-- memory.
--
-- The parts, from the bottom up, and where they are modelled:
--   * Disk: class disk and the fields of the managers (inode_manager.h, inode_manager.cc). A Store
--     is the memory of one server. Fault is the one way to fail: a call that C++ does not define
--     (an access outside an array, a null pointer, an exception that nothing catches).
--   * BlockManager: alloc_block and free_block on the bitmap. Bitmap has the bits of the blocks,
--     Alloc and Free what the operations do, Count the number of free data blocks, Growth and
--     Shrink what a sequence of allocations or of frees leaves alone.
--   * Inode: struct inode as the bytes of a block; Layout is its round trip.
--   * InodeManager: get_inode, put_inode, alloc_inode, free_inode, read_file, write_file, getattr
--     and remove_file. The loops over the direct and the indirect block addresses are functions of
--     their own (load_blocks, free_blocks, store_blocks and the three on the indirect block).
--     Table has the inode table as a map, Loops, Loads and Frees one lemma for each loop, Data,
--     Stored and Stores the whole of a file, Contents and Lengths its bytes and its blocks, Owned
--     and Same whose they are; Writing, Reading, Creating, Removing and Limits have the operations.
--   * Extent: extent_server.cc and extent_client.cc, which calls the server in the same process.
--     ExtentClient is the interface that yfs_client uses. State has the invariant of the disk and
--     the table of files that it holds, Changing what a change of one entry keeps, Operations and
--     Lifetime the four operations on the table, Refines the laws of Spec for the disk, and Booting
--     the start on a formatted disk.
--   * Directory: the text of a directory, `name/inum/` for each entry (yfs_client.cc): printing,
--     getline, atoi and the loops of readdir, lookup and unlink.
--   * Content: what setattr, read and write of yfs_client.cc make of the contents of a file.
--   * Spec: what yfs_client relies on, as laws of an extent client over a table of files; Calls has
--     the calls of a client as steps on the table.
--   * Yfs: class yfs_client over any extent client; its child modules prove the operations over
--     the laws of Spec.
--   * Fuse: the request handlers of fuse.cc, which answer with one reply each; Attributes and
--     Requests have the replies over the laws of Spec.
--   * System: yfs_client over the disk, from the start on.
--   * Rpc: the headers of the RPC library (rpc/rpc.h, rpc/marshall.h, rpc/fifo.h) and the server
--     program extent_smain.cc. The buffers and headers of messages are in Rpc itself, with Spell and
--     Header on their round trip; Wire has the operators of vectors, maps and attributes, Vectors,
--     Maps and Buffers what they do; Calls and Handlers the templates of both sides, Transparency
--     and Arguments what a remote call gives, Server the extent server behind it, and Fifo the queue
--     of jobs.
--   * Tester: part1_tester.cc, a program that uses an extent client; its child modules run it on the
--     disk.
--   * Tests: a formatted disk with one file, an extent client that keeps files in memory and
--     fulfils the laws, and the theorems at these inputs.
--
-- State is passed on by the monad M of Base/Fault: a computation gives a result and a new state, or
-- nothing for a fault. The environment (the clock, what malloc leaves in a buffer, and the bytes
-- behind a string) is a stream of answers in the Store; nothing is assumed of it but that words
-- have 32 bits. What C++ leaves in a variable that a call does not set is an argument.
--
-- Numbers are natural numbers; machine widths are written out where the code wraps. The int size
-- of a file is its 32 bits: `put` takes the length of the string modulo 2 ^ 32, and the loops that
-- compare it as an int make no round from 2 ^ 31 on. The loop of
-- readdir has fuel for the length of the text and one more, since each round takes a byte; the
-- decimal digits have fuel 20, which is enough for 64 bits. All other loops run over lists or a
-- number of rounds that the code fixes.
--
-- The code of the RPC library behind its headers is a binary. What the headers use of it (pack and
-- unpack, the operators of the base types, okdone, call1, reg1) are arguments; the records
-- PackingLaws, WireLaws, Delivers and TableLaws and the predicate SaysDone say what is relied on,
-- and Tests/Wires and Tests/Headers have an RPC library in memory that fulfils them. An int of a
-- message is its 32 bits, and messages are shorter than 2 ^ 31 bytes.
--
-- Not modelled: printf, memory that is not freed, main of fuse.cc, the command line of
-- extent_smain.cc, the threads and connections in rpc/ (connection.h, pollmgr.h, thr_pool.h,
-- method_thread.h: declarations of a binary and wrappers that start a thread), gettime.cc, and
-- n2i of yfs_client.cc, which nothing calls. T_SYMLINK is an argument, since extent_protocol.h does
-- not declare it; fuse_dirent_size, fuse_add_dirent and the FUSE_SET_ATTR bits of libfuse are
-- arguments too.
pub mod Base
pub mod Disk
pub mod BlockManager
pub mod Inode
pub mod InodeManager
pub mod Extent
pub mod Directory
pub mod Content
pub mod Spec
pub mod Yfs
pub mod Fuse
pub mod System
pub mod Rpc
pub mod Tester
pub mod Tests
