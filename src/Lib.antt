-- ===== src/Lib.antt =====
-- The SPDK blob file system: files of a single working directory on an SPDK blobstore, behind
-- calls that replace those of the C library. The models are of the sources in spdk_fs/ and
-- simple_fs/ and of the engines for fio in blobop_fio_plugin/ and hello_spin_reactor.c; SPDK itself,
-- fio, the C library and the kernel are parameters.
--
-- The parts, from below:
--   Radix      spdk_fs/radix_tree.c, a map from 64-bit keys to items: `radix_tree_insert`,
--              `radix_tree_lookup`, `radix_tree_gang_lookup`, `radix_tree_delete`. A tree of a height is a
--              family of data types over that height; `Radix/Word` has the bits of a key and the table of
--              largest keys, `Radix/Gang` the scan in order of keys.
--   Mm         spdk_fs/io_mm.c, the buffers that come from SPDK's memory: `spdkfs_malloc`,
--              `spdkfs_realloc`, `spdkfs_free`, `spdkfs_mm_find`, `spdkfs_mm_free`. It takes the radix
--              tree as a section parameter, the record `KeyTable` of `Prelude/Map`, which
--              `Radix/Table` fills.
--   Fd         the table of open files in simple_fs/monopoly_ops.c: `get_fd_from_table` and
--              `return_fd_to_table`.
--   Dir        the directory in memory: `add_dirent` and the removal of monopoly_ops.c, and
--              `spdkfs_dir_lookup` and `get_next_part` of simple_fs/dir.c; `find_path` in `Dir/Walk`.
--              `Dir/View` sees a directory as a list of entries, `Dir/Names` as a map from names to
--              ids.
--   File       simple_fs/file.c, and `monopoly_read`, `monopoly_write` and `monopoly_lseek`. The
--              blobstore is the record `Blobstore`; what the theorems need of it is in the records
--              `Disk` and `WritableDisk`, and `PartialDisk` and `PartialStore`, on which reads and
--              writes may fail; `File/Ram` fills them for the examples.
--   DirIo      the transfers of a directory in dir.c, and `load_root` of simple_fs/super.c, over the
--              record `DirStore`.
--   Poller     simple_fs/thread_poller.c: `generic_poller` on a thread that has one request to SPDK at
--              a time. The callbacks are the record `Callbacks`, which Mount and BlobOp fill.
--   Mount      spdk_fs/fs.c: the callbacks that load or initialise the blobstore.
--   BlobOp     simple_fs/blob_op.c, and the creation and deletion of a blob in simple_fs/super.c.
--   Monopoly   `monopoly_create`, `monopoly_open`, `monopoly_close` and `monopoly_unlink`, over Fd, Dir
--              and File; the transfers on a descriptor and `monopoly_stat` in `Monopoly/Descriptor`,
--              `monopoly_chdir` and `monopoly_mkdir` in `Monopoly/Workdir`.
--   Interface  simple_fs/interface.c: which paths and descriptors are taken, and `__spdk_open`; the
--              other calls on files in `Interface/Transfer`, those on memory, over Mm, in
--              `Interface/Memory`; sequences of calls in `Interface/Trace` and
--              `Interface/Memory/World`.
--   Super      the start and the stop of simple_fs/super.c, over Poller, Mount, DirIo and Mm.
--   Fio        blobop_fio_plugin/fs_fio_plugin.c: the engine for fio, over Monopoly.
--   Hello      hello_spin_reactor.c: the same engine, over Interface. `__spdk__open` and
--              `__spdk__close`, which it calls and nothing defines, are parameters.
--   FileUt     test/file_test/file_ut.c, a program over Monopoly.
--   PosixUt    test/posix_test/posix_ut.c, the same program over Interface.
-- Prelude has the shared names, the Boolean tests and the lists. The files called Tests have examples.
--
-- Numbers are natural numbers; a word of w bits is wrapped with `% 2 ^ w` where the code can wrap. An
-- error number is its absolute value. A pointer that is only passed on is a number, and NULL is 0 or
-- `none`.
--
-- Loops are recursions on a number of turns. The search of a descriptor has 258 turns, which end it for
-- every valid table (`Fd/Take`); the search of an entry of `mm_table` and the loop over it have
-- the turns that the C loops have at most; `generic_poller` has the 10^8 polls of
-- POLLER_MAX_TIME; the loops of the transfers have the number of chunks that the C code
-- computes. The scan of `radix_tree_gang_lookup` has two rounds more than the largest key of the tree,
-- and each moves to a later key; `find_path` has a turn for each byte of the path and one, and each
-- shortens the path.
--
-- Not modelled: the binding of the tables of operations, of which each kind has one; `find_dir`, which is
-- defined nowhere and is a parameter of the calls that use it; the creation of SPDK's threads, the
-- lookup of the C library's own calls at the start, the logging, the registration of the engines, and
-- the scripts.
-- A `none` also stands for an `assert` that fails or an `exit`. Not so in `File/Store`: there the
-- size of a resize is taken to be above 0, as the assertion of `resize_blob` asks; the size that
-- `grow_blob` gives is 0 only where the capacity is one cluster below 2^64 bytes. The table of open
-- files is a function of every number, so a call on a descriptor that is not open, which in C reads
-- beyond the array or a null pointer, has some file there; the names of a directory are functions of every
-- position, and what C reads behind the 512 bytes of a name has no meaning. An open file has a copy
-- of the attribute that the code points to in the blob. The `int` counters of the loops over
-- chunks are not wrapped: a transfer has fewer than 2^31 chunks, each of at most 0x10000 bytes.
-- Allocation by `malloc` does not fail, as in the code, which does not look at its result.
pub mod Prelude
pub mod Radix
pub mod Mm
pub mod Fd
pub mod Dir
pub mod File
pub mod DirIo
pub mod Poller
pub mod Mount
pub mod BlobOp
pub mod Monopoly
pub mod Interface
pub mod Super
pub mod Fio
pub mod Hello
pub mod FileUt
pub mod PosixUt
