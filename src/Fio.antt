-- ===== src/Fio.antt =====
-- The engine for fio in blobop_fio_plugin/fs_fio_plugin.c, over the calls of
-- simple_fs/monopoly_ops.c. What it uses of fio itself is a parameter. An int is a 32-bit pattern,
-- an unsigned long long a 64-bit one.
mod Tests
pub mod Ends
pub mod Queue
pub mod Requests
pub mod Start
pub mod Opens
use spdk_blob_top_fs.File.{Persist}
use spdk_blob_top_fs.Prelude.{
  ℕ, ◌+◌, ◌-◌, ◌%◌, ◌^◌, Bool, true, false, not, ◌&&◌, Option, none, some, List, [], ◌∷◌, ltb, ◌==◌,
  if◌then◌else◌,
}
use spdk_blob_top_fs.Dir.{Dirent}
use spdk_blob_top_fs.File.{Bytes, Blobstore, seek_set}
use spdk_blob_top_fs.Monopoly.{Sys, Result, monopoly_open, monopoly_create, monopoly_close}
use spdk_blob_top_fs.Monopoly.Descriptor.{read_fd, write_fd, lseek_fd}

-- `io_u->ddir`: DDIR_READ, DDIR_WRITE, DDIR_TRIM, and the syncs.
pub data Ddir : Type 0 where
  ddir_read ddir_write ddir_trim ddir_sync : Ddir

-- The fields of `struct fio_file` that the engine uses. A descriptor of -1 is `none`.
pub record FioFile : Type 0 where
  pub fd : Option ℕ
  pub engine_pos : ℕ
  pub real_file_size : ℕ
  pub size_known : Bool

-- The fields of `struct io_u` that the engine uses, with the bytes of `xfer_buf`. The file of an
-- `io_u` is set while it is in the queue.
pub record IoU : Type 0 where
  pub ddir : Ddir
  pub offset : ℕ
  pub xfer_buflen : ℕ
  pub xfer_buf : Bytes
  pub resid : ℕ
  pub error : ℕ

-- `ret >= 0`
abbrev is_non_negative : ℕ → Bool
is_non_negative ret = ltb ret (2 ^ 31)

-- `struct thread_data` as far as the engine changes it: the errors that `td_verror` is told.
abbrev pub Errors : Type 0
Errors = List ℕ

-- The end of a transfer: `FIO_Q_COMPLETED` in any case.
abbrev pub Ended : Type 0
Ended = FioFile × IoU × Errors

abbrev pub td_verror : FioFile → IoU → Errors → Ended
td_verror f io_u errors = (f, io_u, if not (io_u.error == 0) then io_u.error ∷ errors else errors)

-- `ret` and `errno`, and the errors so far. `ddir_rw` is that of fio, which tells reads and writes.
unfoldable pub fio_io_end :
    (ddir_rw : Ddir → Bool) → FioFile → IoU → Errors → (ret errno : ℕ) → Ended
fio_io_end ddir_rw f io_u errors ret errno =
    let f' =
      if is_non_negative ret && ddir_rw io_u.ddir
      then record f { engine_pos = (io_u.offset + ret) % 2 ^ 64 }
      else f in
    if not (ret == io_u.xfer_buflen % 2 ^ 32)
    then (if is_non_negative ret
        then (
          f',
          record io_u { resid = (io_u.xfer_buflen + 2 ^ 64 - ret) % 2 ^ 64; error = 0 },
          errors,
        )
        else td_verror f' (record io_u { error = errno }) errors)
    else td_verror f' io_u errors

pub spdk_get_file_size : FioFile → FioFile
spdk_get_file_size f = record f { real_file_size = 2000000; size_known = true }

module _ (B : Blobstore) (first more : ℕ → Dirent) (blob_of : ℕ → B.Blob) where
  -- `f->fd = monopoly_create(...)`, or the descriptor that there is.
  abbrev opened_fd : FioFile → Result B → FioFile × Sys B
  opened_fd f (fd, sys) = (record f { fd = fd }, sys)

  abbrev pub open_created : FioFile → Option (Result B) → Option (FioFile × Sys B)
  open_created f none = none
  open_created f (some r) = some (opened_fd f r)

  -- After `monopoly_open`.
  abbrev pub open_or_create :
      FioFile → Option (Result B) → (Sys B → Option (Result B)) → Option (FioFile × Sys B)
  open_or_create f none create = none
  open_or_create f (some (none, sys)) create = open_created f (create sys)
  open_or_create f (some (some fd, sys)) create = some (opened_fd f (some fd, sys))

  -- `file_name` is that of the file, `blob` what `blob_create` hands over, and `now` the time.
  unfoldable pub spdk_open_file :
      Sys B
      → FioFile
      → (file_name : List ℕ) → (blob : B.Blob) (left : Persist) (now : ℕ) → Option (FioFile × Sys B)
  spdk_open_file sys f file_name blob left now =
      open_or_create f (monopoly_open B blob_of sys file_name)
        (λ sys. monopoly_create B first more sys file_name blob left now)

module _ (B : Blobstore) where
  abbrev pub close_fd : FioFile → Option (B.Blob × Sys B) → Option (FioFile × Sys B)
  close_fd f none = none
  close_fd f (some (blob, sys)) = some (record f { fd = none }, sys)

  -- Without a descriptor the file is read before the table begins: the program does not go on.
  pub spdk_close_file : Sys B → FioFile → Option (FioFile × Sys B)
  spdk_close_file sys f = elim (f.fd) [
    | none ↦ none
    | some fd ↦ close_fd f (monopoly_close B sys fd)
  ]

  abbrev pub prep_done : Option (ℕ × Sys B) → Option (Sys B)
  prep_done none = none
  prep_done (some (pos, sys)) = some sys

  unfoldable pub fio_spdk_syncio_prep : Sys B → FioFile → Option (Sys B)
  fio_spdk_syncio_prep sys f = prep_done (lseek_fd B sys f.fd 0 seek_set)

  -- Where the data of a call are, and what the call does not set: `tracked` and `shared` as in
  -- `monopoly_read`, the size of the buffer of the file system, and `errno`.
  pub record Memory : Type 0 where
    pub tracked : Bool
    pub buf_size : ℕ
    pub shared : Bytes
    pub errno : ℕ

  -- `int ret = monopoly_read(...)`, and the end of the transfer.
  abbrev pub queue_done :
      (ddir_rw : Ddir → Bool)
      → Memory
      → FioFile
      → IoU
      → Errors
      → Option (ℕ × Bytes × Sys B)
      → Option (Ended × Sys B)
  queue_done ddir_rw m f io_u errors none = none
  queue_done ddir_rw m f io_u errors (some (n, user, sys)) =
      some (fio_io_end ddir_rw f (record io_u { xfer_buf = user }) errors (n % 2 ^ 32) m.errno, sys)

  -- What the engine uses of fio: `ddir_rw`, `fio_ro_check`, whose `assert` a request passes or not, and
  -- `do_io_u_trim`.
  module _ (ddir_rw : Ddir → Bool) (fio_ro_check : IoU → Bool) (do_io_u_trim : IoU → IoU) where
    -- The switch over the direction.
    abbrev pub queue_ddir : Memory → Sys B → FioFile → IoU → Errors → Ddir → Option (Ended × Sys B)
    queue_ddir m sys f io_u errors ddir_read =
        queue_done ddir_rw m f io_u errors
          (read_fd B m.tracked m.buf_size m.shared io_u.xfer_buf sys f.fd io_u.xfer_buflen)
    queue_ddir m sys f io_u errors ddir_write =
        queue_done ddir_rw m f io_u errors
          (write_fd B m.tracked m.buf_size m.shared io_u.xfer_buf sys f.fd io_u.xfer_buflen)
    queue_ddir m sys f io_u errors ddir_trim = some ((f, do_io_u_trim io_u, errors), sys)
    queue_ddir m sys f io_u errors ddir_sync =
        some (fio_io_end ddir_rw f io_u errors 0 m.errno, sys)

    unfoldable pub fio_spdk_syncio_queue :
        Memory → Sys B → FioFile → IoU → Errors → Option (Ended × Sys B)
    fio_spdk_syncio_queue m sys f io_u errors =
        if not (fio_ro_check io_u) then none else queue_ddir m sys f io_u errors io_u.ddir

-- `spdkfs_fio_invalidate`, which returns 0 for every file.
pub spdkfs_fio_invalidate : FioFile → ℕ
spdkfs_fio_invalidate f = 0

-- The members of `struct ioengine_ops` that the engines set. `R` is the result of a call: of the
-- file system, or of it or the kernel. `flags` holds what is set last.
pub record IoengineOps (B : Blobstore) (R : Type 0 → Type 0) : Type 0 where
  pub prep : Sys B → FioFile → R (Option (Sys B))
  pub queue : Memory B → Sys B → FioFile → IoU → Errors → R (Option (Ended × Sys B))
  pub open_file :
      Sys B
      → FioFile
      → (file_name : List ℕ) (blob : B.Blob) (left : Persist) (now : ℕ)
      → R (Option (FioFile × Sys B))
  pub close_file : Sys B → FioFile → R (Option (FioFile × Sys B))
  pub get_file_size : FioFile → FioFile
  pub invalidate : FioFile → ℕ
  pub flags : ℕ

-- `fio_syncio` is the bit of fio.
pub ioengine_spdk_rw :
    (B : Blobstore) (first more : ℕ → Dirent) (blob_of : ℕ → B.Blob) (ddir_rw : Ddir → Bool)
    (fio_ro_check : IoU → Bool) (do_io_u_trim : IoU → IoU) (fio_syncio : ℕ)
    → IoengineOps B (λ A. A)
ioengine_spdk_rw B first more blob_of ddir_rw fio_ro_check do_io_u_trim fio_syncio = record {
  prep = fio_spdk_syncio_prep B;
  queue = fio_spdk_syncio_queue B ddir_rw fio_ro_check do_io_u_trim;
  open_file = spdk_open_file B first more blob_of;
  close_file = spdk_close_file B;
  get_file_size = spdk_get_file_size;
  invalidate = spdkfs_fio_invalidate;
  flags = fio_syncio;
}
