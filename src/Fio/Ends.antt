-- ===== src/Fio/Ends.antt =====
-- How a transfer of blobop_fio_plugin/fs_fio_plugin.c ends: `fio_io_end`.
use spdk_blob_top_fs.Prelude.{Bool, ℕ, ◌+◌, ◌%◌, ◌^◌, ◌≤◌, ◌<◌, ◌≡◌, ◌≢◌, ◌∷◌, arith, if◌then◌else◌}
use spdk_blob_top_fs.Fio.{Ddir, FioFile, IoU, Errors, Ended, fio_io_end}

pub fio_io_end-fd :
    (ddir_rw : Ddir → Bool) (f : FioFile) (io_u : IoU) (errors : Errors) (ret errno : ℕ)
    → (fio_io_end ddir_rw f io_u errors ret errno).0.fd ≡ f.fd
unfolding fio_io_end
fio_io_end-fd ddir_rw f io_u errors ret errno = ground arith

-- A transfer of `ret` bytes: what is left is counted, no error is told, and the position of the
-- file for fio is behind what was transferred.
pub record IsTransferred (ddir_rw : Ddir → Bool) (f : FioFile) (io_u : IoU) (errors : Errors)
    (ret : ℕ) (r : Ended) : Type 0 where
  pub counted : r.1.resid + ret ≡ io_u.xfer_buflen
  pub no_error : r.1.error ≡ 0
  pub told : r.2 ≡ errors
  pub same_buf : r.1.xfer_buf ≡ io_u.xfer_buf
  pub moved :
      r.0.engine_pos ≡ (if ddir_rw io_u.ddir then (io_u.offset + ret) % 2 ^ 64 else f.engine_pos)

-- A transfer that does not fail, of a request without rest and error so far.
pub fio_io_end-IsTransferred :
    (ddir_rw : Ddir → Bool) (f : FioFile) (io_u : IoU) (errors : Errors) (ret errno : ℕ)
    → ret ≤ io_u.xfer_buflen
    → io_u.xfer_buflen < 2 ^ 31
    → io_u.resid ≡ 0
    → io_u.error ≡ 0
    → IsTransferred ddir_rw f io_u errors ret (fio_io_end ddir_rw f io_u errors ret errno)
unfolding fio_io_end
fio_io_end-IsTransferred ddir_rw f io_u errors ret errno le small fresh fine = ground arith

fio_io_end-failed :
    (ddir_rw : Ddir → Bool) (f : FioFile) (io_u : IoU) (errors : Errors) (ret errno : ℕ)
    → 2 ^ 31 ≤ ret
    → ret < 2 ^ 32
    → io_u.xfer_buflen < 2 ^ 31
    → errno ≢ 0
    → fio_io_end ddir_rw f io_u errors ret errno
      ≡ (f, record io_u { error = errno }, errno ∷ errors)
unfolding fio_io_end
fio_io_end-failed ddir_rw f io_u errors ret errno neg int small bad = ground arith

-- Nothing transferred.
pub fio_io_end-nothing :
    (ddir_rw : Ddir → Bool) (f : FioFile) (io_u : IoU) (errors : Errors) (errno : ℕ)
    → 0 < io_u.xfer_buflen
    → io_u.xfer_buflen < 2 ^ 31
    → let r = fio_io_end ddir_rw f io_u errors 0 errno in
      (r.1.resid ≡ io_u.xfer_buflen) × (r.1.error ≡ 0) × (r.1.xfer_buf ≡ io_u.xfer_buf)
unfolding fio_io_end
fio_io_end-nothing ddir_rw f io_u errors errno pos small = ground arith
