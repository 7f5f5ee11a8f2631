-- ===== src/Hello/Same.antt =====
-- The engine of hello_spin_reactor.c does what that of blobop_fio_plugin/fs_fio_plugin.c does.
use spdk_blob_top_fs.Prelude.{
  ℕ, ◌+◌, ◌%◌, ◌^◌, ◌≡◌, refl, sym, ap, ◌∙◌, Bool, Option, none, some, arith, inl, inr, Bool-cases,
}
use spdk_blob_top_fs.File.{Bytes, Blobstore, seek_set}
use spdk_blob_top_fs.Fio
use spdk_blob_top_fs.Fio.{
  Ddir, ddir_read, ddir_write, ddir_trim, ddir_sync, FioFile, IoU, Errors, Ended, Memory,
  fio_io_end, fio_spdk_syncio_prep, fio_spdk_syncio_queue,
}
use spdk_blob_top_fs.Interface.{testfd}
use spdk_blob_top_fs.Interface.Transfer.{by_us, int_to_long, as_int}
use spdk_blob_top_fs.Interface.Ours.{read-ours, write-ours, lseek-ours}
use spdk_blob_top_fs.Hello
use spdk_blob_top_fs.Hello.{prep_done, queue_done, queue_ddir, hello_prep, hello_queue}
use spdk_blob_top_fs.Monopoly.{Sys}
use spdk_blob_top_fs.Monopoly.Descriptor.{read_fd, write_fd, lseek_fd}

-- The file as the calls of interface.c know it.
abbrev pub raised : FioFile → ℕ → FioFile
raised f fd = record f { fd = some (testfd + fd) }

abbrev pub raised_end : {B : Blobstore} → ℕ → Option (Ended × Sys B) → Option (Ended × Sys B)
raised_end fd none = none
raised_end fd (some ((f, io_u, errors), sys)) = some ((raised f fd, io_u, errors), sys)

fio_io_end-raised :
    (ddir_rw : Ddir → Bool) (f : FioFile) (fd : ℕ) (io_u : IoU) (errors : Errors) (ret errno : ℕ)
    → Hello.fio_io_end ddir_rw (raised f fd) io_u errors ret errno ≡ (
      raised (fio_io_end ddir_rw f io_u errors ret errno).0 fd,
      (fio_io_end ddir_rw f io_u errors ret errno).1,
      (fio_io_end ddir_rw f io_u errors ret errno).2,
    )
unfolding Hello.fio_io_end fio_io_end
fio_io_end-raised ddir_rw f fd io_u errors ret errno = ground arith

int_of_int : (n : ℕ) → int_to_long n % 2 ^ 32 ≡ n % 2 ^ 32
int_of_int n = ground arith

module _ {B : Blobstore} where
  prep_done-same : (r : Option (ℕ × Sys B)) → prep_done B (by_us r) ≡ by_us (Fio.prep_done B r)
  prep_done-same none = refl
  prep_done-same (some (pos, sys)) = refl

  -- What the engine does to prepare a request is the same.
  hello_prep-same :
      (sys : Sys B) (f : FioFile) (fd : ℕ)
      → f.fd ≡ some fd
      → hello_prep B sys (raised f fd) ≡ by_us (fio_spdk_syncio_prep B sys f)
  unfolding hello_prep fio_spdk_syncio_prep
  hello_prep-same sys f fd e =
      ap (prep_done B) (lseek-ours sys fd 0 seek_set)
      ∙ prep_done-same (lseek_fd B sys (some fd) 0 seek_set)
      ∙ ap (λ (o : Option ℕ). by_us (Fio.prep_done B (lseek_fd B sys o 0 seek_set))) (sym e)

  queue_done-same :
      (ddir_rw : Ddir → Bool) (m : Memory B) (f : FioFile) (fd : ℕ) (io_u : IoU) (errors : Errors)
      (r : Option (ℕ × Bytes × Sys B))
      → queue_done B ddir_rw m (raised f fd) io_u errors (by_us r)
        ≡ by_us (raised_end fd (Fio.queue_done B ddir_rw m f io_u errors r))
  queue_done-same ddir_rw m f fd io_u errors none = refl
  queue_done-same ddir_rw m f fd io_u errors (some (n, user, sys)) =
      ap (λ (e : Ended). by_us (some (e, sys)))
        (fio_io_end-raised ddir_rw f fd (record io_u { xfer_buf = user }) errors (n % 2 ^ 32)
          m.errno)

  -- What `int ret` does to a count, the conversion to a `ssize_t` and back does too.
  queue_done-int :
      (ddir_rw : Ddir → Bool) (m : Memory B) (f : FioFile) (io_u : IoU) (errors : Errors)
      (r : Option (ℕ × Bytes × Sys B))
      → Fio.queue_done B ddir_rw m f io_u errors (as_int B r)
        ≡ Fio.queue_done B ddir_rw m f io_u errors r
  queue_done-int ddir_rw m f io_u errors none = refl
  queue_done-int ddir_rw m f io_u errors (some (n, user, sys)) =
      ap
        (λ (ret : ℕ).
          some (fio_io_end ddir_rw f (record io_u { xfer_buf = user }) errors ret m.errno, sys))
        (int_of_int n)

  module _ (ddir_rw : Ddir → Bool) (fio_ro_check : IoU → Bool) (do_io_u_trim : IoU → IoU)
      (m : Memory B) (sys : Sys B) (f : FioFile) (fd : ℕ) (is_open : f.fd ≡ some fd) (io_u : IoU)
      (errors : Errors) where
    queue_ddir-same :
        (ddir : Ddir)
        → queue_ddir B ddir_rw fio_ro_check do_io_u_trim m sys (raised f fd) io_u errors ddir
          ≡ by_us (
              raised_end fd
                (Fio.queue_ddir B ddir_rw fio_ro_check do_io_u_trim m sys f io_u errors ddir))
    queue_ddir-same ddir_read =
        ap (queue_done B ddir_rw m (raised f fd) io_u errors)
          (read-ours m.tracked m.buf_size m.shared io_u.xfer_buf sys fd io_u.xfer_buflen)
        ∙ queue_done-same ddir_rw m f fd io_u errors _
        ∙ ap (λ r. by_us (raised_end fd r)) (queue_done-int ddir_rw m f io_u errors _)
        ∙ ap
            (λ (o : Option ℕ). by_us (
              raised_end fd (
                Fio.queue_done B ddir_rw m f io_u errors
                  (read_fd B m.tracked m.buf_size m.shared io_u.xfer_buf sys o io_u.xfer_buflen))))
            (sym is_open)
    queue_ddir-same ddir_write =
        ap (queue_done B ddir_rw m (raised f fd) io_u errors)
          (write-ours m.tracked m.buf_size m.shared io_u.xfer_buf sys fd io_u.xfer_buflen)
        ∙ queue_done-same ddir_rw m f fd io_u errors _
        ∙ ap
            (λ (o : Option ℕ). by_us (
              raised_end fd (
                Fio.queue_done B ddir_rw m f io_u errors
                  (write_fd B m.tracked m.buf_size m.shared io_u.xfer_buf sys o io_u.xfer_buflen))))
            (sym is_open)
    queue_ddir-same ddir_trim = refl
    queue_ddir-same ddir_sync =
        ap (λ (e : Ended). by_us (some (e, sys)))
          (fio_io_end-raised ddir_rw f fd io_u errors 0 m.errno)

    -- On a file with a descriptor, raised by TESTFD as `__spdk_open` raises it, the queue function
    -- of hello_spin_reactor.c, which transfers by `__spdk_read` and `__spdk_write`, never goes to
    -- the kernel, and does to the request, the errors and the system what the one of
    -- fs_fio_plugin.c does with the descriptor itself.
    pub hello_queue-same :
        hello_queue B ddir_rw fio_ro_check do_io_u_trim m sys (raised f fd) io_u errors
        ≡ by_us (
            raised_end fd
              (fio_spdk_syncio_queue B ddir_rw fio_ro_check do_io_u_trim m sys f io_u errors))
    unfolding hello_queue fio_spdk_syncio_queue
    hello_queue-same = elim (Bool-cases (fio_ro_check io_u)) [
      | inl allowed ↦ rw allowed (queue_ddir-same io_u.ddir)
      | inr refused ↦ rw refused refl
    ]
