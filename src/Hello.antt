-- ===== src/Hello.antt =====
-- hello_spin_reactor.c: the engine for fio over the calls of simple_fs/interface.c. It calls
-- `__spdk__open` and `__spdk__close`, which are defined nowhere and are parameters.
pub mod Same
mod Tests
use spdk_blob_top_fs.Prelude.{
  ◌&&◌, ◌-◌, List, ◌∷◌, ltb, ◌==◌, ℕ, ◌+◌, ◌%◌, ◌^◌, Bool, true, false, not, Option, none, some,
  if◌then◌else◌,
}
use spdk_blob_top_fs.File.{Bytes, Blobstore, seek_set}
use spdk_blob_top_fs.Fio.{
  Ddir, ddir_read, ddir_write, ddir_trim, ddir_sync, FioFile, IoU, Errors, Ended, Memory,
  IoengineOps,
}
use spdk_blob_top_fs.Interface.Transfer.{
  Routed, by_kernel, by_us, spdk_read, spdk_write, spdk_lseek,
}
use spdk_blob_top_fs.Monopoly.{Sys}

-- `ret >= 0`
abbrev is_non_negative : ℕ → Bool
is_non_negative ret = ltb ret (2 ^ 31)

abbrev td_verror : FioFile → IoU → Errors → Ended
td_verror f io_u errors = (f, io_u, if not (io_u.error == 0) then io_u.error ∷ errors else errors)

pub fio_io_end : (ddir_rw : Ddir → Bool) → FioFile → IoU → Errors → (ret errno : ℕ) → Ended
fio_io_end ddir_rw f io_u errors ret errno =
    let f' =
      if is_non_negative ret && ddir_rw io_u.ddir
      then record f { engine_pos = (io_u.offset + ret) % 2 ^ 64 }
      else f in
    if not (ret == io_u.xfer_buflen % 2 ^ 32)
    then (if is_non_negative ret
        then (
          f',
          record io_u { resid = (io_u.xfer_buflen + 2 ^ 64 - ret) % 2 ^ 64; error = 0 },
          errors,
        )
        else td_verror f' (record io_u { error = errno }) errors)
    else td_verror f' io_u errors

spdk_get_file_size : FioFile → FioFile
spdk_get_file_size f = record f { real_file_size = 2000000; size_known = true }

spdkfs_fio_invalidate : FioFile → ℕ
spdkfs_fio_invalidate f = 0

-- The calls with `f->fd`; that of -1 goes to the kernel.
abbrev pub with_fd : {R : Type 0} → Option ℕ → (ℕ → Routed R) → Routed R
with_fd none call = by_kernel
with_fd (some fd) call = call fd

module _ (B : Blobstore) where
  abbrev pub prep_done : Routed (Option (ℕ × Sys B)) → Routed (Option (Sys B))
  prep_done by_kernel = by_kernel
  prep_done (by_us none) = by_us none
  prep_done (by_us (some (pos, sys))) = by_us (some sys)

  unfoldable pub hello_prep : Sys B → FioFile → Routed (Option (Sys B))
  hello_prep sys f = prep_done (with_fd f.fd (λ fd. spdk_lseek B sys fd 0 seek_set))

  -- `int ret = __spdk_read(...)`, and the end of the transfer.
  abbrev pub queue_done :
      (ddir_rw : Ddir → Bool)
      → Memory B
      → FioFile
      → IoU
      → Errors
      → Routed (Option (ℕ × Bytes × Sys B))
      → Routed (Option (Ended × Sys B))
  queue_done ddir_rw m f io_u errors by_kernel = by_kernel
  queue_done ddir_rw m f io_u errors (by_us none) = by_us none
  queue_done ddir_rw m f io_u errors (by_us (some (n, user, sys))) = by_us (
      some
        (fio_io_end ddir_rw f (record io_u { xfer_buf = user }) errors (n % 2 ^ 32) m.errno, sys))

  module _ (ddir_rw : Ddir → Bool) (fio_ro_check : IoU → Bool) (do_io_u_trim : IoU → IoU) where
    abbrev pub queue_ddir :
        Memory B → Sys B → FioFile → IoU → Errors → Ddir → Routed (Option (Ended × Sys B))
    queue_ddir m sys f io_u errors ddir_read = queue_done ddir_rw m f io_u errors (
        with_fd f.fd
          (λ fd. spdk_read B m.tracked m.buf_size m.shared io_u.xfer_buf sys fd io_u.xfer_buflen))
    queue_ddir m sys f io_u errors ddir_write = queue_done ddir_rw m f io_u errors (
        with_fd f.fd
          (λ fd. spdk_write B m.tracked m.buf_size m.shared io_u.xfer_buf sys fd io_u.xfer_buflen))
    queue_ddir m sys f io_u errors ddir_trim = by_us (some ((f, do_io_u_trim io_u, errors), sys))
    queue_ddir m sys f io_u errors ddir_sync =
        by_us (some (fio_io_end ddir_rw f io_u errors 0 m.errno, sys))

    unfoldable pub hello_queue :
        Memory B → Sys B → FioFile → IoU → Errors → Routed (Option (Ended × Sys B))
    hello_queue m sys f io_u errors =
        if not (fio_ro_check io_u) then by_us none else queue_ddir m sys f io_u errors io_u.ddir

    module _ (spdk__open : Sys B → List ℕ → (oflag mode : ℕ) → Option ℕ × Sys B)
        (spdk__close : Sys B → Option ℕ → Sys B) (fio_syncio : ℕ) where
      -- With O_CREAT and 0600.
      spdk_open_file : Sys B → FioFile → (file_name : List ℕ) → FioFile × Sys B
      spdk_open_file sys f file_name =
          let (fd, sys') = spdk__open sys file_name 64 384 in (record f { fd = fd }, sys')

      spdk_close_file : Sys B → FioFile → FioFile × Sys B
      spdk_close_file sys f = (record f { fd = none }, spdk__close sys f.fd)

      ioengine_spdk_rw : IoengineOps B (λ A. Routed A)
      ioengine_spdk_rw = record {
        prep = hello_prep;
        queue = hello_queue;
        open_file = λ sys f file_name blob left now. by_us (some (spdk_open_file sys f file_name));
        close_file = λ sys f. by_us (some (spdk_close_file sys f));
        get_file_size = spdk_get_file_size;
        invalidate = spdkfs_fio_invalidate;
        flags = fio_syncio;
      }
