-- ===== src/Interface/Ours.antt =====
-- The calls of simple_fs/interface.c on a descriptor that `__spdk_open` returned.
use spdk_blob_top_fs.Prelude.{Bool, ℕ, ◌+◌, ◌-◌, ◌≡◌, ap, false, some, arith, ltb}
use spdk_blob_top_fs.File.{Bytes, Blobstore}
use spdk_blob_top_fs.Interface.{testfd}
use spdk_blob_top_fs.Interface.Transfer.{
  by_us, as_int, spdk_close, spdk_read, spdk_write, spdk_lseek,
}
use spdk_blob_top_fs.Monopoly.{Sys, monopoly_close}
use spdk_blob_top_fs.Monopoly.Descriptor.{read_fd, write_fd, lseek_fd}

ours : (fd : ℕ) → ltb (testfd + fd) testfd ≡ false
ours fd = ground arith

own_fd : (fd : ℕ) → testfd + fd - testfd ≡ fd
own_fd fd = omega arith

module _ {B : Blobstore} where
  module _ (tracked : Bool) (buf_size : ℕ) (shared user : Bytes) (sys : Sys B) (fd n : ℕ) where
    pub read-ours :
        spdk_read B tracked buf_size shared user sys (testfd + fd) n
        ≡ by_us (as_int B (read_fd B tracked buf_size shared user sys (some fd) n))
    unfolding spdk_read
    read-ours = rw (ours fd) (
        ap (λ (k : ℕ). by_us (as_int B (read_fd B tracked buf_size shared user sys (some k) n)))
          (own_fd fd))

    pub write-ours :
        spdk_write B tracked buf_size shared user sys (testfd + fd) n
        ≡ by_us (write_fd B tracked buf_size shared user sys (some fd) n)
    unfolding spdk_write
    write-ours =
        rw (ours fd) (
          ap (λ (k : ℕ). by_us (write_fd B tracked buf_size shared user sys (some k) n))
            (own_fd fd))

  pub lseek-ours :
      (sys : Sys B) (fd offset whence : ℕ)
      → spdk_lseek B sys (testfd + fd) offset whence
        ≡ by_us (lseek_fd B sys (some fd) offset whence)
  unfolding spdk_lseek
  lseek-ours sys fd offset whence =
      rw (ours fd) (ap (λ (k : ℕ). by_us (lseek_fd B sys (some k) offset whence)) (own_fd fd))

  pub close-ours :
      (sys : Sys B) (fd : ℕ) → spdk_close B sys (testfd + fd) ≡ by_us (monopoly_close B sys fd)
  unfolding spdk_close
  close-ours sys fd = rw (ours fd) (ap (λ (k : ℕ). by_us (monopoly_close B sys k)) (own_fd fd))
