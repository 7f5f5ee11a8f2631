-- ===== src/PosixUt.antt =====
-- The program test/posix_test/posix_ut.c, over the calls of simple_fs/interface.c, where the
-- linker takes those for the calls of the C library. `creat` it does not replace.
pub mod Same
mod Tests
use spdk_blob_top_fs.File.{Persist}
use spdk_blob_top_fs.Prelude.{ℕ, Option, none, some, ltb, if◌then◌else◌}
use spdk_blob_top_fs.Dir.{Dirent}
use spdk_blob_top_fs.File.{Bytes, Blobstore, seek_set}
use spdk_blob_top_fs.Interface.{Opened, r_open, minus_one, descriptor, spdk_open}
use spdk_blob_top_fs.Interface.Transfer.{
  Routed, by_kernel, by_us, spdk_close, spdk_read, spdk_write, spdk_lseek,
}
use spdk_blob_top_fs.Monopoly.{Sys}
use spdk_blob_top_fs.FileUt.{hello, memset, terminate, Shared, Printed}

-- How a run ends: by an `assert`, at its first call that goes to the kernel, or as it should.
pub data Run (A : Type 0) : Type 0 where
  aborted : Run A
  at_kernel : Run A
  done : A → Run A

infixl 10 ◌>>=◌
abbrev pub ◌>>=◌ : {A B : Type 0} → Run A → (A → Run B) → Run B
aborted >>= f = aborted
at_kernel >>= f = at_kernel
done a >>= f = f a

abbrev pub call : {A : Type 0} → Routed (Option A) → Run A
call by_kernel = at_kernel
call (by_us none) = aborted
call (by_us (some a)) = done a

-- `assert(fd > 10000)`
abbrev pub check_fd : {S : Type 0} → ℕ → S → Run (ℕ × S)
check_fd fd sys = if ltb 10000 fd then done (fd, sys) else aborted

-- O_CREAT
abbrev pub o_creat : ℕ
o_creat = 64

module _ (B : Blobstore) where
  -- After `open`.
  abbrev pub opened : Option (Opened (Sys B)) → Run (ℕ × Sys B)
  opened none = aborted
  opened (some r_open) = at_kernel
  opened (some minus_one) = aborted
  opened (some (descriptor fd sys)) = check_fd fd sys

  -- After `creat`, which returned -1 or a descriptor of the kernel.
  abbrev pub or_open : Option ℕ → Sys B → Option (Opened (Sys B)) → Run (ℕ × Sys B)
  or_open none sys r = opened r
  or_open (some fd) sys r = check_fd fd sys

  -- The program from the `malloc` on, which hands over `buffer`.
  unfoldable pub transfers : Shared → (buffer : Bytes) → ℕ × Sys B → Run (Printed B)
  transfers m buffer (fd, sys0) = do
    let to_write = terminate (memset buffer 65 4096)
    (written, kept, sys1) ←
        call (spdk_write B m.tracked m.buf_size m.at_write to_write sys0 fd 4096)
    let to_read = terminate (memset kept 66 4096)
    (pos, sys2) ← call (spdk_lseek B sys1 fd 0 seek_set)
    (count, read, sys3) ← call (spdk_read B m.tracked m.buf_size m.at_read to_read sys2 fd 4096)
    (closed, sys4) ← call (spdk_close B sys3 fd)
    done (record {
      to_write = to_write;
      to_read = to_read;
      read = terminate read;
      closed = closed;
      sys = sys4;
    })

  -- `creat` is what the call of the C library returns; the other arguments are as in file_ut.c.
  unfoldable pub main :
      (first more : ℕ → Dirent) (blob_of : ℕ → B.Blob)
      → Shared
      → (buffer : Bytes) (creat : Option ℕ) → Sys B
      → (blob : B.Blob) (left : Persist) (now : ℕ) → Run (Printed B)
  main first more blob_of m buffer creat sys blob left now = do
    opened ← or_open creat sys (spdk_open B first more blob_of sys hello o_creat blob left now)
    transfers m buffer opened
