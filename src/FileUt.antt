-- ===== src/FileUt.antt =====
-- The program test/file_test/file_ut.c, over the calls of simple_fs/monopoly_ops.c.
pub mod Run
mod Tests
use spdk_blob_top_fs.File.{Persist}
use spdk_blob_top_fs.Prelude.{
  ℕ, Bool, Option, none, some, List, [], ◌∷◌, ltb, ◌==◌, if◌then◌else◌, ◌>>=◌,
}
use spdk_blob_top_fs.Dir.{Dirent}
use spdk_blob_top_fs.File.{Bytes, Blobstore, seek_set}
use spdk_blob_top_fs.Monopoly.{Sys, Result, monopoly_create, monopoly_open, monopoly_close}
use spdk_blob_top_fs.Monopoly.Descriptor.{read_fd, write_fd, lseek_fd}

-- "spdkfs/hello"
abbrev pub hello : List ℕ
hello = b's' ∷ b'p' ∷ b'd' ∷ b'k' ∷ b'f' ∷ b's' ∷ b'/' ∷ b'h' ∷ b'e' ∷ b'l' ∷ b'l' ∷ b'o' ∷ []

-- `memset(buffer, c, n)`
abbrev pub memset : Bytes → (c n : ℕ) → Bytes
memset buffer c n j = if ltb j n then c else buffer j

-- `buffer[14] = '\0'`
abbrev pub terminate : Bytes → Bytes
terminate buffer j = if j == 14 then 0 else buffer j

-- The memory of a transfer: `spdkfs_mm_find` of the buffer, the size of the buffer of the file
-- system, and what that holds at the write and at the read.
pub record Shared : Type 0 where
  pub tracked : Bool
  pub buf_size : ℕ
  pub at_write : Bytes
  pub at_read : Bytes

module _ (B : Blobstore) where
  -- The buffer each time it is printed, the blob that was closed, and the system.
  pub record Printed : Type 0 where
    pub to_write : Bytes
    pub to_read : Bytes
    pub read : Bytes
    pub closed : B.Blob
    pub sys : Sys B

  -- `monopoly_open`, where `monopoly_create` returned -1.
  abbrev pub or_open : (ℕ → B.Blob) → Result B → Option (Result B)
  or_open blob_of (none, sys) = monopoly_open B blob_of sys hello
  or_open blob_of (some fd, sys) = some (some fd, sys)

  -- With -1 the program has ended at the `assert` of a transfer before.
  abbrev pub close_fd : Sys B → Option ℕ → Option (B.Blob × Sys B)
  close_fd sys none = none
  close_fd sys (some fd) = monopoly_close B sys fd

  -- The program from the `malloc` on, which hands over `buffer`.
  unfoldable pub transfers : Shared → (buffer : Bytes) → Option ℕ × Sys B → Option Printed
  transfers m buffer (fd, opened) = do
    let to_write = terminate (memset buffer 65 4096)
    (written, kept, sys1) ← write_fd B m.tracked m.buf_size m.at_write to_write opened fd 4096
    let to_read = terminate (memset kept 66 4096)
    (pos, sys2) ← lseek_fd B sys1 fd 0 seek_set
    (count, read, sys3) ← read_fd B m.tracked m.buf_size m.at_read to_read sys2 fd 4096
    (closed, sys4) ← close_fd sys3 fd
    some (record {
      to_write = to_write;
      to_read = to_read;
      read = terminate read;
      closed = closed;
      sys = sys4;
    })

  -- The first arguments are those of `monopoly_create` and `monopoly_open`.
  unfoldable pub main :
      (first more : ℕ → Dirent) (blob_of : ℕ → B.Blob)
      → Shared
      → (buffer : Bytes) → Sys B
      → (blob : B.Blob) (left : Persist) (now : ℕ) → Option Printed
  main first more blob_of m buffer sys blob left now = do
    created ← monopoly_create B first more sys hello blob left now
    opened ← or_open blob_of created
    transfers m buffer opened
