-- ===== src/Monopoly/Descriptor.antt =====
-- The transfers of simple_fs/monopoly_ops.c on a descriptor, and `monopoly_stat`. A descriptor is a
-- number, or -1 (`none`), at which the program ends by its `assert`. The C array has files at the
-- descriptors below 256 that are open; at others these functions say nothing of the code.
use spdk_blob_top_fs.Prelude.{ℕ, Bool, true, false, Option, none, some, List}
use spdk_blob_top_fs.Dir.{Dir}
use spdk_blob_top_fs.File.{
  Bytes, Blobstore, OpenFile, Transferred, monopoly_read, monopoly_write, monopoly_lseek,
}
use spdk_blob_top_fs.Monopoly.{Sys, put_file}

-- The members of `struct stat` that are set.
pub record Stat : Type 0 where
  pub st_ino : ℕ
  pub st_size : ℕ
  pub st_mtime : ℕ
  pub st_atime : ℕ
  pub st_blksize : ℕ
  pub st_uid : ℕ

module _ (B : Blobstore) where
  -- The open file behind a descriptor is changed in place.
  abbrev pub with_file : Sys B → ℕ → OpenFile B → Sys B
  with_file sys fd file = record sys {
    fds = record (sys.fds) { open_files = put_file sys.fds.open_files fd file };
  }

  abbrev pub read_at : Sys B → ℕ → Transferred B → Option (ℕ × Bytes × Sys B)
  read_at sys fd none = none
  read_at sys fd (some (n, user, file)) = some (n, user, with_file sys fd file)

  abbrev pub write_at : Sys B → ℕ → ℕ × Bytes × OpenFile B → Option (ℕ × Bytes × Sys B)
  write_at sys fd (n, user, file) = some (n, user, with_file sys fd file)

  abbrev pub lseek_at : Sys B → ℕ → ℕ × OpenFile B → Option (ℕ × Sys B)
  lseek_at sys fd (pos, file) = some (pos, with_file sys fd file)

  -- `monopoly_read`: what was transferred, the user's buffer and the system. `tracked` is
  -- `spdkfs_mm_find(__buf)`, and `shared` what the buffer of the file system holds.
  unfoldable pub read_fd :
      (tracked : Bool) (buf_size : ℕ) (shared user : Bytes)
      → Sys B
      → Option ℕ
      → (nbytes : ℕ) → Option (ℕ × Bytes × Sys B)
  read_fd tracked buf_size shared user sys none nbytes = none
  read_fd tracked buf_size shared user sys (some fd) nbytes =
      read_at sys fd (monopoly_read B tracked buf_size shared user (sys.fds.open_files fd) nbytes)

  unfoldable pub write_fd :
      (tracked : Bool) (buf_size : ℕ) (shared user : Bytes)
      → Sys B
      → Option ℕ
      → (nbytes : ℕ) → Option (ℕ × Bytes × Sys B)
  write_fd tracked buf_size shared user sys none nbytes = none
  write_fd tracked buf_size shared user sys (some fd) nbytes =
      write_at sys fd (monopoly_write B tracked buf_size shared user (sys.fds.open_files fd) nbytes)

  unfoldable pub lseek_fd : Sys B → Option ℕ → (offset whence : ℕ) → Option (ℕ × Sys B)
  lseek_fd sys none offset whence = none
  lseek_fd sys (some fd) offset whence =
      lseek_at sys fd (monopoly_lseek B (sys.fds.open_files fd) offset whence)

  -- `blob_open` of the blob of an id: whether it succeeds, and the blob.
  stat_blob : Bool × B.Blob → Option (Option Stat)
  stat_blob (false, blob) = some none
  stat_blob (true, blob) = elim (B.get_xattr blob) [
    | none ↦ none
    | some file_meta ↦ some (
        some (record {
          st_ino = B.get_id blob;
          st_size = file_meta.f_size;
          st_mtime = file_meta.i_mtime;
          st_atime = file_meta.i_atime;
          st_blksize = B.io_unit;
          st_uid = file_meta.i_uid;
        }))
  ]

  -- `find_dir` is called but defined nowhere. What it returns is taken for the id of a blob. The
  -- outer `none` is a program that ends by its `assert`, the inner one is -1.
  pub monopoly_stat :
      (find_dir : List ℕ → Dir → Option ℕ) (blob_open : ℕ → Bool × B.Blob)
      → Sys B
      → List ℕ
      → Option (Option Stat)
  unfolding stat_blob
  monopoly_stat find_dir blob_open sys path = elim (find_dir path sys.workdir) [
    | none ↦ some none
    | some target_file_id ↦ stat_blob (blob_open target_file_id)
  ]
