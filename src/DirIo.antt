-- ===== src/DirIo.antt =====
-- The transfers of a directory between memory and its blob (simple_fs/dir.c), and the choice that
-- `load_root` of simple_fs/super.c makes for the root.
pub mod Kept
use spdk_blob_top_fs.Prelude.{
  ℕ, ◌+◌, ◌-◌, ◌*◌, ◌/◌, ◌%◌, ◌^◌, Bool, true, false, not, Option, none, some, ◌==◌, ltb,
  if◌then◌else◌,
}
use spdk_blob_top_fs.Dir.{Dirent, Dir}

-- The fields of `struct spdkfs_dir_persist_ctx` that change.
pub record DirPersist : Type 0 where
  pub d_dirent_count : ℕ
  pub d_size : ℕ

-- What the code uses of the blobstore for the blob of a directory. The buffer that is read and
-- written is one of entries, lengths are in io units from the start of the blob on, and `true`
-- stands for `bserrno` 0.
pub record DirStore : Type 1 where
  pub Blob : Type 0
  pub io_unit : ℕ
  pub cluster_size : ℕ
  pub num_clusters : Blob → ℕ
  pub read : Blob → ℕ → Bool × (ℕ → Dirent)
  pub write : Blob → ℕ → (ℕ → Dirent) → Bool × Blob
  pub resize : Blob → ℕ → Bool × Blob
  pub get_xattr : Blob → Option DirPersist
  pub set_xattr : Blob → DirPersist → Blob

-- `UPPER_DIV(a, b)` in 64 bits, where a size of 0 wraps.
abbrev pub upper_div64 : ℕ → ℕ → ℕ
upper_div64 a b = (a + 2 ^ 64 - 1) % 2 ^ 64 / b + 1

abbrev pub persist_of : Dir → DirPersist
persist_of dir = record { d_dirent_count = dir.d_dirent_count; d_size = dir.d_size }

module _ (S : DirStore) where
  open S use {Blob, io_unit, cluster_size}

  -- The result of the transfer is not looked at.
  pub read_dirents : Blob → DirPersist → Dir
  read_dirents blob p = record {
    initialized = true;
    dirty = false;
    d_dirent_count = p.d_dirent_count;
    d_size = p.d_size;
    dirents = (S.read blob (upper_div64 p.d_size io_unit)).1;
  }

  -- Without the attribute the program ends by its `assert` on the length.
  abbrev pub read_found : Blob → Option DirPersist → Option Dir
  read_found blob none = none
  read_found blob (some p) = some (read_dirents blob p)

  pub simple_dir_read : Blob → Option Dir
  simple_dir_read blob = read_found blob (S.get_xattr blob)

  pub write_dirents : Blob → Dir → Blob
  write_dirents blob dir = (S.write blob (upper_div64 dir.d_size io_unit) dir.dirents).1

  pub simple_dir_write : Blob → Dir → Blob × Dir
  simple_dir_write blob dir =
      if not dir.dirty
      then (blob, dir)
      else (write_dirents (S.set_xattr blob (persist_of dir)) dir, record dir { dirty = false })

  -- `if (d_size > get_blob_size(...)) generic_blob_resize(...)`
  pub fit_blob : Blob → Dir → Blob
  fit_blob blob dir =
      if ltb (S.num_clusters blob * cluster_size % 2 ^ 64) dir.d_size
      then (S.resize blob (upper_div64 dir.d_size cluster_size)).1
      else blob

  -- What the blob is closed with.
  pub simple_dir_close : Blob → Dir → Blob
  simple_dir_close blob dir =
      if dir.dirty
      then S.set_xattr (write_dirents (fit_blob blob dir) dir) (persist_of dir)
      else blob

  -- `stale` is what the pointer to the entries points to, which nothing sets.
  pub simple_dir_create : Blob → (stale : ℕ → Dirent) → Blob × Dir
  simple_dir_create blob stale =
      let dir : Dir = record {
        initialized = true;
        dirty = false;
        d_dirent_count = 0;
        d_size = 0;
        dirents = stale;
      } in
      (S.set_xattr blob (persist_of dir), dir)

  -- `struct spdk_dir_operations`.
  pub record DirOperations : Type 0 where
    pub spdk_mkdir : Blob → (stale : ℕ → Dirent) → Blob × Dir
    pub spdk_readdir : Blob → Option Dir
    pub spdk_writedir : Blob → Dir → Blob × Dir
    pub spdk_closedir : Blob → Dir → Blob

  -- The one table that `bind_dir_ops` binds.
  pub simplefs_dir_ops : DirOperations
  simplefs_dir_ops = record {
    spdk_mkdir = simple_dir_create;
    spdk_readdir = simple_dir_read;
    spdk_writedir = simple_dir_write;
    spdk_closedir = simple_dir_close;
  }

  -- The super blob has no clusters before anything is written to it.
  pub load_root : Blob → (stale : ℕ → Dirent) → Option Dir
  load_root blob stale =
      if S.num_clusters blob == 0
      then some (simple_dir_create blob stale).1
      else simple_dir_read blob
