-- ===== src/File/Store.antt =====
-- What an open file is, and the calls of SPDK that simple_fs/blob_op.c makes for it. The blobstore
-- is a parameter.
use spdk_blob_top_fs.Prelude.{
  ℕ, ◌+◌, ◌-◌, ◌*◌, ◌/◌, ◌%◌, ◌^◌, Bool, ◌&&◌, Option, ltb, leb, if◌then◌else◌,
}

-- The fields of `struct spdkfs_file_persist_ctx` that the code uses.
pub record Persist : Type 0 where
  pub i_uid : ℕ
  pub i_atime : ℕ
  pub i_mtime : ℕ
  pub f_size : ℕ
  pub i_writecount : ℕ
  pub i_ctime : ℕ
  pub blob_id : ℕ

abbrev pub Bytes : Type 0
Bytes = ℕ → ℕ

-- What the code uses of SPDK's blobstore. Offsets and lengths of `read` and `write` are in io
-- units, those of `resize` in clusters; `true` stands for `bserrno` 0.
pub record Blobstore : Type 1 where
  pub Blob : Type 0
  pub io_unit : ℕ
  pub cluster_size : ℕ
  pub get_id : Blob → ℕ
  pub num_clusters : Blob → ℕ
  pub read : Blob → ℕ → ℕ → Bool × Bytes
  pub write : Blob → ℕ → ℕ → Bytes → Bool × Blob
  pub resize : Blob → ℕ → Bool × Blob
  pub get_xattr : Blob → Option Persist
  pub set_xattr : Blob → Persist → Blob

-- `UPPER_DIV(a, b)`
abbrev pub upper_div : ℕ → ℕ → ℕ
upper_div a b = (a - 1) / b + 1

abbrev pub add64 : ℕ → ℕ → ℕ
add64 a b = (a + b) % 2 ^ 64

-- SEEK_SET and SEEK_CUR of <unistd.h>.
abbrev pub seek_set : ℕ
seek_set = 0

abbrev pub seek_cur : ℕ
seek_cur = 1

-- `memcpy` of `n` bytes to an offset.
abbrev pub copy_at : (offset n : ℕ) → Bytes → Bytes → Bytes
copy_at offset n source target j =
    if leb offset j && ltb j (offset + n) then source (j - offset) else target j

module _ (B : Blobstore) where
  open B use {Blob, io_unit, cluster_size}

  -- `struct spdkfs_file`
  pub record OpenFile : Type 0 where
    pub blob : Blob
    pub persist : Persist
    pub f_pos : ℕ

  -- `io_blob` and `generic_blob_io`, for a size above 0.
  unfoldable pub blob_read : Blob → (size offset : ℕ) → Bool × Bytes
  blob_read blob size offset = B.read blob (offset / io_unit) (upper_div size io_unit)

  unfoldable pub blob_write : Blob → (size offset : ℕ) → Bytes → Bool × Blob
  blob_write blob size offset bytes = B.write blob (offset / io_unit) (upper_div size io_unit) bytes

  -- `resize_blob` and `generic_blob_resize`, for a size above 0, which an `assert` asks for. The size
  -- that `grow_blob` gives is 0 only where the capacity is one cluster below 2^64 bytes.
  unfoldable pub generic_blob_resize : Blob → ℕ → Bool × Blob
  generic_blob_resize blob size = B.resize blob (upper_div size cluster_size)

  unfoldable pub get_blob_size : Blob → ℕ
  get_blob_size blob = B.num_clusters blob * cluster_size % 2 ^ 64
