-- ===== src/File.antt =====
-- simple_fs/file.c, and the transfers of simple_fs/monopoly_ops.c on an open file. A `loff_t` and a
-- `size_t` are 64-bit patterns.
mod Store
pub use Store.{Persist, Bytes, Blobstore, upper_div, add64, seek_set, seek_cur, copy_at, OpenFile}
unfoldable pub use Store.{blob_read, blob_write, generic_blob_resize, get_blob_size}
pub mod Transfer
pub mod Content
pub mod Loop
pub mod Read
pub mod Write
pub mod Stored
pub mod WriteLoop
pub mod WriteWhole
pub mod Overwrite
pub mod Seek
pub mod Ram
pub mod Fresh
pub mod Once
pub mod Partial
pub mod OnceWritten
pub mod PartialWrite
mod Tests
use spdk_blob_top_fs.Prelude.{
  ℕ, zero, suc, ◌+◌, ◌-◌, ◌*◌, ◌/◌, ◌%◌, ◌^◌, Bool, true, false, not, ◌&&◌, Option, none, some, ltb,
  leb, ◌==◌, if◌then◌else◌, min,
}

module _ (B : Blobstore) where
  open B use {Blob, io_unit, cluster_size}

  -- `f_pos += size` and the attribute, after a transfer that succeeded.
  pub advance : OpenFile B → ℕ → OpenFile B
  advance file size = record file {
    f_pos = add64 file.f_pos size;
    blob = B.set_xattr file.blob file.persist;
  }

  -- What was transferred, the buffer and the file. The size is a multiple of 512, or the program
  -- ends (`none`).
  pub simple_fs_read : OpenFile B → ℕ → Bytes → Option (ℕ × Bytes × OpenFile B)
  unfolding blob_read advance
  simple_fs_read file size buffer =
      let (ok, bytes) = blob_read B file.blob size file.f_pos in
      if not (size % 512 == 0)
      then none
      else if ltb file.persist.f_size (add64 file.f_pos size)
      then some (0, buffer, file)
      else if ok
      then some (size, bytes, advance file size)
      else some (0, bytes, file)

  -- `generic_blob_resize` by one cluster, where the blob is too small; its result is not looked at.
  pub grow_blob : OpenFile B → ℕ → OpenFile B
  unfolding generic_blob_resize get_blob_size
  grow_blob file size =
      let max_size = get_blob_size B file.blob in
      if ltb max_size (add64 file.f_pos size)
      then record file { blob = (generic_blob_resize B file.blob (add64 max_size cluster_size)).1 }
      else file

  -- `f_size` is raised to where the write begins, and the writes are counted.
  pub note_write : OpenFile B → OpenFile B
  note_write file = record file {
    persist = record (file.persist) {
      f_size = if ltb file.persist.f_size file.f_pos then file.f_pos else file.persist.f_size;
      i_writecount = (file.persist.i_writecount + 1) % 2 ^ 32;
    };
  }

  pub simple_fs_write : OpenFile B → ℕ → Bytes → ℕ × OpenFile B
  unfolding grow_blob note_write blob_write advance
  simple_fs_write file size buffer =
      let noted = note_write (grow_blob file size) in
      let (ok, blob) = blob_write B noted.blob size noted.f_pos buffer in
      let written : OpenFile B = record noted { blob = blob } in
      if ok then (size, advance written size) else (0, written)

  -- The attribute of the blob is what `spdk_blob_get_xattr_value` finds; without one the program
  -- ends by its `assert` on the length.
  unfoldable pub simple_fs_open : Blob → Option (OpenFile B)
  simple_fs_open blob = elim (B.get_xattr blob) [
    | none ↦ none
    | some persist ↦ some (record { blob = blob; persist = persist; f_pos = 0 })
  ]

  -- `left` is what the `malloc` of the persistent fields leaves there, and `now` the time.
  unfoldable pub simple_fs_create : Blob → (left : Persist) (now : ℕ) → OpenFile B
  simple_fs_create blob left now =
      let persist : Persist = record left {
        f_size = 0;
        i_writecount = 0;
        i_ctime = now;
        blob_id = B.get_id blob;
      } in
      record { blob = B.set_xattr blob persist; persist = persist; f_pos = 0 }

  -- What the blob is closed with.
  pub simple_fs_close : OpenFile B → Blob
  simple_fs_close file = B.set_xattr file.blob file.persist

  pub simple_fs_release : OpenFile B → OpenFile B
  simple_fs_release file = file

  -- `struct spdk_file_operations`, with `none` for a member that is NULL.
  pub record FileOperations : Type 0 where
    pub spdk_lseek : Option (OpenFile B → (offset mode : ℕ) → OpenFile B)
    pub spdk_read : OpenFile B → ℕ → Bytes → Option (ℕ × Bytes × OpenFile B)
    pub spdk_write : OpenFile B → ℕ → Bytes → ℕ × OpenFile B
    pub spdk_open : Blob → Option (OpenFile B)
    pub spdk_close : OpenFile B → Blob
    pub spdk_create : Blob → (left : Persist) (now : ℕ) → OpenFile B
    pub spdk_release : OpenFile B → OpenFile B

  -- The one table that `bind_file_ops` binds.
  pub simplefs_file_ops : FileOperations
  simplefs_file_ops = record {
    spdk_lseek = none;
    spdk_read = simple_fs_read;
    spdk_write = simple_fs_write;
    spdk_open = simple_fs_open;
    spdk_close = simple_fs_close;
    spdk_create = simple_fs_create;
    spdk_release = simple_fs_release;
  }

  -- What was transferred in all, the user's buffer and the file.
  abbrev pub Transferred : Type 0
  Transferred = Option (ℕ × Bytes × OpenFile B)

  module _ (buf_size total : ℕ) where
    -- `for (i = 0; i < UPPER_DIV(total, buf_size); ++i)` of `monopoly_read`, through the shared
    -- buffer.
    pub read_loop : (rounds i real : ℕ) → Bytes → Bytes → OpenFile B → Transferred
    read_loop zero i real shared user file = some (real, user, file)
    read_loop (suc rounds) i real shared user file =
        elim (simple_fs_read file (min buf_size (total - i * buf_size)) shared) [
          | none ↦ none
          | some (n, shared', file') ↦
              let rest =
                read_loop rounds (suc i) (real + n) shared' (copy_at (i * buf_size) n shared' user)
                  file' in
              if n == 0 then some (real, user, file') else rest
        ]

    -- The loop of `monopoly_write`; each chunk goes through the shared buffer, and back.
    pub write_loop : (rounds i real : ℕ) → Bytes → Bytes → OpenFile B → ℕ × Bytes × OpenFile B
    write_loop zero i real shared user file = (real, user, file)
    write_loop (suc rounds) i real shared user file =
        let chunk = min buf_size (total - i * buf_size) in
        let shared' = copy_at 0 chunk (λ j. user (i * buf_size + j)) shared in
        let (n, file') = simple_fs_write file chunk shared' in
        let rest =
          write_loop rounds (suc i) (real + n) shared' (copy_at (i * buf_size) n shared' user)
            file' in
        if n == 0 then (real, user, file') else rest

  -- `monopoly_read` on the open file; `tracked` is `spdkfs_mm_find(__buf)`.
  pub monopoly_read : (tracked : Bool) (buf_size : ℕ) → Bytes → Bytes → OpenFile B → ℕ → Transferred
  unfolding read_loop
  monopoly_read tracked buf_size shared user file nbytes =
      let total = nbytes / io_unit * io_unit in
      if nbytes / io_unit == 0
      then some (0, user, file)
      else if tracked
      then simple_fs_read file total user
      else read_loop buf_size total (upper_div total buf_size) 0 0 shared user file

  pub monopoly_write :
      (tracked : Bool) (buf_size : ℕ) → Bytes → Bytes → OpenFile B → ℕ → ℕ × Bytes × OpenFile B
  unfolding write_loop
  monopoly_write tracked buf_size shared user file nbytes =
      let total = nbytes / io_unit * io_unit in
      if nbytes / io_unit == 0
      then (0, user, file)
      else if tracked
      then (let (n, file') = simple_fs_write file total user in (n, user, file'))
      else write_loop buf_size total (upper_div total buf_size) 0 0 shared user file

  -- `__offset / io_unit * io_unit` on a signed offset: towards zero.
  pub round_offset : ℕ → ℕ
  round_offset offset =
      if ltb offset (2 ^ 63)
      then offset / io_unit * io_unit
      else (2 ^ 64 - (2 ^ 64 - offset) / io_unit * io_unit) % 2 ^ 64

  unfoldable pub monopoly_lseek : OpenFile B → (offset whence : ℕ) → ℕ × OpenFile B
  unfolding round_offset
  monopoly_lseek file offset whence =
      let actual = round_offset offset in
      let f_pos =
        if whence == seek_set
        then actual
        else if whence == seek_cur
        then add64 file.f_pos actual
        else file.f_pos in
      (f_pos, record file { f_pos = f_pos })
