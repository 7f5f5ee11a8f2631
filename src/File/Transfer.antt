-- ===== src/File/Transfer.antt =====
-- Single transfers on an open file (simple_fs/file.c).
use spdk_blob_top_fs.Prelude.{
  ℕ, ◌+◌, ◌%◌, ◌^◌, ◌≤◌, ◌<◌, ◌≡◌, ap, ◌∙◌, true, false, some, arith, Bool-cases, inl, inr,
}
use spdk_blob_top_fs.File.{
  Bytes, Blobstore, OpenFile, add64, blob_read, blob_write, advance, grow_blob, note_write,
  simple_fs_read, simple_fs_write,
}

module _ (B : Blobstore) where
  open B use {Blob, io_unit, cluster_size}

  pub grow_blob-persist :
      (file : OpenFile B) (size : ℕ) → (grow_blob B file size).persist ≡ file.persist
  unfolding grow_blob
  grow_blob-persist file size = ground arith

  pub grow_blob-f_pos : (file : OpenFile B) (size : ℕ) → (grow_blob B file size).f_pos ≡ file.f_pos
  unfolding grow_blob
  grow_blob-f_pos file size = ground arith

  pub read-past :
      (file : OpenFile B) (size : ℕ) (buffer : Bytes)
      → size % 512 ≡ 0
      → file.persist.f_size < add64 file.f_pos size
      → simple_fs_read B file size buffer ≡ some (0, buffer, file)
  unfolding simple_fs_read
  read-past file size buffer whole past = ground arith

  pub read-within :
      (file : OpenFile B) (size : ℕ) (buffer : Bytes)
      → size % 512 ≡ 0
      → add64 file.f_pos size ≤ file.persist.f_size
      → (blob_read B file.blob size file.f_pos).0 ≡ true
      → simple_fs_read B file size buffer
        ≡ some (size, (blob_read B file.blob size file.f_pos).1, advance B file size)
  unfolding simple_fs_read
  read-within file size buffer whole within ok = ground arith

  pub write-done :
      (file : OpenFile B) (size : ℕ) (bytes : Bytes)
      → let noted = note_write B (grow_blob B file size) in
        let done = blob_write B noted.blob size noted.f_pos bytes in
        done.0 ≡ true
        → simple_fs_write B file size bytes
          ≡ (size, advance B (record noted { blob = done.1 }) size)
  unfolding simple_fs_write
  write-done file size bytes ok = ground arith

  pub write-failed :
      (file : OpenFile B) (size : ℕ) (bytes : Bytes)
      → let noted = note_write B (grow_blob B file size) in
        let done = blob_write B noted.blob size noted.f_pos bytes in
        done.0 ≡ false → simple_fs_write B file size bytes ≡ (0, record noted { blob = done.1 })
  unfolding simple_fs_write
  write-failed file size bytes ok = ground arith

  pub write-persist :
      (file : OpenFile B) (size : ℕ) (bytes : Bytes)
      → (simple_fs_write B file size bytes).1.persist
        ≡ (note_write B (grow_blob B file size)).persist
  unfolding advance
  write-persist file size bytes =
      let noted = note_write B (grow_blob B file size) in
      elim (Bool-cases (blob_write B noted.blob size noted.f_pos bytes).0) [
        | inl ok ↦ ap (λ r. r.1.persist) (write-done file size bytes ok)
        | inr failed ↦ ap (λ r. r.1.persist) (write-failed file size bytes failed)
      ]

  note_write-f_size :
      (file : OpenFile B)
      → file.persist.f_size ≤ file.f_pos
      → (note_write B file).persist.f_size ≡ file.f_pos
  unfolding note_write
  note_write-f_size file at = ground arith

  -- A write (of whole 512-byte sectors, not empty, ending below 2^64) where the file ends or
  -- behind it, and a read of that size at the same position: the read returns 0, and the buffer is
  -- as it was.
  pub read_after_append :
      (file : OpenFile B) (size : ℕ) (bytes buffer : Bytes)
      → file.persist.f_size ≤ file.f_pos
      → 0 < size
      → size % 512 ≡ 0
      → file.f_pos + size < 2 ^ 64
      → let written : OpenFile B = record ((simple_fs_write B file size bytes).1) {
        f_pos = file.f_pos;
      } in
        simple_fs_read B written size buffer ≡ some (0, buffer, written)
  read_after_append file size bytes buffer at pos whole small =
      let grown = grow_blob B file size in
      let written = (simple_fs_write B file size bytes).1 in
      let f_pos_same = grow_blob-f_pos file size in
      let persist_same : grown.persist.f_size ≡ file.persist.f_size =
        ap (λ p. p.f_size) (grow_blob-persist file size) in
      let at_end : grown.persist.f_size ≤ grown.f_pos = grind arith in
      let raised : written.persist.f_size ≡ file.f_pos =
        ap (λ p. p.f_size) (write-persist file size bytes)
        ∙ note_write-f_size grown at_end
        ∙ f_pos_same in
      read-past (record written { f_pos = file.f_pos }) size buffer whole (grind arith)
