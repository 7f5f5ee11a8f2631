-- ===== src/File/Overwrite.antt =====
-- A write inside the file, and a read of it (simple_fs/file.c).
use spdk_blob_top_fs.Prelude.{ℕ, ◌+◌, ◌*◌, ◌^◌, ◌≤◌, ◌<◌, ◌≡◌, ap, ◌∙◌, arith, some}
use spdk_blob_top_fs.File.{
  Bytes, Blobstore, OpenFile, Persist, simple_fs_read, simple_fs_write, note_write,
}
use spdk_blob_top_fs.File.Content.{Disk, read_chunk, copy_at-inside}
use spdk_blob_top_fs.File.Write.{WritableDisk, simple_fs_write_lem}
use Prim.Native.Nat.{◌∣◌}
use native.Mathlib.Nat.{dvd_trans}

note_write_inside :
    {B : Blobstore} (file : OpenFile B)
    → file.f_pos ≤ file.persist.f_size
    → (note_write B file).persist.f_size ≡ file.persist.f_size
unfolding note_write
note_write_inside file within = ground arith

-- On a disk that writes within the clusters of a blob and resizes it, with an io unit that is a
-- multiple of 512, a write of whole io units that ends within the file size, which is within the
-- clusters of the blob, and a read of that size at the same position: the read returns the size
-- and the bytes that were written.
pub read-write :
    {B : Blobstore} {D : Disk B} (W : WritableDisk D) (file : OpenFile B) (size : ℕ)
    (bytes buffer : Bytes)
    → let capacity = B.num_clusters file.blob * B.cluster_size in
      0 < B.io_unit
      → 0 < B.cluster_size
      → 512 ∣ B.io_unit
      → B.io_unit ∣ file.f_pos
      → B.io_unit ∣ size
      → 0 < size
      → file.f_pos + size ≤ file.persist.f_size
      → file.persist.f_size ≤ capacity
      → capacity + B.cluster_size < 2 ^ 64
      → let written : OpenFile B = record ((simple_fs_write B file size bytes).1) {
        f_pos = file.f_pos;
      } in
        (bytes' : Bytes) × (file' : OpenFile B) × (simple_fs_read B written size buffer
          ≡ some (size, bytes', file'))
        × ((j : ℕ) → j < size → bytes' j ≡ bytes j)
read-write {B} {D} W file size bytes buffer unit_pos cluster_pos sector at whole pos inside within
      small =
    let done =
      simple_fs_write_lem W file size bytes unit_pos cluster_pos at whole pos (omega arith) small in
    let written : OpenFile B = record ((simple_fs_write B file size bytes).1) {
      f_pos = file.f_pos;
    } in
    let f_size : written.persist.f_size ≡ file.persist.f_size =
      ap (λ (p : Persist). p.f_size) done.noted ∙ note_write_inside file (omega arith) in
    let (bytes', file', read, part, step) =
      read_chunk D unit_pos written size buffer at (dvd_trans 512 sector whole) pos (omega arith)
        (omega arith) in
    (
      bytes',
      file',
      read,
      λ j lt.
          part j lt
          ∙ done.content (file.f_pos + j)
          ∙ copy_at-inside file.f_pos size bytes (D.content file.blob) (file.f_pos + j)
              (omega arith) (omega arith)
          ∙ ap bytes (omega arith),
    )
