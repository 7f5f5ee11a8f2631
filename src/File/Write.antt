-- ===== src/File/Write.antt =====
-- `simple_fs_write` (simple_fs/file.c): growing the blob, the transfer and the attribute.
use spdk_blob_top_fs.Prelude.{
  ℕ, zero, suc, ◌+◌, ◌-◌, ◌*◌, ◌/◌, ◌%◌, ◌^◌, ◌≤◌, ◌<◌, ◌≡◌, refl, sym, ap, ◌∙◌, true, false, arith,
  ltb, Bool-cases, inl, inr, subst,
}
use spdk_blob_top_fs.File.{
  Persist, Bytes, Blobstore, OpenFile, add64, blob_write, advance, simple_fs_write, upper_div,
  copy_at, grow_blob, note_write, get_blob_size, generic_blob_resize,
}
use spdk_blob_top_fs.File.Content.{Disk}
use spdk_blob_top_fs.File.Transfer.{write-done, grow_blob-f_pos}
use Prim.Native.Nat.{◌∣◌}
use native.Mathlib.Nat.{add-mul, suc-mul, div-mul_cancel, mul-add-div_right, div-eq_of_lt}

-- What the code relies on for writes: within the clusters a write succeeds and changes the bytes
-- it names; a resize succeeds and keeps the bytes.
pub record WritableDisk {B : Blobstore} (D : Disk B) : Type 0 where
  pub write_ok :
      (b : B.Blob) (o n : ℕ) (bytes : Bytes)
      → (o + n) * B.io_unit ≤ B.num_clusters b * B.cluster_size
      → (B.write b o n bytes).0 ≡ true
  pub write_content :
      (b : B.Blob) (o n : ℕ) (bytes : Bytes) (j : ℕ)
      → (B.write b o n bytes).0 ≡ true
      → D.content (B.write b o n bytes).1 j
        ≡ copy_at (o * B.io_unit) (n * B.io_unit) bytes (D.content b) j
  pub resize_clusters : (b : B.Blob) (n : ℕ) → B.num_clusters (B.resize b n).1 ≡ n
  pub resize_content : (b : B.Blob) (n : ℕ) → D.content (B.resize b n).1 ≡ D.content b
  pub write_clusters :
      (b : B.Blob) (o n : ℕ) (bytes : Bytes)
      → B.num_clusters (B.write b o n bytes).1 ≡ B.num_clusters b
  pub xattr_clusters :
      (b : B.Blob) (p : Persist) → B.num_clusters (B.set_xattr b p) ≡ B.num_clusters b

-- A write of `n` bytes from `file` on.
pub record IsWritten {B : Blobstore} (D : Disk B) (file : OpenFile B) (n : ℕ) (bytes : Bytes)
    (result : ℕ × OpenFile B) : Type 0 where
  pub count : result.0 ≡ n
  pub moved : result.1.f_pos ≡ file.f_pos + n
  pub content :
      (j : ℕ) → D.content result.1.blob j ≡ copy_at file.f_pos n bytes (D.content file.blob) j
  pub noted : result.1.persist ≡ (note_write B file).persist

-- A change of the size keeps the bytes, if the resize does.
pub grow_blob-content :
    {B : Blobstore} (content : B.Blob → Bytes)
    → ((b : B.Blob) (n : ℕ) → content (B.resize b n).1 ≡ content b)
    → (file : OpenFile B) (size : ℕ) → content (grow_blob B file size).blob ≡ content file.blob
unfolding grow_blob generic_blob_resize
grow_blob-content {B} content same file size =
    elim (Bool-cases (ltb (get_blob_size B file.blob) (add64 file.f_pos size))) [
      | inl h ↦ rw (h) (same _ _)
      | inr h ↦ rw (h) refl
    ]

one_more : (n c : ℕ) → 0 < c → (n * c + c - 1) / c + 1 ≡ n + 1
one_more n c pos =
    let e : n * c + c - 1 ≡ n * c + (c - 1) = omega arith in
    rw (e, mul-add-div_right {m = c} pos n (c - 1))
      (ap (λ (q : ℕ). n + q + 1) (div-eq_of_lt (omega arith)) ∙ omega arith)

module _ (io_unit : ℕ) where
  units_of : (q : ℕ) → 0 < io_unit → 0 < q * io_unit → upper_div (q * io_unit) io_unit ≡ q
  units_of zero unit_pos pos = absurd (omega arith)
  units_of (suc p) unit_pos pos = rw (suc-mul p io_unit, one_more p io_unit unit_pos) (omega arith)

  -- The offset of a transfer and its length, in io units.
  pub written_at :
      (offset size : ℕ)
      → 0 < io_unit
      → io_unit ∣ offset
      → io_unit ∣ size
      → 0 < size
      → (offset / io_unit * io_unit ≡ offset) × (upper_div size io_unit * io_unit ≡ size)
  written_at offset size unit_pos at whole pos =
      let exact = div-mul_cancel io_unit whole in
      let count : upper_div size io_unit ≡ size / io_unit =
        ap (λ (a : ℕ). upper_div a io_unit) (sym exact)
        ∙ units_of (size / io_unit) unit_pos (omega arith) in
      (div-mul_cancel io_unit at, ap (λ (q : ℕ). q * io_unit) count ∙ exact)

module _ {B : Blobstore} {D : Disk B} (W : WritableDisk D) where
  open B use {io_unit, cluster_size}

  resized_clusters :
      (blob : B.Blob)
      → 0 < cluster_size
      → B.num_clusters blob * cluster_size + cluster_size < 2 ^ 64
      → B.num_clusters (generic_blob_resize B blob (add64 (get_blob_size B blob) cluster_size)).1
        ≡ B.num_clusters blob + 1
  unfolding generic_blob_resize get_blob_size
  resized_clusters blob pos small =
      let n = B.num_clusters blob in
      let exact : add64 (n * cluster_size % 2 ^ 64) cluster_size ≡ n * cluster_size + cluster_size =
        omega arith in
      W.resize_clusters blob _
      ∙ ap (λ (a : ℕ). upper_div a cluster_size) exact
      ∙ one_more n cluster_size pos

  room_left :
      (blob : B.Blob) (end : ℕ)
      → end < 2 ^ 64
      → ltb (get_blob_size B blob) (end % 2 ^ 64) ≡ false
      → end ≤ B.num_clusters blob * cluster_size
  unfolding get_blob_size
  room_left blob end small h = ground arith

  grow_blob-capacity :
      (file : OpenFile B) (size : ℕ)
      → let capacity = B.num_clusters file.blob * cluster_size in
        0 < cluster_size
        → file.f_pos + size ≤ capacity + cluster_size
        → capacity + cluster_size < 2 ^ 64
        → file.f_pos + size ≤ B.num_clusters (grow_blob B file size).blob * cluster_size
  unfolding grow_blob
  grow_blob-capacity file size pos within small =
      let n = B.num_clusters file.blob in
      let grown = resized_clusters file.blob pos small in
      elim (Bool-cases (ltb (get_blob_size B file.blob) (add64 file.f_pos size))) [
        | inl h ↦ rw (h, grown) (omega (arith, suc-mul n cluster_size))
        | inr h ↦ rw (h) (room_left file.blob (file.f_pos + size) (omega arith) h)
      ]

  noted_same :
      (file : OpenFile B) (size : ℕ)
      → (note_write B (grow_blob B file size)).persist ≡ (note_write B file).persist
  unfolding note_write grow_blob
  noted_same file size =
      elim (Bool-cases (ltb (get_blob_size B file.blob) (add64 file.f_pos size))) [
        | inl h ↦ rw (h) refl
        | inr h ↦ rw (h) refl
      ]

  -- On a disk that writes within the clusters of a blob and resizes it, a write of whole io units
  -- at a whole io unit that ends at most one cluster behind the clusters of the blob (below 2^64)
  -- returns its size, changes exactly the bytes from the position on to those of the buffer, moves
  -- the position by the size, and leaves the attribute that `note_write` makes.
  pub simple_fs_write_lem :
      (file : OpenFile B) (size : ℕ) (bytes : Bytes)
      → let capacity = B.num_clusters file.blob * cluster_size in
        0 < io_unit
        → 0 < cluster_size
        → io_unit ∣ file.f_pos
        → io_unit ∣ size
        → 0 < size
        → file.f_pos + size ≤ capacity + cluster_size
        → capacity + cluster_size < 2 ^ 64
        → IsWritten D file size bytes (simple_fs_write B file size bytes)
  unfolding note_write blob_write advance
  simple_fs_write_lem file size bytes unit_pos cluster_pos at whole pos within small =
      let grown = grow_blob B file size in
      let here = grow_blob-f_pos B file size in
      let (start, length) = written_at io_unit file.f_pos size unit_pos at whole pos in
      let o = grown.f_pos / io_unit in
      let n = upper_div size io_unit in
      let starts : o * io_unit ≡ file.f_pos = ap (λ (p : ℕ). p / io_unit * io_unit) here ∙ start in
      let ok : (blob_write B grown.blob size grown.f_pos bytes).0 ≡ true =
        W.write_ok grown.blob o n bytes (
          omega (
            arith,
            add-mul o n io_unit,
            starts,
            length,
            grow_blob-capacity file size cluster_pos within small,
          )) in
      subst (λ (r : ℕ × OpenFile B). IsWritten D file size bytes r)
        (sym (write-done B file size bytes ok))
        (record {
          count = refl;
          moved = omega arith;
          content = λ j.
              ap (λ (c : Bytes). c j) (D.set_xattr_content _ _)
              ∙ W.write_content grown.blob o n bytes j ok
              ∙ ap (λ (at : ℕ). copy_at at (n * io_unit) bytes (D.content grown.blob) j) starts
              ∙ ap (λ (k : ℕ). copy_at file.f_pos k bytes (D.content grown.blob) j) length
              ∙ ap (λ (c : Bytes). copy_at file.f_pos size bytes c j)
                  (grow_blob-content D.content W.resize_content file size);
          noted = noted_same file size;
        })
