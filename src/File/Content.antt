-- ===== src/File/Content.antt =====
-- The loop of `monopoly_read` (simple_fs/monopoly_ops.c) through the shared buffer.
use spdk_blob_top_fs.Prelude.{
  ℕ, ◌+◌, ◌-◌, ◌*◌, ◌/◌, ◌^◌, ◌≤◌, ◌<◌, ◌≡◌, refl, ap, ◌∙◌, true, some, arith, inl, inr, ◌⊎◌,
}
use spdk_blob_top_fs.File.{
  Persist, Bytes, Blobstore, OpenFile, blob_read, advance, simple_fs_read, upper_div, copy_at,
}
use spdk_blob_top_fs.File.Transfer.{read-within}
use Prim.Native.Nat.{◌∣◌}
use native.Mathlib.Nat.{dvd_iff_mod-eq-zero, div-add-mod', mod-lt, div-mul_cancel, suc-mul}

-- What the code relies on: reads and attributes do not fail, a read gives the bytes of the blob,
-- and an attribute changes none of them.
pub record Disk (B : Blobstore) : Type 0 where
  pub content : B.Blob → Bytes
  pub read_ok : (b : B.Blob) (o n : ℕ) → (B.read b o n).0 ≡ true
  pub read_bytes :
      (b : B.Blob) (o n j : ℕ)
      → j < n * B.io_unit
      → (B.read b o n).1 j ≡ content b (o * B.io_unit + j)
  pub set_xattr_content : (b : B.Blob) (p : Persist) → content (B.set_xattr b p) ≡ content b

pub copy_at-inside :
    (o n : ℕ) (source target : Bytes) (j : ℕ)
    → o ≤ j
    → j < o + n
    → copy_at o n source target j ≡ source (j - o)
copy_at-inside o n source target j from to = ground arith

pub copy_at-outside :
    (o n : ℕ) (source target : Bytes) (j : ℕ)
    → ((j < o) ⊎ (o + n ≤ j))
    → copy_at o n source target j ≡ target j
copy_at-outside o n source target j (inl h) = ground arith
copy_at-outside o n source target j (inr h) = ground arith

-- How a read leaves the file: `n` bytes further on, with the same bytes.
pub record IsAdvanced {B : Blobstore} (D : Disk B) (file : OpenFile B) (n : ℕ) (file' : OpenFile B)
    : Type 0 where
  pub moved : file'.f_pos ≡ file.f_pos + n
  pub same_persist : file'.persist ≡ file.persist
  pub same_content : D.content file'.blob ≡ D.content file.blob

module _ {B : Blobstore} (D : Disk B) (unit_pos : 0 < B.io_unit) where
  open B use {Blob, io_unit}

  covered : (size : ℕ) → 0 < size → size ≤ upper_div size io_unit * io_unit
  covered size pos =
      let q = (size - 1) / io_unit in
      omega (arith, suc-mul q io_unit, div-add-mod' (size - 1) io_unit, mod-lt (size - 1) unit_pos)

  aligned : (x : ℕ) → io_unit ∣ x → x / io_unit * io_unit ≡ x
  aligned x d = div-mul_cancel io_unit d

  pub read_chunk :
      (file : OpenFile B) (size : ℕ) (buffer : Bytes)
      → io_unit ∣ file.f_pos
      → 512 ∣ size
      → 0 < size
      → file.f_pos + size ≤ file.persist.f_size
      → file.persist.f_size < 2 ^ 64
      → (bytes : Bytes) × (file' : OpenFile B) × (simple_fs_read B file size buffer
          ≡ some (size, bytes, file'))
        × ((j : ℕ) → j < size → bytes j ≡ D.content file.blob (file.f_pos + j))
        × IsAdvanced D file size file'
  unfolding blob_read advance
  read_chunk file size buffer unit whole pos within small =
      let bytes = (blob_read B file.blob size file.f_pos).1 in
      (
        bytes,
        advance B file size,
        read-within B file size buffer ((dvd_iff_mod-eq-zero 512).0 whole) (omega arith)
            (D.read_ok file.blob _ _),
        (λ j lt.
            D.read_bytes file.blob (file.f_pos / io_unit) (upper_div size io_unit) j
              (omega (arith, covered size pos, lt))
            ∙ ap (λ (o : ℕ). D.content file.blob (o + j)) (aligned file.f_pos unit)),
        record {
          moved = omega arith;
          same_persist = refl;
          same_content = D.set_xattr_content file.blob file.persist;
        },
      )
