-- ===== src/File/Once.antt =====
-- Single reads (`simple_fs_read`, simple_fs/file.c) on a blobstore whose reads may fail.
use Prim.Native.Nat.{◌∣◌}
use native.Mathlib.Nat.{dvd_iff_mod-eq-zero, div-add-mod', mod-lt, div-mul_cancel, suc-mul}
use spdk_blob_top_fs.Prelude.{
  ℕ, ◌+◌, ◌-◌, ◌*◌, ◌/◌, ◌%◌, ◌^◌, ◌≤◌, ◌<◌, ◌≡◌, ◌⊎◌, refl, ap, ◌∙◌, true, false, some, arith, inl,
  inr, Bool-cases,
}
use spdk_blob_top_fs.File.{
  Persist, Bytes, Blobstore, OpenFile, Transferred, blob_read, advance, simple_fs_read, upper_div,
  add64,
}
use spdk_blob_top_fs.File.Loop.{below_or_above}
use spdk_blob_top_fs.File.Transfer.{read-past, read-within}

-- What the code relies on: a read that succeeds gives the bytes of the blob, and an attribute
-- changes none of them.
pub record PartialDisk (B : Blobstore) : Type 0 where
  pub content : B.Blob → Bytes
  pub read_bytes :
      (b : B.Blob) (o n j : ℕ)
      → (B.read b o n).0 ≡ true
      → j < n * B.io_unit
      → (B.read b o n).1 j ≡ content b (o * B.io_unit + j)
  pub set_xattr_content : (b : B.Blob) (p : Persist) → content (B.set_xattr b p) ≡ content b

module _ {B : Blobstore} (D : PartialDisk B) where
  open B use {Blob, io_unit}

  -- `n` bytes further on in the same file.
  pub record IsMoved (file : OpenFile B) (n : ℕ) (file' : OpenFile B) : Type 0 where
    pub moved : file'.f_pos ≡ file.f_pos + n
    pub same_persist : file'.persist ≡ file.persist
    pub same_content : D.content file'.blob ≡ D.content file.blob

  -- One read: all of the size, or nothing.
  pub record IsOnce (file : OpenFile B) (size : ℕ) (r : Transferred B) : Type 0 where
    pub count : ℕ
    pub bytes : Bytes
    pub file' : OpenFile B
    pub returned : r ≡ some (count, bytes, file')
    pub all_or_none : (count ≡ 0) ⊎ (count ≡ size)
    pub part : (j : ℕ) → j < count → bytes j ≡ D.content file.blob (file.f_pos + j)
    pub step : IsMoved file count file'

  pub stays : (file : OpenFile B) → IsMoved file 0 file
  stays file = record { moved = omega arith; same_persist = refl; same_content = refl }

  module _ (unit_pos : 0 < B.io_unit) where
    covered : (size : ℕ) → size ≤ upper_div size io_unit * io_unit
    covered size =
        let q = (size - 1) / io_unit in
        omega (
          arith,
          unit_pos,
          suc-mul q io_unit,
          div-add-mod' (size - 1) io_unit,
          mod-lt (size - 1) unit_pos,
        )

    read-failed :
        (file : OpenFile B) (size : ℕ) (buffer : Bytes)
        → size % 512 ≡ 0
        → add64 file.f_pos size ≤ file.persist.f_size
        → (blob_read B file.blob size file.f_pos).0 ≡ false
        → simple_fs_read B file size buffer
          ≡ some (0, (blob_read B file.blob size file.f_pos).1, file)
    unfolding simple_fs_read
    read-failed file size buffer whole within failed = ground arith

    read-none :
        (file : OpenFile B) (size : ℕ) (buffer bytes : Bytes)
        → simple_fs_read B file size buffer ≡ some (0, bytes, file)
        → IsOnce file size (simple_fs_read B file size buffer)
    read-none file size buffer bytes e = record {
      count = 0;
      bytes = bytes;
      file' = file;
      returned = e;
      all_or_none = inl refl;
      part = λ j lt. absurd (omega (arith, lt));
      step = stays file;
    }

    read-all :
        (file : OpenFile B) (size : ℕ) (buffer : Bytes)
        → io_unit ∣ file.f_pos
        → size % 512 ≡ 0
        → file.f_pos + size < 2 ^ 64
        → add64 file.f_pos size ≤ file.persist.f_size
        → (blob_read B file.blob size file.f_pos).0 ≡ true
        → IsOnce file size (simple_fs_read B file size buffer)
    unfolding blob_read advance
    read-all file size buffer unit whole small within ok = record {
      count = size;
      bytes = (blob_read B file.blob size file.f_pos).1;
      file' = advance B file size;
      returned = read-within B file size buffer whole within ok;
      all_or_none = inr refl;
      part = λ j lt.
          D.read_bytes file.blob (file.f_pos / io_unit) (upper_div size io_unit) j ok
            (omega (arith, covered size, lt))
          ∙ ap (λ (o : ℕ). D.content file.blob (o + j)) (div-mul_cancel io_unit unit);
      step = record {
        moved = omega arith;
        same_persist = refl;
        same_content = D.set_xattr_content file.blob file.persist;
      };
    }

    pub read-IsOnce :
        (file : OpenFile B) (size : ℕ) (buffer : Bytes)
        → io_unit ∣ file.f_pos
        → 512 ∣ size
        → file.f_pos + size < 2 ^ 64
        → IsOnce file size (simple_fs_read B file size buffer)
    read-IsOnce file size buffer unit sector small =
        let whole : size % 512 ≡ 0 = (dvd_iff_mod-eq-zero 512).0 sector in
        elim (below_or_above file.persist.f_size (add64 file.f_pos size)) [
          | inl past ↦ read-none file size buffer buffer (read-past B file size buffer whole past)
          | inr within ↦ elim (Bool-cases (blob_read B file.blob size file.f_pos).0) [
            | inl ok ↦ read-all file size buffer unit whole small within ok
            | inr failed ↦
                read-none file size buffer _ (read-failed file size buffer whole within failed)
          ]
        ]
