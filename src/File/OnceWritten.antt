-- ===== src/File/OnceWritten.antt =====
-- Single writes (`simple_fs_write`, simple_fs/file.c) on a blobstore whose writes and resizes may
-- fail.
use Prim.Native.Nat.{◌∣◌}
use spdk_blob_top_fs.Prelude.{
  ℕ, ◌+◌, ◌-◌, ◌*◌, ◌/◌, ◌^◌, ◌≤◌, ◌<◌, ◌≡◌, ◌⊎◌, refl, sym, ap, subst, ◌∙◌, true, arith, inl, inr,
  Bool-cases,
}
use spdk_blob_top_fs.File.{
  Persist, Bytes, Blobstore, OpenFile, blob_write, advance, note_write, grow_blob, simple_fs_write,
  upper_div, copy_at,
}
use spdk_blob_top_fs.File.Content.{copy_at-inside}
use spdk_blob_top_fs.File.Transfer.{write-done, write-failed, grow_blob-f_pos}
use spdk_blob_top_fs.File.Write.{grow_blob-content, written_at}

-- What the code relies on: a write that succeeds changes the bytes it names to those given, one
-- that fails changes no others than those, and neither a resize nor an attribute changes any.
pub record PartialStore (B : Blobstore) : Type 0 where
  pub content : B.Blob → Bytes
  pub write_content :
      (b : B.Blob) (o n : ℕ) (bytes : Bytes) (j : ℕ)
      → (B.write b o n bytes).0 ≡ true
      → content (B.write b o n bytes).1 j
        ≡ copy_at (o * B.io_unit) (n * B.io_unit) bytes (content b) j
  pub write_outside :
      (b : B.Blob) (o n : ℕ) (bytes : Bytes) (j : ℕ)
      → (j < o * B.io_unit) ⊎ (o * B.io_unit + n * B.io_unit ≤ j)
      → content (B.write b o n bytes).1 j ≡ content b j
  pub resize_content : (b : B.Blob) (n : ℕ) → content (B.resize b n).1 ≡ content b
  pub set_xattr_content : (b : B.Blob) (p : Persist) → content (B.set_xattr b p) ≡ content b

module _ {B : Blobstore} (D : PartialStore B) where
  open B use {Blob, io_unit}

  -- The first `n` of the `size` bytes from the position on are those of `source`, and those beside
  -- the `size` bytes are the old ones.
  pub record IsStoredPart (file : OpenFile B) (n size : ℕ) (source : Bytes) (file' : OpenFile B)
      : Type 0 where
    pub moved : file'.f_pos ≡ file.f_pos + n
    pub inside :
        (j : ℕ)
        → file.f_pos ≤ j
        → j < file.f_pos + n
        → D.content file'.blob j ≡ source (j - file.f_pos)
    pub outside :
        (j : ℕ)
        → (j < file.f_pos) ⊎ (file.f_pos + size ≤ j)
        → D.content file'.blob j ≡ D.content file.blob j

  -- One write: all of the size, or nothing.
  pub record IsWrittenOnce (file : OpenFile B) (size : ℕ) (bytes : Bytes) (r : ℕ × OpenFile B)
      : Type 0 where
    pub all_or_none : (r.0 ≡ 0) ⊎ (r.0 ≡ size)
    pub stored : IsStoredPart file r.0 size bytes r.1

  module _ (unit_pos : 0 < B.io_unit) where
    pub write-IsWrittenOnce :
        (file : OpenFile B) (size : ℕ) (bytes : Bytes)
        → io_unit ∣ file.f_pos
        → io_unit ∣ size
        → 0 < size
        → file.f_pos + size < 2 ^ 64
        → IsWrittenOnce file size bytes (simple_fs_write B file size bytes)
    unfolding note_write blob_write advance
    write-IsWrittenOnce file size bytes at whole pos small =
        let grown = grow_blob B file size in
        let here = grow_blob-f_pos B file size in
        let same = grow_blob-content D.content D.resize_content file size in
        let (start, length) = written_at io_unit file.f_pos size unit_pos at whole pos in
        let o = grown.f_pos / io_unit in
        let n = upper_div size io_unit in
        let starts : o * io_unit ≡ file.f_pos =
          ap (λ (p : ℕ). p / io_unit * io_unit) here ∙ start in
        let beside : (j : ℕ)
            → (j < file.f_pos) ⊎ (file.f_pos + size ≤ j)
            → D.content (B.write grown.blob o n bytes).1 j ≡ D.content file.blob j =
          λ j out.
            D.write_outside grown.blob o n bytes j (omega (arith, out, starts, length))
            ∙ ap (λ (c : Bytes). c j) same in
        elim (Bool-cases (blob_write B grown.blob size grown.f_pos bytes).0) [
          | inl ok ↦
              subst (λ (r : ℕ × OpenFile B). IsWrittenOnce file size bytes r)
                (sym (write-done B file size bytes ok))
                (record {
                  all_or_none = inr refl;
                  stored = record {
                    moved = omega (arith, here);
                    inside = λ j ge lt.
                        ap (λ (c : Bytes). c j) (D.set_xattr_content _ _)
                        ∙ D.write_content grown.blob o n bytes j ok
                        ∙ copy_at-inside (o * io_unit) (n * io_unit) bytes (D.content grown.blob) j
                            (omega (arith, starts)) (omega (arith, starts, length))
                        ∙ ap bytes (omega (arith, starts));
                    outside =
                        λ j out. ap (λ (c : Bytes). c j) (D.set_xattr_content _ _) ∙ beside j out;
                  };
                })
          | inr failed ↦
              subst (λ (r : ℕ × OpenFile B). IsWrittenOnce file size bytes r)
                (sym (write-failed B file size bytes failed))
                (record {
                  all_or_none = inl refl;
                  stored = record {
                    moved = omega (arith, here);
                    inside = λ j ge lt. absurd (omega (arith, ge, lt));
                    outside = beside;
                  };
                })
        ]
