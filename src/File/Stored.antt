-- ===== src/File/Stored.antt =====
-- A write within the clusters of the blob (simple_fs/file.c), and the copies of a buffer.
use spdk_blob_top_fs.Prelude.{
  ℕ, ◌+◌, ◌-◌, ◌*◌, ◌%◌, ◌^◌, ◌≤◌, ◌<◌, ◌≡◌, ◌⊎◌, refl, sym, ap, ◌∙◌, false, ◌&&◌, arith, ltb, leb,
  if◌then◌else◌, Bool-cases, inl, inr,
}
use spdk_blob_top_fs.File.{
  Bytes, Blobstore, OpenFile, add64, blob_write, advance, note_write, grow_blob, get_blob_size,
  simple_fs_write, copy_at,
}
use spdk_blob_top_fs.File.Content.{Disk, copy_at-inside, copy_at-outside}
use spdk_blob_top_fs.File.Transfer.{write-done, write-failed}
use spdk_blob_top_fs.File.Write.{WritableDisk, simple_fs_write_lem}
use spdk_blob_top_fs.File.Loop.{below_or_above}
use Prim.Native.Nat.{◌∣◌}

pub copy_at-same :
    (a n : ℕ) (s s' c c' : Bytes) (j : ℕ)
    → ((k : ℕ) → k < n → s k ≡ s' k)
    → c j ≡ c' j
    → copy_at a n s c j ≡ copy_at a n s' c' j
copy_at-same a n s s' c c' j same old =
    ap (λ (x : ℕ). if leb a j && ltb j (a + n) then s (j - a) else x) old
    ∙ by_place (below_or_above j a) (below_or_above j (a + n))
  where
    by_place :
        (j < a) ⊎ (a ≤ j) → (j < a + n) ⊎ (a + n ≤ j) → copy_at a n s c' j ≡ copy_at a n s' c' j
    by_place (inl before) _ =
        copy_at-outside a n s c' j (inl before) ∙ sym (copy_at-outside a n s' c' j (inl before))
    by_place (inr from) (inl to) =
        copy_at-inside a n s c' j from to
        ∙ same (j - a) (omega arith)
        ∙ sym (copy_at-inside a n s' c' j from to)
    by_place (inr from) (inr behind) =
        copy_at-outside a n s c' j (inr behind) ∙ sym (copy_at-outside a n s' c' j (inr behind))

pub copy_at-join :
    (a n m : ℕ) (s c : Bytes) (j : ℕ)
    → copy_at (a + n) m (λ k. s (n + k)) (copy_at a n s c) j ≡ copy_at a (n + m) s c j
copy_at-join a n m s c j = by_place (below_or_above j (a + n)) (below_or_above j (a + n + m))
  where
    by_place :
        (j < a + n) ⊎ (a + n ≤ j)
        → (j < a + n + m) ⊎ (a + n + m ≤ j)
        → copy_at (a + n) m (λ k. s (n + k)) (copy_at a n s c) j ≡ copy_at a (n + m) s c j
    by_place (inl first) _ =
        copy_at-outside (a + n) m (λ k. s (n + k)) (copy_at a n s c) j (inl first) ∙ ground arith
    by_place (inr second) (inl to) =
        copy_at-inside (a + n) m (λ k. s (n + k)) (copy_at a n s c) j second to
        ∙ ap s (omega arith)
        ∙ sym (copy_at-inside a (n + m) s c j (omega arith) (omega arith))
    by_place (inr second) (inr behind) =
        copy_at-outside (a + n) m (λ k. s (n + k)) (copy_at a n s c) j (inr behind)
        ∙ copy_at-outside a n s c j (inr second)
        ∙ sym (copy_at-outside a (n + m) s c j (inr (omega arith)))

-- A write of `n` bytes of `source` from `file` on, within the clusters.
pub record IsStored {B : Blobstore} (D : Disk B) (file : OpenFile B) (n : ℕ) (source : Bytes)
    (file' : OpenFile B) : Type 0 where
  pub moved : file'.f_pos ≡ file.f_pos + n
  pub content :
      (j : ℕ) → D.content file'.blob j ≡ copy_at file.f_pos n source (D.content file.blob) j
  pub clusters : B.num_clusters file'.blob ≡ B.num_clusters file.blob

pub copy_at-nothing : (a n : ℕ) (s c : Bytes) (j : ℕ) → n ≡ 0 → c j ≡ copy_at a n s c j
copy_at-nothing a n s c j none_left = ground arith

-- What is copied out of a buffer and back leaves it.
pub copy_at-back :
    (from n : ℕ) (user shared : Bytes) (j : ℕ)
    → copy_at from n (copy_at 0 n (λ k. user (from + k)) shared) user j ≡ user j
copy_at-back from n user shared j = by_place (below_or_above j from) (below_or_above j (from + n))
  where
    by_place :
        (j < from) ⊎ (from ≤ j)
        → (j < from + n) ⊎ (from + n ≤ j)
        → copy_at from n (copy_at 0 n (λ k. user (from + k)) shared) user j ≡ user j
    by_place (inl before) _ =
        copy_at-outside from n (copy_at 0 n (λ k. user (from + k)) shared) user j (inl before)
    by_place (inr _) (inr behind) =
        copy_at-outside from n (copy_at 0 n (λ k. user (from + k)) shared) user j (inr behind)
    by_place (inr start) (inl to) =
        copy_at-inside from n (copy_at 0 n (λ k. user (from + k)) shared) user j start to
        ∙ copy_at-inside 0 n (λ k. user (from + k)) shared (j - from) (omega arith) (omega arith)
        ∙ ap user (omega arith)

module _ {B : Blobstore} {D : Disk B} (W : WritableDisk D) (unit_pos : 0 < B.io_unit)
    (cluster_pos : 0 < B.cluster_size) where
  open B use {io_unit, cluster_size}

  grow_blob-within :
      (file : OpenFile B) (size : ℕ)
      → file.f_pos + size ≤ B.num_clusters file.blob * cluster_size
      → B.num_clusters file.blob * cluster_size < 2 ^ 64
      → B.num_clusters (grow_blob B file size).blob ≡ B.num_clusters file.blob
  unfolding grow_blob get_blob_size
  grow_blob-within file size within small =
      let fits : ltb (B.num_clusters file.blob * cluster_size % 2 ^ 64) (add64 file.f_pos size)
          ≡ false =
        ground arith in
      rw (fits) refl

  write_keeps-clusters :
      (file : OpenFile B) (size : ℕ) (bytes : Bytes)
      → B.num_clusters (simple_fs_write B file size bytes).1.blob
        ≡ B.num_clusters (grow_blob B file size).blob
  unfolding advance note_write blob_write
  write_keeps-clusters file size bytes =
      let noted = note_write B (grow_blob B file size) in
      elim (Bool-cases (blob_write B noted.blob size noted.f_pos bytes).0) [
        | inl ok ↦
            ap (λ (r : ℕ × OpenFile B). B.num_clusters r.1.blob) (write-done B file size bytes ok)
            ∙ W.xattr_clusters _ _
            ∙ W.write_clusters _ _ _ _
        | inr failed ↦
            ap (λ (r : ℕ × OpenFile B). B.num_clusters r.1.blob)
              (write-failed B file size bytes failed)
            ∙ W.write_clusters _ _ _ _
      ]

  pub write_chunk :
      (file : OpenFile B) (size : ℕ) (bytes : Bytes)
      → io_unit ∣ file.f_pos
      → io_unit ∣ size
      → 0 < size
      → file.f_pos + size ≤ B.num_clusters file.blob * cluster_size
      → B.num_clusters file.blob * cluster_size + cluster_size < 2 ^ 64
      → (file' : OpenFile B) × (simple_fs_write B file size bytes ≡ (size, file'))
        × IsStored D file size bytes file'
  write_chunk file size bytes at whole pos within small =
      let done =
        simple_fs_write_lem W file size bytes unit_pos cluster_pos at whole pos (omega arith)
          small in
      let r = simple_fs_write B file size bytes in
      (
        r.1,
        ap (λ (n : ℕ). (n, r.1)) done.count,
        record {
          moved = done.moved;
          content = done.content;
          clusters =
              write_keeps-clusters file size bytes
              ∙ grow_blob-within file size within (omega arith);
        },
      )
