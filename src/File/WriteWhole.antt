-- ===== src/File/WriteWhole.antt =====
-- `monopoly_write` (simple_fs/monopoly_ops.c), on both of its ways from the user's buffer.
use spdk_blob_top_fs.Prelude.{
  ℕ, ◌+◌, ◌-◌, ◌*◌, ◌/◌, ◌^◌, ◌≤◌, ◌<◌, ◌≡◌, refl, ap, ◌∙◌, Bool, true, false, arith, ◌==◌,
  if◌then◌else◌,
}
use spdk_blob_top_fs.File.{
  Bytes, Blobstore, OpenFile, simple_fs_write, write_loop, monopoly_write, copy_at, upper_div,
}
use spdk_blob_top_fs.File.Content.{Disk}
use spdk_blob_top_fs.File.Write.{WritableDisk}
use spdk_blob_top_fs.File.Read.{upper_div_bounds, mul-pos}
use spdk_blob_top_fs.File.Stored.{IsStored, write_chunk, copy_at-same}
use Prim.Native.Nat.{◌∣◌}
use native.Mathlib.Nat.{dvd-mul_left}
use spdk_blob_top_fs.File.WriteLoop.{write_loop_lem}

-- `n` bytes of the user's buffer are in the file, the file is `n` bytes further on, and the user's
-- buffer has the bytes that it had.
pub record IsWrittenWhole {B : Blobstore} (D : Disk B) (file : OpenFile B) (user : Bytes) (n : ℕ)
    (result : ℕ × Bytes × OpenFile B) : Type 0 where
  pub user' : Bytes
  pub file' : OpenFile B
  pub returned : result ≡ (n, user', file')
  pub kept : (j : ℕ) → user' j ≡ user j
  pub stored : IsStored D file n user file'

module _ {B : Blobstore} {D : Disk B} (W : WritableDisk D) (buf_size : ℕ) (shared user : Bytes)
    (file : OpenFile B) (nbytes : ℕ) (unit_pos : 0 < B.io_unit) (cluster_pos : 0 < B.cluster_size)
    (buf_pos : 0 < buf_size) (buf : B.io_unit ∣ buf_size) (at : B.io_unit ∣ file.f_pos)
    (pos : 0 < nbytes / B.io_unit)
    (within : file.f_pos + nbytes / B.io_unit * B.io_unit
      ≤ B.num_clusters file.blob * B.cluster_size)
    (small : B.num_clusters file.blob * B.cluster_size + B.cluster_size < 2 ^ 64) where
  abbrev total : ℕ
  total = nbytes / B.io_unit * B.io_unit

  total-dvd : B.io_unit ∣ total
  total-dvd = dvd-mul_left B.io_unit (nbytes / B.io_unit)

  total_pos : 0 < total
  total_pos = mul-pos (nbytes / B.io_unit) B.io_unit pos unit_pos

  write_buffered :
      IsWrittenWhole D file user total
        (write_loop B buf_size total (upper_div total buf_size) 0 0 shared user file)
  write_buffered =
      let (enough, tight) = upper_div_bounds total buf_size buf_pos total_pos in
      let done =
        write_loop_lem W unit_pos cluster_pos buf_size total buf total-dvd
          (upper_div total buf_size) 0 0 shared user file at (omega arith) (omega arith)
          (omega arith) small in
      let whole : total - 0 * buf_size ≡ total = omega arith in
      let whole' : 0 + (total - 0 * buf_size) ≡ total = omega arith in
      record {
        user' = done.user';
        file' = done.file';
        returned = done.returned ∙ ap (λ (r : ℕ). (r, done.user', done.file')) whole';
        kept = done.kept;
        stored = record {
          moved = omega (arith, done.stored.moved);
          clusters = done.stored.clusters;
          content = λ j.
              done.stored.content j
              ∙ ap
                  (λ (m : ℕ).
                    copy_at file.f_pos m (λ k. user (0 * buf_size + k)) (D.content file.blob) j)
                  whole
              ∙ copy_at-same file.f_pos total (λ k. user (0 * buf_size + k)) user
                  (D.content file.blob) (D.content file.blob) j (λ k lt. ap user (omega arith))
                  refl;
        };
      }

  write_direct :
      IsWrittenWhole D file user total
        (let (n, file') = simple_fs_write B file total user in (n, user, file'))
  write_direct =
      let (file', written, stored) =
        write_chunk W unit_pos cluster_pos file total user at total-dvd total_pos within small in
      record {
        user' = user;
        file' = file';
        returned = ap (λ (r : ℕ × OpenFile B). (r.0, user, r.1)) written;
        kept = λ j. refl;
        stored = stored;
      }

  write_way :
      (tracked : Bool)
      → IsWrittenWhole D file user total (
          if tracked
          then (let (n, file') = simple_fs_write B file total user in (n, user, file'))
          else write_loop B buf_size total (upper_div total buf_size) 0 0 shared user file)
  write_way true = write_direct
  write_way false = write_buffered

  -- On a disk that writes within the clusters of a blob and resizes it, with io units and clusters
  -- above 0, a shared buffer of whole io units, and a position at a whole io unit, a write of at
  -- least one io unit that ends within the clusters of the blob (with one more, below 2^64)
  -- returns the count rounded down to io units, changes exactly that many bytes of the file from
  -- the position on to those of the user's buffer, leaves every byte of that buffer and the
  -- clusters as they were, and moves the position by the count, for a buffer of SPDK's memory and
  -- for any other alike.
  pub monopoly_write_lem :
      (tracked : Bool)
      → IsWrittenWhole D file user
          (nbytes / B.io_unit * B.io_unit)
          (monopoly_write B tracked buf_size shared user file nbytes)
  unfolding monopoly_write
  monopoly_write_lem tracked =
      let some_units : (nbytes / B.io_unit == 0) ≡ false = ground arith in
      rw (some_units) (write_way tracked)
