-- ===== src/File/Read.antt =====
-- `monopoly_read` (simple_fs/monopoly_ops.c), on both of its ways to the user's buffer.
use spdk_blob_top_fs.Prelude.{
  ℕ, zero, suc, ap, subst, if◌then◌else◌, ◌==◌, ◌+◌, ◌-◌, ◌*◌, ◌/◌, ◌^◌, ◌≤◌, ◌<◌, ◌≡◌, Bool, true,
  false, some, arith, ◌∙◌,
}
use spdk_blob_top_fs.File.{
  Bytes, Blobstore, OpenFile, Transferred, upper_div, monopoly_read, read_loop, simple_fs_read,
}
use spdk_blob_top_fs.File.Content.{Disk, IsAdvanced, read_chunk}
use spdk_blob_top_fs.File.Loop.{read_loop_lem}
use Prim.Native.Nat.{◌∣◌}
use native.Mathlib.Nat.{dvd_trans, dvd-mul_left, suc-mul, div-add-mod', mod-lt}

-- `n` bytes of the file are in the user's buffer, and the file is `n` bytes further on.
pub record IsReadWhole {B : Blobstore} (D : Disk B) (file : OpenFile B) (n : ℕ)
    (result : Transferred B) : Type 0 where
  pub user' : Bytes
  pub file' : OpenFile B
  pub returned : result ≡ some (n, user', file')
  pub filled : (j : ℕ) → j < n → user' j ≡ D.content file.blob (file.f_pos + j)
  pub advanced : IsAdvanced D file n file'

pub upper_div_bounds :
    (a b : ℕ) → 0 < b → 0 < a → (a ≤ upper_div a b * b) × (upper_div a b * b < a + b)
upper_div_bounds a b pos some_a =
    let q = (a - 1) / b in
    (
      omega (arith, suc-mul q b, div-add-mod' (a - 1) b, mod-lt (a - 1) pos),
      omega (arith, suc-mul q b, div-add-mod' (a - 1) b),
    )

pub mul-pos : (a b : ℕ) → 0 < a → 0 < b → 0 < a * b
mul-pos zero b h pos = absurd (omega arith)
mul-pos (suc a) b _ pos = omega (arith, suc-mul a b)

module _ {B : Blobstore} (D : Disk B) (buf_size : ℕ) (shared user : Bytes) (file : OpenFile B)
    (nbytes : ℕ) (unit_pos : 0 < B.io_unit) (sector : 512 ∣ B.io_unit) (buf_pos : 0 < buf_size)
    (buf : B.io_unit ∣ buf_size) (at : B.io_unit ∣ file.f_pos) (pos : 0 < nbytes / B.io_unit)
    (within : file.f_pos + nbytes / B.io_unit * B.io_unit ≤ file.persist.f_size)
    (small : file.persist.f_size < 2 ^ 64) where
  abbrev total : ℕ
  total = nbytes / B.io_unit * B.io_unit

  unit_total : B.io_unit ∣ total
  unit_total = dvd-mul_left B.io_unit (nbytes / B.io_unit)

  total_pos : 0 < total
  total_pos = mul-pos (nbytes / B.io_unit) B.io_unit pos unit_pos

  read_direct : IsReadWhole D file total (simple_fs_read B file total user)
  read_direct =
      let (bytes, file', read, part, step) =
        read_chunk D unit_pos file total user at (dvd_trans 512 sector unit_total) total_pos within
          small in
      record { user' = bytes; file' = file'; returned = read; filled = part; advanced = step }

  whole_of_zero : {a b : ℕ} → a ≡ b → 0 + a ≡ b
  whole_of_zero e = omega (arith, e)

  read_buffered :
      IsReadWhole D file total
        (read_loop B buf_size total (upper_div total buf_size) 0 0 shared user file)
  read_buffered =
      let (enough, tight) = upper_div_bounds total buf_size buf_pos total_pos in
      let start : 0 * buf_size ≡ 0 = omega arith in
      let done =
        read_loop_lem D unit_pos buf_size total buf unit_total (dvd_trans 512 sector buf)
          (dvd_trans 512 sector unit_total) (upper_div total buf_size) 0 0 shared user file at
          (omega arith) (omega arith) (omega arith) small in
      let whole : total - 0 * buf_size ≡ total = omega arith in
      record {
        user' = done.user';
        file' = done.file';
        returned =
            done.returned ∙ ap (λ (r : ℕ). some (r, done.user', done.file')) (whole_of_zero whole);
        filled = λ j lt.
            done.filled.inside j (omega arith) lt
            ∙ ap (λ (o : ℕ). D.content file.blob (file.f_pos + o)) (omega arith);
        advanced = subst (λ (n : ℕ). IsAdvanced D file n done.file') whole done.advanced;
      }

  by_way :
      (tracked : Bool)
      → IsReadWhole D file total (
          if tracked
          then simple_fs_read B file total user
          else read_loop B buf_size total (upper_div total buf_size) 0 0 shared user file)
  by_way true = read_direct
  by_way false = read_buffered

  -- On a disk whose reads do not fail, with an io unit that is a multiple of 512, a shared buffer
  -- of whole io units, and a position at a whole io unit, a read of at least one io unit that lies
  -- within the file size (below 2^64) returns the count rounded down to io units, puts the bytes
  -- of the file from the position on into the buffer, and moves the position by the count, for a
  -- buffer of SPDK's memory and for any other alike.
  pub monopoly_read_lem :
      (tracked : Bool)
      → IsReadWhole D file
          (nbytes / B.io_unit * B.io_unit)
          (monopoly_read B tracked buf_size shared user file nbytes)
  unfolding monopoly_read
  monopoly_read_lem tracked =
      let some_units : (nbytes / B.io_unit == 0) ≡ false = ground arith in
      rw (some_units) (by_way tracked)
