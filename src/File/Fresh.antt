-- ===== src/File/Fresh.antt =====
-- Transfers of simple_fs/monopoly_ops.c at the start of a file whose recorded size is 0.
use Prim.Native.Nat.{◌∣◌}
use native.Mathlib.Nat.{dvd_trans, dvd-mul_left, dvd_iff_mod-eq-zero, div-eq_of_lt, div-add-mod'}
use spdk_blob_top_fs.Prelude.{
  ℕ, suc, ◌+◌, ◌-◌, ◌*◌, ◌/◌, ◌^◌, ◌≤◌, ◌<◌, ◌≡◌, refl, ap, ◌∙◌, Bool, true, false, some, arith,
  inl, inr, Bool-cases, ◌==◌, if◌then◌else◌, min,
}
use spdk_blob_top_fs.File.{
  Bytes, Blobstore, OpenFile, monopoly_read, monopoly_write, read_loop, write_loop, simple_fs_read,
  simple_fs_write, monopoly_lseek, seek_set, note_write, copy_at,
}
use spdk_blob_top_fs.File.Loop.{dvd-min}
use spdk_blob_top_fs.File.Read.{mul-pos}
use spdk_blob_top_fs.File.Transfer.{read-past, write-persist, grow_blob-f_pos, grow_blob-persist}

one_chunk : (total buf_size : ℕ) → 0 < total → total ≤ buf_size → (total - 1) / buf_size + 1 ≡ 1
one_chunk total buf_size pos le =
    let none_before : (total - 1) / buf_size ≡ 0 = div-eq_of_lt (omega arith) in
    omega (arith, none_before)

units_le : (n unit : ℕ) → n / unit * unit ≤ n
units_le n unit = omega (arith, div-add-mod' n unit)

by_way {ℓ} :
    {R : Type ℓ} {x y r : R} (tracked : Bool) → x ≡ r → y ≡ r → (if tracked then x else y) ≡ r
by_way true p q = p
by_way false p q = q

module _ {B : Blobstore} where
  -- At the start of a file in which nothing was counted.
  pub record IsFresh (file : OpenFile B) : Type 0 where
    pub at_start : file.f_pos ≡ 0
    pub empty : file.persist.f_size ≡ 0

  simple_fs_write-empty :
      (file : OpenFile B) (size : ℕ) (bytes : Bytes)
      → IsFresh file
      → (simple_fs_write B file size bytes).1.persist.f_size ≡ 0
  unfolding note_write
  simple_fs_write-empty file size bytes fresh =
      let same = ap (λ p. p.f_size) (write-persist B file size bytes) in
      ground (
        arith,
        grow_blob-f_pos B file size,
        ap (λ p. p.f_size) (grow_blob-persist B file size),
        fresh.at_start,
        fresh.empty,
      )

  -- One chunk.
  write_loop-empty :
      (buf_size total : ℕ) (shared user : Bytes) (file : OpenFile B)
      → IsFresh file
      → (write_loop B buf_size total 1 0 0 shared user file).2.persist.f_size ≡ 0
  unfolding write_loop
  write_loop-empty buf_size total shared user file fresh =
      let chunk = min buf_size (total - 0 * buf_size) in
      let shared' = copy_at 0 chunk (λ j. user (0 * buf_size + j)) shared in
      ground (arith, simple_fs_write-empty file chunk shared' fresh)

  -- A read there finds nothing.
  simple_fs_read-empty :
      (file : OpenFile B) (size : ℕ) (buffer : Bytes)
      → IsFresh file
      → 512 ∣ size
      → 0 < size
      → size < 2 ^ 64
      → simple_fs_read B file size buffer ≡ some (0, buffer, file)
  simple_fs_read-empty file size buffer fresh sector pos small =
      read-past B file size buffer ((dvd_iff_mod-eq-zero 512).0 sector)
        (omega (arith, fresh.at_start, fresh.empty))

  read_loop-empty :
      (buf_size total rounds : ℕ) (shared user : Bytes) (file : OpenFile B)
      → IsFresh file
      → 512 ∣ min buf_size total
      → 0 < min buf_size total
      → total < 2 ^ 64
      → read_loop B buf_size total (suc rounds) 0 0 shared user file ≡ some (0, user, file)
  unfolding read_loop
  read_loop-empty buf_size total rounds shared user file fresh sector pos small =
      let chunk : min buf_size (total - 0 * buf_size) ≡ min buf_size total = omega arith in
      let nothing : simple_fs_read B file (min buf_size (total - 0 * buf_size)) shared
          ≡ some (0, shared, file) =
        ap (λ (n : ℕ). simple_fs_read B file n shared) chunk
        ∙ simple_fs_read-empty file _ shared fresh sector pos (omega arith) in
      rw (read_loop, nothing) refl

  way-empty :
      (buf_size : ℕ) (shared user : Bytes) (file : OpenFile B) (tracked : Bool) (total : ℕ)
      → IsFresh file
      → (if tracked
          then (let (n, file') = simple_fs_write B file total user in (n, user, file'))
          else write_loop B buf_size total 1 0 0 shared user file).2.persist.f_size
        ≡ 0
  way-empty buf_size shared user file true total fresh = simple_fs_write-empty file total user fresh
  way-empty buf_size shared user file false total fresh =
      write_loop-empty buf_size total shared user file fresh

  module _ (buf_size : ℕ) (shared user : Bytes) (file : OpenFile B) (nbytes : ℕ)
      (unit_pos : 0 < B.io_unit) (fresh : IsFresh file) where
    -- A write of one chunk at most counts nothing.
    pub write-empty :
        (tracked : Bool)
        → nbytes ≤ buf_size
        → (monopoly_write B tracked buf_size shared user file nbytes).2.persist.f_size ≡ 0
    unfolding monopoly_write
    write-empty tracked le =
        let total = nbytes / B.io_unit * B.io_unit in
        elim (Bool-cases (nbytes / B.io_unit == 0)) [
          | inl nothing ↦ rw nothing (fresh.empty)
          | inr some_units ↦
              let pos : 0 < total =
                mul-pos (nbytes / B.io_unit) B.io_unit (ground arith) unit_pos in
              let one = one_chunk total buf_size pos (omega (arith, units_le nbytes B.io_unit)) in
              rw (some_units, one) (way-empty buf_size shared user file tracked total fresh)
        ]

    pub read-empty :
        (tracked : Bool)
        → 512 ∣ B.io_unit
        → 512 ∣ buf_size
        → 0 < buf_size
        → nbytes < 2 ^ 64
        → monopoly_read B tracked buf_size shared user file nbytes ≡ some (0, user, file)
    unfolding monopoly_read
    read-empty tracked sector whole some_buf small =
        let total = nbytes / B.io_unit * B.io_unit in
        elim (Bool-cases (nbytes / B.io_unit == 0)) [
          | inl nothing ↦ rw nothing refl
          | inr some_units ↦
              let pos : 0 < total =
                mul-pos (nbytes / B.io_unit) B.io_unit (ground arith) unit_pos in
              let le = units_le nbytes B.io_unit in
              let sectors : 512 ∣ total =
                dvd_trans 512 sector (dvd-mul_left B.io_unit (nbytes / B.io_unit)) in
              let again : (total - 1) / buf_size + 1 ≡ suc ((total - 1) / buf_size) = omega arith in
              rw (some_units, again)
                (by_way tracked
                  (simple_fs_read-empty file total user fresh sectors pos (omega (arith, le)))
                  (read_loop-empty buf_size total ((total - 1) / buf_size) shared user file fresh
                    (dvd-min 512 _ _ whole sectors) (omega arith) (omega (arith, le))))
        ]

  -- `lseek` to the start.
  pub lseek-start :
      (file : OpenFile B)
      → 0 < B.io_unit
      → monopoly_lseek B file 0 seek_set ≡ (0, record file { f_pos = 0 })
  unfolding monopoly_lseek
  lseek-start file pos =
      let none_before : 0 / B.io_unit * B.io_unit ≡ 0 =
        ap (λ (n : ℕ). n * B.io_unit) (div-eq_of_lt pos) ∙ omega arith in
      ap (λ (n : ℕ). (n, record file { f_pos = n })) none_before
