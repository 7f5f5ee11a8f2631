-- ===== src/File/Seek.antt =====
-- `monopoly_lseek` (simple_fs/monopoly_ops.c).
use spdk_blob_top_fs.Prelude.{
  ℕ, ◌+◌, ◌-◌, ◌*◌, ◌/◌, ◌%◌, ◌^◌, ◌≤◌, ◌<◌, ◌≡◌, false, arith, ltb, ◌==◌, Bool-cases, inl, inr,
  subst, sym, refl,
}
use spdk_blob_top_fs.File.{Blobstore, OpenFile, round_offset, monopoly_lseek, seek_set, seek_cur}
use Prim.Native.Nat.{◌∣◌}
use native.Mathlib.Nat.{dvd-mod_iff, dvd-add, dvd-sub, dvd-mul_left, div-add-mod', mod-lt}

module _ (B : Blobstore) where
  open B use {io_unit}

  round_offset-dvd : (offset : ℕ) → io_unit ∣ 2 ^ 64 → io_unit ∣ round_offset B offset
  unfolding round_offset
  round_offset-dvd offset whole = elim (Bool-cases (ltb offset (2 ^ 63))) [
    | inl h ↦ rw (h) (dvd-mul_left io_unit (offset / io_unit))
    | inr h ↦ rw (h) (
        (dvd-mod_iff io_unit whole).1
          (dvd-sub io_unit whole (dvd-mul_left io_unit ((2 ^ 64 - offset) / io_unit))))
  ]

  round_offset-forth :
      (offset : ℕ) → offset < 2 ^ 63 → round_offset B offset ≡ offset / io_unit * io_unit
  unfolding round_offset
  round_offset-forth offset small = ground arith

  round_offset-back :
      (distance : ℕ)
      → 0 < distance
      → distance ≤ 2 ^ 63
      → round_offset B (2 ^ 64 - distance) ≡ (2 ^ 64 - distance / io_unit * io_unit) % 2 ^ 64
  unfolding round_offset
  round_offset-back distance pos small =
      let h : ltb (2 ^ 64 - distance) (2 ^ 63) ≡ false = ground arith in
      let back : 2 ^ 64 - (2 ^ 64 - distance) ≡ distance = omega arith in rw (h, back) refl

  -- With an io unit that divides 2^64, a seek with any offset and origin keeps the position at a
  -- whole io unit.
  lseek_aligned :
      (file : OpenFile B) (offset whence : ℕ)
      → io_unit ∣ 2 ^ 64
      → io_unit ∣ file.f_pos
      → io_unit ∣ (monopoly_lseek B file offset whence).1.f_pos
  unfolding monopoly_lseek
  lseek_aligned file offset whence whole at =
      let actual = round_offset B offset in
      let rounded = round_offset-dvd offset whole in
      elim (Bool-cases (whence == seek_set)) [
        | inl h ↦ rw (h) rounded
        | inr h ↦ elim (Bool-cases (whence == seek_cur)) [
          | inl h' ↦ rw (h, h') ((dvd-mod_iff io_unit whole).1 (dvd-add io_unit at rounded))
          | inr h' ↦ rw (h, h') at
        ]
      ]

  -- A seek from the start to an offset below 2^63 goes to the last whole io unit up to it.
  lseek_set :
      (file : OpenFile B) (offset : ℕ)
      → 0 < io_unit
      → offset < 2 ^ 63
      → let (result, file') = monopoly_lseek B file offset seek_set in
        (result ≡ file'.f_pos)
        × (io_unit ∣ result)
        × (result ≤ offset)
        × (offset < result + io_unit)
  unfolding monopoly_lseek round_offset
  lseek_set file offset pos small =
      let e = round_offset-forth offset small in
      let rounded = (dvd-mul_left io_unit (offset / io_unit)) in
      (
        refl,
        subst (λ (x : ℕ). io_unit ∣ x) (sym e) rounded,
        omega (arith, e, div-add-mod' offset io_unit),
        omega (arith, e, div-add-mod' offset io_unit, mod-lt offset pos),
      )

  -- A seek backwards from the position goes back by the whole io units of the distance.
  lseek_back :
      (file : OpenFile B) (distance : ℕ)
      → 0 < distance
      → distance ≤ 2 ^ 63
      → distance ≤ file.f_pos
      → file.f_pos < 2 ^ 64
      → (monopoly_lseek B file (2 ^ 64 - distance) seek_cur).0
        ≡ file.f_pos - distance / io_unit * io_unit
  unfolding monopoly_lseek round_offset
  lseek_back file distance pos small le in_file =
      omega (arith, round_offset-back distance pos small, div-add-mod' distance io_unit)
