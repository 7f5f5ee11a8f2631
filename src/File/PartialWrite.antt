-- ===== src/File/PartialWrite.antt =====
-- `monopoly_write` (simple_fs/monopoly_ops.c) through the shared buffer, at any position and on a
-- blobstore whose writes and resizes may fail.
use Prim.Native.Nat.{◌∣◌}
use native.Mathlib.Nat.{dvd-mul_left, div-add-mod', suc-mul, dvd-mul_left_of_dvd, dvd-add, dvd-sub}
use spdk_blob_top_fs.Prelude.{
  ℕ, zero, suc, ◌+◌, ◌-◌, ◌*◌, ◌/◌, ◌^◌, ◌≤◌, ◌<◌, ◌≡◌, refl, sym, ap, subst, ◌∙◌, false, arith,
  inl, inr, Bool-cases, ◌==◌, min,
}
use spdk_blob_top_fs.File.{
  Bytes, Blobstore, OpenFile, simple_fs_write, upper_div, copy_at, write_loop, monopoly_write,
}
use spdk_blob_top_fs.File.Content.{copy_at-inside}
use spdk_blob_top_fs.File.Loop.{dvd-min, below_or_above}
use spdk_blob_top_fs.File.Read.{upper_div_bounds, mul-pos}
use spdk_blob_top_fs.File.Stored.{copy_at-back}
use spdk_blob_top_fs.File.WriteLoop.{write_stop, write_step, write_ends}
use spdk_blob_top_fs.File.OnceWritten.{
  PartialStore, IsStoredPart, IsWrittenOnce, write-IsWrittenOnce,
}

module _ {B : Blobstore} (D : PartialStore B) where
  open B use {Blob, io_unit}

  -- `from` bytes were written before, and the first `count` of `total` are there in the end. The
  -- user's buffer is as it was.
  pub record IsPartialWrite (file : OpenFile B) (user : Bytes) (from total : ℕ)
      (r : ℕ × Bytes × OpenFile B) : Type 0 where
    pub more : from ≤ r.0
    pub bound : r.0 ≤ total
    pub kept : (j : ℕ) → r.1 j ≡ user j
    pub stored : IsStoredPart D file (r.0 - from) (total - from) (λ k. user (from + k)) r.2

  module _ (unit_pos : 0 < B.io_unit) (buf_size total : ℕ) where
    nothing_more :
        (file : OpenFile B) (user : Bytes) (real : ℕ)
        → real ≤ total
        → IsPartialWrite file user real total (real, user, file)
    nothing_more file user real le = record {
      more = omega arith;
      bound = le;
      kept = λ j. refl;
      stored = record {
        moved = omega arith;
        inside = λ j ge lt. absurd (omega (arith, ge, lt));
        outside = λ j out. refl;
      };
    }

    -- A chunk that could not be written ends the loop.
    stops :
        (file file' : OpenFile B) (user source : Bytes) (real size : ℕ)
        → real ≤ total
        → real + size ≤ total
        → IsStoredPart D file 0 size source file'
        → IsPartialWrite file user real total (real, user, file')
    stops file file' user source real size le fits s = record {
      more = omega arith;
      bound = le;
      kept = λ j. refl;
      stored = record {
        moved = omega (arith, s.moved);
        inside = λ j ge lt. absurd (omega (arith, ge, lt));
        outside = λ j out. s.outside j (omega (arith, out));
      };
    }

    -- A chunk that was written, and what comes of the rest.
    write_more :
        (file file1 : OpenFile B) (user user1 source : Bytes) (real chunk : ℕ)
        (r : ℕ × Bytes × OpenFile B)
        → real + chunk ≤ total
        → ((k : ℕ) → k < chunk → source k ≡ user (real + k))
        → ((j : ℕ) → user1 j ≡ user j)
        → IsStoredPart D file chunk chunk source file1
        → IsPartialWrite file1 user1 (real + chunk) total r
        → IsPartialWrite file user real total r
    write_more file file1 user user1 source real chunk r fits same back s rest = record {
      more = omega (arith, rest.more);
      bound = rest.bound;
      kept = λ j. rest.kept j ∙ back j;
      stored = record {
        moved = omega (arith, s.moved, rest.stored.moved, rest.more);
        inside = λ j ge lt. elim (below_or_above j (file.f_pos + chunk)) [
          | inl below ↦
              rest.stored.outside j (inl (omega (arith, s.moved, below)))
              ∙ s.inside j ge below
              ∙ same (j - file.f_pos) (omega (arith, ge, below))
          | inr above ↦
              rest.stored.inside j (omega (arith, s.moved, above))
                (omega (arith, s.moved, lt, rest.more))
              ∙ back (real + chunk + (j - file1.f_pos))
              ∙ ap user (omega (arith, s.moved, above))
        ];
        outside = λ j out.
            rest.stored.outside j (omega (arith, s.moved, out, fits))
            ∙ s.outside j (omega (arith, out, fits));
      };
    }

    -- A round, and a write of the rest where the chunk was written.
    round_by :
        (rounds i real : ℕ) (shared user : Bytes) (file : OpenFile B)
        → let chunk = min buf_size (total - i * buf_size) in
          let shared' = copy_at 0 chunk (λ j. user (i * buf_size + j)) shared in
          real ≡ i * buf_size
          → real + chunk ≤ total
          → 0 < chunk
          → (r : ℕ × OpenFile B) → simple_fs_write B file chunk shared' ≡ r
          → IsWrittenOnce D file chunk shared' r
          → ((file1 : OpenFile B)
              → file1.f_pos ≡ file.f_pos + chunk
              → IsPartialWrite file1
                  (copy_at (i * buf_size) chunk shared' user)
                  (real + chunk)
                  total
                  (write_loop B buf_size total rounds
                    (suc i)
                    (real + chunk)
                    shared'
                    (copy_at (i * buf_size) chunk shared' user)
                    file1))
          → IsPartialWrite file user real total
              (write_loop B buf_size total (suc rounds) i real shared user file)
    round_by rounds i real shared user file at fits pos (n, file1) e once rest =
        let chunk = min buf_size (total - i * buf_size) in
        let shared' = copy_at 0 chunk (λ j. user (i * buf_size + j)) shared in
        elim once.all_or_none [
          | inl none_written ↦
              subst (λ (r : ℕ × Bytes × OpenFile B). IsPartialWrite file user real total r)
                (sym (
                  write_ends B buf_size total rounds i real shared user file file1
                    (e ∙ ap (λ (k : ℕ). (k, file1)) none_written)))
                (stops file file1 user shared' real chunk (omega arith) fits (
                  subst (λ (k : ℕ). IsStoredPart D file k chunk shared' file1) none_written
                    once.stored))
          | inr all_written ↦
              let stored =
                subst (λ (k : ℕ). IsStoredPart D file k chunk shared' file1) all_written
                  once.stored in
              subst (λ (r : ℕ × Bytes × OpenFile B). IsPartialWrite file user real total r)
                (sym (
                  write_step B buf_size total rounds i real shared user file file1
                    (e ∙ ap (λ (k : ℕ). (k, file1)) all_written) pos))
                (write_more file file1 user (copy_at (i * buf_size) chunk shared' user) shared' real
                  chunk _ fits
                  (λ k lt.
                    copy_at-inside 0 chunk (λ j. user (i * buf_size + j)) shared k (omega arith)
                      (omega (arith, lt))
                    ∙ ap user (omega (arith, at)))
                  (copy_at-back (i * buf_size) chunk user shared) stored (rest file1 stored.moved))
        ]

    write_loop-IsPartialWrite :
        io_unit ∣ buf_size
        → io_unit ∣ total
        → 0 < buf_size
        → (rounds i real : ℕ) (shared user : Bytes) (file : OpenFile B)
        → real ≡ min (i * buf_size) total
        → i * buf_size + rounds * buf_size < total + buf_size
        → io_unit ∣ file.f_pos
        → file.f_pos + (total - real) < 2 ^ 64
        → IsPartialWrite file user real total
            (write_loop B buf_size total rounds i real shared user file)
    write_loop-IsPartialWrite ub ut pos zero i real shared user file at tight unit small =
        subst (λ (r : ℕ × Bytes × OpenFile B). IsPartialWrite file user real total r)
          (sym (write_stop B buf_size total i real shared user file))
          (nothing_more file user real (omega arith))
    write_loop-IsPartialWrite ub ut pos (suc rounds) i real shared user file at tight unit small =
        let chunk = min buf_size (total - i * buf_size) in
        let next = suc-mul i buf_size in
        let left = suc-mul rounds buf_size in
        let whole : io_unit ∣ chunk =
          dvd-min io_unit buf_size _ ub (dvd-sub io_unit ut (dvd-mul_left_of_dvd io_unit ub i)) in
        let shared' = copy_at 0 chunk (λ j. user (i * buf_size + j)) shared in
        let once =
          write-IsWrittenOnce D unit_pos file chunk shared' unit whole (omega arith)
            (omega arith) in
        round_by rounds i real shared user file (omega arith) (omega arith) (omega arith)
          (simple_fs_write B file chunk shared') refl once
          (λ file1 moved.
            write_loop-IsPartialWrite ub ut pos rounds (suc i) (real + chunk) shared'
              (copy_at (i * buf_size) chunk shared' user) file1 (omega arith) (omega arith)
              (subst (λ (x : ℕ). io_unit ∣ x) (sym moved) (dvd-add io_unit unit whole))
              (omega (arith, moved)))

  -- On a blobstore whose writes and resizes may fail, where a write that succeeds changes the
  -- bytes that it names to those given and one that fails changes no others than those, with an io
  -- unit above 0, a shared buffer of whole io units above 0, and a position at a whole io unit
  -- with the end of the write below 2^64: a write from a buffer that is not of SPDK's memory
  -- returns a count of at most the whole io units that were asked for, whichever of its chunks
  -- fail. The first bytes of the file from the position on, as many as the count, are those of the
  -- user's buffer, the bytes before the position and behind the io units that were asked for are
  -- as they were, the position is moved by the count, and the user's buffer is as it was.
  pub monopoly_write-IsPartialWrite :
      (buf_size : ℕ) (shared user : Bytes) (file : OpenFile B) (nbytes : ℕ)
      → 0 < B.io_unit
      → 0 < buf_size
      → B.io_unit ∣ buf_size
      → B.io_unit ∣ file.f_pos
      → file.f_pos + nbytes < 2 ^ 64
      → IsPartialWrite file user 0
          (nbytes / io_unit * io_unit)
          (monopoly_write B false buf_size shared user file nbytes)
  unfolding monopoly_write
  monopoly_write-IsPartialWrite buf_size shared user file nbytes unit_pos pos ub at small =
      let total = nbytes / io_unit * io_unit in
      let part : total ≤ nbytes = omega (arith, div-add-mod' nbytes io_unit) in
      elim (Bool-cases (nbytes / io_unit == 0)) [
        | inl empty ↦ rw (empty) (nothing_more unit_pos buf_size total file user 0 (omega arith))
        | inr some_units ↦
            let some_total : 0 < total =
              mul-pos (nbytes / io_unit) io_unit (ground arith) unit_pos in
            let (enough, tight) = upper_div_bounds total buf_size pos some_total in
            rw (some_units) (
              write_loop-IsPartialWrite unit_pos buf_size total ub
                (dvd-mul_left io_unit (nbytes / io_unit)) pos (upper_div total buf_size) 0 0 shared
                user file (omega arith) (omega arith) at (omega arith))
      ]
