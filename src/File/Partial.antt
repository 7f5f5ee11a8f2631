-- ===== src/File/Partial.antt =====
-- `monopoly_read` (simple_fs/monopoly_ops.c) through the shared buffer, at any position and on a
-- blobstore whose reads may fail.
use Prim.Native.Nat.{◌∣◌}
use native.Mathlib.Nat.{
  div-add-mod', suc-mul, dvd_trans, dvd-mul_left, dvd-add, dvd-sub, dvd-mul_left_of_dvd,
}
use spdk_blob_top_fs.Prelude.{
  ℕ, zero, suc, ◌+◌, ◌-◌, ◌*◌, ◌/◌, ◌^◌, ◌≤◌, ◌<◌, ◌≡◌, ◌⊎◌, refl, sym, ap, subst, ◌∙◌, false, some,
  arith, inl, inr, Bool-cases, ◌==◌, min,
}
use spdk_blob_top_fs.File.{
  Bytes, Blobstore, OpenFile, Transferred, simple_fs_read, upper_div, copy_at, read_loop,
  monopoly_read,
}
use spdk_blob_top_fs.File.Content.{copy_at-inside, copy_at-outside}
use spdk_blob_top_fs.File.Loop.{dvd-min, below_or_above, read_ends, read_step, read_stop}
use spdk_blob_top_fs.File.Read.{upper_div_bounds, mul-pos}
use spdk_blob_top_fs.File.Once.{PartialDisk, IsMoved, IsOnce, stays, read-IsOnce}

module _ {B : Blobstore} (D : PartialDisk B) where
  open B use {Blob, io_unit}

  -- `from` bytes were read before, and the first `count` of `total` are there in the end.
  pub record IsPartial (file : OpenFile B) (user : Bytes) (from total : ℕ) (r : Transferred B)
      : Type 0 where
    pub count : ℕ
    pub user' : Bytes
    pub file' : OpenFile B
    pub returned : r ≡ some (count, user', file')
    pub more : from ≤ count
    pub bound : count ≤ total
    pub filled :
        (j : ℕ) → from ≤ j → j < count → user' j ≡ D.content file.blob (file.f_pos + (j - from))
    pub kept : (j : ℕ) → (j < from) ⊎ (count ≤ j) → user' j ≡ user j
    pub step : IsMoved D file (count - from) file'

  module _ (unit_pos : 0 < B.io_unit) (buf_size total : ℕ) where
    nothing_more :
        (file file' : OpenFile B) (user : Bytes) (real : ℕ) (r : Transferred B)
        → real ≤ total
        → IsMoved D file 0 file'
        → r ≡ some (real, user, file')
        → IsPartial file user real total r
    nothing_more file file' user real r le step e = record {
      count = real;
      user' = user;
      file' = file';
      returned = e;
      more = omega arith;
      bound = le;
      filled = λ j ge lt. absurd (omega arith);
      kept = λ j out. refl;
      step = subst (λ (n : ℕ). IsMoved D file n file') (omega arith) step;
    }

    -- A read of a chunk, and what comes of the rest.
    chunk_more :
        (file file1 : OpenFile B) (user bytes : Bytes) (at real chunk : ℕ) (r : Transferred B)
        → at ≡ real
        → ((j : ℕ) → j < chunk → bytes j ≡ D.content file.blob (file.f_pos + j))
        → IsMoved D file chunk file1
        → IsPartial file1 (copy_at at chunk bytes user) (real + chunk) total r
        → IsPartial file user real total r
    chunk_more file file1 user bytes at real chunk r e part step rest = record {
      count = rest.count;
      user' = rest.user';
      file' = rest.file';
      returned = rest.returned;
      more = omega (arith, rest.more);
      bound = rest.bound;
      filled = λ j ge lt. elim (below_or_above j (real + chunk)) [
        | inl below ↦
            rest.kept j (inl below)
            ∙ copy_at-inside at chunk bytes user j (omega arith) (omega arith)
            ∙ part (j - at) (omega arith)
            ∙ ap (λ (o : ℕ). D.content file.blob (file.f_pos + (j - o))) e
        | inr above ↦
            rest.filled j above lt
            ∙ ap (λ (c : Bytes). c (file1.f_pos + (j - (real + chunk)))) step.same_content
            ∙ ap (D.content file.blob) (omega (arith, step.moved))
      ];
      kept = λ j out.
          rest.kept j (omega (arith, rest.more, out))
          ∙ copy_at-outside at chunk bytes user j (omega (arith, rest.more, out));
      step = record {
        moved = omega (arith, rest.step.moved, step.moved, rest.more);
        same_persist = rest.step.same_persist ∙ step.same_persist;
        same_content = rest.step.same_content ∙ step.same_content;
      };
    }

    -- A round whose chunk was read, before the rounds that are left.
    round_more :
        (rounds i real : ℕ) (shared user : Bytes) (file : OpenFile B)
        → let chunk = min buf_size (total - i * buf_size) in
          (once : IsOnce D file chunk (simple_fs_read B file chunk shared))
          → once.count ≡ chunk
          → 0 < chunk
          → i * buf_size ≡ real
          → IsPartial once.file'
              (copy_at (i * buf_size) chunk once.bytes user)
              (real + chunk)
              total
              (read_loop B buf_size total rounds
                (suc i)
                (real + chunk)
                once.bytes
                (copy_at (i * buf_size) chunk once.bytes user)
                once.file')
          → IsPartial file user real total
              (read_loop B buf_size total (suc rounds) i real shared user file)
    round_more rounds i real shared user file once all_read pos placed rest =
        let chunk = min buf_size (total - i * buf_size) in
        let bytes = once.bytes in
        let file1 = once.file' in
        let read : simple_fs_read B file chunk shared ≡ some (chunk, bytes, file1) =
          once.returned ∙ ap (λ (n : ℕ). some (n, bytes, file1)) all_read in
        let step : IsMoved D file chunk file1 =
          subst (λ (n : ℕ). IsMoved D file n file1) all_read once.step in
        rw (read_step B buf_size total rounds i real shared user file chunk bytes file1 read pos) (
          chunk_more file file1 user bytes (i * buf_size) real chunk _ placed
            (λ j lt. once.part j (omega (arith, all_read))) step rest)

    round_last :
        (rounds i real : ℕ) (shared user : Bytes) (file : OpenFile B) (size : ℕ)
        → real ≤ total
        → size ≡ min buf_size (total - i * buf_size)
        → (once : IsOnce D file size (simple_fs_read B file size shared)) → once.count ≡ 0
        → IsPartial file user real total
            (read_loop B buf_size total (suc rounds) i real shared user file)
    round_last rounds i real shared user file size le e once none_read =
        let bytes = once.bytes in
        let file1 = once.file' in
        let read : simple_fs_read B file size shared ≡ some (0, bytes, file1) =
          once.returned ∙ ap (λ (n : ℕ). some (n, bytes, file1)) none_read in
        nothing_more file file1 user real _ le
          (subst (λ (n : ℕ). IsMoved D file n file1) none_read once.step)
          (read_ends B buf_size total rounds i real shared user bytes file file1
            (subst (λ (n : ℕ). simple_fs_read B file n shared ≡ some (0, bytes, file1)) e read))

    read_loop-IsPartial :
        io_unit ∣ buf_size
        → io_unit ∣ total
        → 512 ∣ io_unit
        → 0 < buf_size
        → (rounds i real : ℕ) (shared user : Bytes) (file : OpenFile B)
        → real ≡ min (i * buf_size) total
        → i * buf_size + rounds * buf_size < total + buf_size
        → io_unit ∣ file.f_pos
        → file.f_pos + (total - real) < 2 ^ 64
        → IsPartial file user real total (read_loop B buf_size total rounds i real shared user file)
    read_loop-IsPartial ub ut sector pos zero i real shared user file at tight unit small =
        nothing_more file file user real _ (omega arith) (stays D file)
          (read_stop B buf_size total i real shared user file)
    read_loop-IsPartial ub ut sector pos (suc rounds) i real shared user file at tight unit small =
        let chunk = min buf_size (total - i * buf_size) in
        let next = suc-mul i buf_size in
        let left = suc-mul rounds buf_size in
        let whole : io_unit ∣ chunk =
          dvd-min io_unit buf_size _ ub (dvd-sub io_unit ut (dvd-mul_left_of_dvd io_unit ub i)) in
        let once =
          read-IsOnce D unit_pos file chunk shared unit (dvd_trans 512 sector whole)
            (omega arith) in
        elim once.all_or_none [
          | inl none_read ↦
              round_last rounds i real shared user file chunk (omega arith) refl once none_read
          | inr all_read ↦
              let moved : once.file'.f_pos ≡ file.f_pos + chunk =
                once.step.moved ∙ ap (λ (n : ℕ). file.f_pos + n) all_read in
              round_more rounds i real shared user file once all_read (omega arith) (omega arith) (
                read_loop-IsPartial ub ut sector pos rounds (suc i) (real + chunk) once.bytes
                  (copy_at (i * buf_size) chunk once.bytes user) once.file' (omega arith)
                  (omega arith)
                  (subst (λ (x : ℕ). io_unit ∣ x) (sym moved) (dvd-add io_unit unit whole))
                  (omega arith))
        ]

  -- On a blobstore whose reads may fail, where those that succeed give the bytes of the blob, with
  -- an io unit above 0 that is a multiple of 512, a shared buffer of whole io units above 0, and a
  -- position at a whole io unit with the end of the read below 2^64: a read into a buffer that is
  -- not of SPDK's memory returns a count of at most the whole io units that were asked for,
  -- whichever of its chunks fail or lie past the end. Exactly that many bytes at the start of the
  -- user's buffer are those of the file from the position on, every byte behind them is as it was,
  -- the position is moved by the count, and the file has the bytes and the persistent fields that
  -- it had.
  pub monopoly_read-IsPartial :
      (buf_size : ℕ) (shared user : Bytes) (file : OpenFile B) (nbytes : ℕ)
      → 0 < B.io_unit
      → 512 ∣ B.io_unit
      → 0 < buf_size
      → B.io_unit ∣ buf_size
      → B.io_unit ∣ file.f_pos
      → file.f_pos + nbytes < 2 ^ 64
      → IsPartial file user 0
          (nbytes / io_unit * io_unit)
          (monopoly_read B false buf_size shared user file nbytes)
  unfolding monopoly_read
  monopoly_read-IsPartial buf_size shared user file nbytes unit_pos sector pos ub at small =
      let total = nbytes / io_unit * io_unit in
      let part : total ≤ nbytes = omega (arith, div-add-mod' nbytes io_unit) in
      elim (Bool-cases (nbytes / io_unit == 0)) [
        | inl empty ↦ rw (empty) (
            nothing_more unit_pos buf_size total file file user 0 _ (omega arith) (stays D file)
              refl)
        | inr some_units ↦
            let some_total : 0 < total =
              mul-pos (nbytes / io_unit) io_unit (ground arith) unit_pos in
            let (enough, tight) = upper_div_bounds total buf_size pos some_total in
            rw (some_units) (
              read_loop-IsPartial unit_pos buf_size total ub
                (dvd-mul_left io_unit (nbytes / io_unit)) sector pos (upper_div total buf_size) 0 0
                shared user file (omega arith) (omega arith) at (omega arith))
      ]
