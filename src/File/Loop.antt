-- ===== src/File/Loop.antt =====
-- The loop of `monopoly_read` (simple_fs/monopoly_ops.c) through the shared buffer.
use spdk_blob_top_fs.Prelude.{
  ℕ, zero, suc, ◌+◌, ◌-◌, ◌*◌, ◌^◌, ◌≤◌, ◌<◌, ◌≡◌, refl, sym, ap, ◌∙◌, some, arith, inl, inr, min,
  subst, ◌⊎◌,
}
use spdk_blob_top_fs.File.{
  Persist, Bytes, Blobstore, OpenFile, Transferred, simple_fs_read, read_loop, copy_at,
}
use spdk_blob_top_fs.File.Content.{Disk, IsAdvanced, read_chunk, copy_at-inside, copy_at-outside}
use Prim.Native.Nat.{◌∣◌}
use native.Mathlib.Nat.{dvd-add, dvd-sub, dvd-mul_left_of_dvd, suc-mul}

-- How the user's buffer is afterwards: `n` bytes from offset `o` on are those of the file, the
-- others are the old ones.
pub record IsFilled (source user : Bytes) (from to : ℕ) (user' : Bytes) : Type 0 where
  pub inside : (j : ℕ) → from ≤ j → j < to → user' j ≡ source (j - from)
  pub outside : (j : ℕ) → (j < from) ⊎ (to ≤ j) → user' j ≡ user j

pub below_or_above : (a b : ℕ) → (a < b) ⊎ (b ≤ a)
below_or_above a b = omega arith

pub dvd-min : (d a b : ℕ) → d ∣ a → d ∣ b → d ∣ min a b
dvd-min d a b da db = elim (below_or_above a b) [
  | inl le ↦ subst (λ (x : ℕ). d ∣ x) (omega arith) da
  | inr ge ↦ subst (λ (x : ℕ). d ∣ x) (omega arith) db
]

filled_step :
    (source user bytes user' : Bytes) (from size to chunk : ℕ)
    → chunk ≡ min size (to - from)
    → ((j : ℕ) → j < chunk → bytes j ≡ source j)
    → IsFilled (λ j. source (chunk + j)) (copy_at from chunk bytes user) (from + size) to user'
    → IsFilled source user from to user'
filled_step source user bytes user' from size to chunk e part rest = record {
  inside = λ j ge lt. elim (below_or_above j (from + size)) [
    | inl below ↦
        rest.outside j (inl below)
        ∙ copy_at-inside from chunk bytes user j ge (omega arith)
        ∙ part (j - from) (omega arith)
    | inr above ↦ rest.inside j above lt ∙ ap source (omega arith)
  ];
  outside =
      λ j out. rest.outside j (omega arith) ∙ copy_at-outside from chunk bytes user j (omega arith);
}

filled_ext :
    (source source' user : Bytes) (from to : ℕ) (user' : Bytes)
    → ((j : ℕ) → source j ≡ source' j)
    → IsFilled source user from to user'
    → IsFilled source' user from to user'
filled_ext source source' user from to user' e h = record {
  inside = λ j ge lt. h.inside j ge lt ∙ e (j - from);
  outside = h.outside;
}

module _ (B : Blobstore) (buf_size total : ℕ) where
  pub read_stop :
      (i real : ℕ) (shared user : Bytes) (file : OpenFile B)
      → read_loop B buf_size total 0 i real shared user file ≡ some (real, user, file)
  unfolding read_loop
  read_stop i real shared user file = refl

  -- A chunk that was read, and one of which nothing was.
  pub read_step :
      (rounds i real : ℕ) (shared user : Bytes) (file : OpenFile B) (n : ℕ) (bytes : Bytes)
      (file' : OpenFile B)
      → simple_fs_read B file (min buf_size (total - i * buf_size)) shared ≡ some (n, bytes, file')
      → 0 < n
      → read_loop B buf_size total (suc rounds) i real shared user file
        ≡ read_loop B buf_size total rounds
            (suc i)
            (real + n)
            bytes
            (copy_at (i * buf_size) n bytes user)
            file'
  unfolding read_loop
  read_step rounds i real shared user file n bytes file' e pos = rw (read_loop, e) (ground arith)

  pub read_ends :
      (rounds i real : ℕ) (shared user bytes : Bytes) (file file' : OpenFile B)
      → simple_fs_read B file (min buf_size (total - i * buf_size)) shared ≡ some (0, bytes, file')
      → read_loop B buf_size total (suc rounds) i real shared user file ≡ some (real, user, file')
  unfolding read_loop
  read_ends rounds i real shared user bytes file file' e = rw (read_loop, e) refl

module _ {B : Blobstore} (D : Disk B) (unit_pos : 0 < B.io_unit) (buf_size total : ℕ) where
  open B use {Blob, io_unit}

  -- A read of `n` bytes that was asked for in round `i`.
  pub record IsRead (i real : ℕ) (user : Bytes) (file : OpenFile B) (result : Transferred B)
      : Type 0 where
    pub user' : Bytes
    pub file' : OpenFile B
    pub returned : result ≡ some (real + (total - i * buf_size), user', file')
    pub filled :
        IsFilled (λ j. D.content file.blob (file.f_pos + j)) user (i * buf_size) total user'
    pub advanced : IsAdvanced D file (total - i * buf_size) file'

  -- A round, and a read of the rest.
  rest-IsRead :
      (rounds i real : ℕ) (shared user : Bytes) (file : OpenFile B) (bytes : Bytes)
      (file1 : OpenFile B)
      → let chunk = min buf_size (total - i * buf_size) in
        simple_fs_read B file chunk shared ≡ some (chunk, bytes, file1)
        → 0 < chunk
        → ((j : ℕ) → j < chunk → bytes j ≡ D.content file.blob (file.f_pos + j))
        → IsAdvanced D file chunk file1
        → IsRead (suc i) (real + chunk) (copy_at (i * buf_size) chunk bytes user) file1 (
            read_loop B buf_size total rounds
              (suc i)
              (real + chunk)
              bytes
              (copy_at (i * buf_size) chunk bytes user)
              file1)
        → IsRead i real user file (read_loop B buf_size total (suc rounds) i real shared user file)
  rest-IsRead rounds i real shared user file bytes file1 read pos part step rest =
      let chunk = min buf_size (total - i * buf_size) in
      let next = suc-mul i buf_size in
      let moved = step.moved in
      let source = λ (j : ℕ). D.content file.blob (file.f_pos + j) in
      let same : (j : ℕ) → D.content file1.blob (file1.f_pos + j) ≡ source (chunk + j) = λ j.
        ap (λ (c : Bytes). c (file1.f_pos + j)) step.same_content
        ∙ ap (D.content file.blob) (omega arith) in
      record {
        user' = rest.user';
        file' = rest.file';
        returned =
            read_step B buf_size total rounds i real shared user file chunk bytes file1 read pos
            ∙ rest.returned
            ∙ ap (λ (r : ℕ). some (r, rest.user', rest.file')) (omega arith);
        filled =
            filled_step source user bytes rest.user' (i * buf_size) buf_size total chunk refl part (
              subst
                (λ (from : ℕ).
                  IsFilled (λ j. source (chunk + j)) (copy_at (i * buf_size) chunk bytes user) from
                    total rest.user')
                next (filled_ext _ (λ j. source (chunk + j)) _ _ _ rest.user' same rest.filled));
        advanced = record {
          moved = omega (arith, rest.advanced.moved);
          same_persist = rest.advanced.same_persist ∙ step.same_persist;
          same_content = rest.advanced.same_content ∙ step.same_content;
        };
      }

  pub read_loop_lem :
      io_unit ∣ buf_size
      → io_unit ∣ total
      → 512 ∣ buf_size
      → 512 ∣ total
      → (rounds i real : ℕ) (shared user : Bytes) (file : OpenFile B) → io_unit ∣ file.f_pos
      → total ≤ i * buf_size + rounds * buf_size
      → i * buf_size + rounds * buf_size < total + buf_size
      → file.f_pos + (total - i * buf_size) ≤ file.persist.f_size
      → file.persist.f_size < 2 ^ 64
      → IsRead i real user file (read_loop B buf_size total rounds i real shared user file)
  read_loop_lem ub ut wb wt zero i real shared user file unit enough tight within small = record {
    user' = user;
    file' = file;
    returned =
        read_stop B buf_size total i real shared user file
        ∙ ap (λ (r : ℕ). some (r, user, file)) (omega arith);
    filled = record { inside = λ j ge lt. absurd (omega arith); outside = λ j out. refl };
    advanced = record { moved = omega arith; same_persist = refl; same_content = refl };
  }
  read_loop_lem ub ut wb wt (suc rounds) i real shared user file unit enough tight within small =
      let chunk = min buf_size (total - i * buf_size) in
      let next = suc-mul i buf_size in
      let count = suc-mul rounds buf_size in
      let (bytes, file1, read, part, step) =
        read_chunk D unit_pos file chunk shared unit
          (dvd-min 512 _ _ wb (dvd-sub 512 wt (dvd-mul_left_of_dvd 512 wb i))) (omega arith)
          (omega arith) small in
      let moved = step.moved in
      let f_size = ap (λ (p : Persist). p.f_size) step.same_persist in
      let ahead = dvd-min io_unit _ _ ub (dvd-sub io_unit ut (dvd-mul_left_of_dvd io_unit ub i)) in
      let rest =
        read_loop_lem ub ut wb wt rounds (suc i) (real + chunk) bytes
          (copy_at (i * buf_size) chunk bytes user) file1
          (subst (λ (x : ℕ). io_unit ∣ x) (sym moved) (dvd-add io_unit unit ahead)) (omega arith)
          (omega arith) (omega arith) (omega arith) in
      rest-IsRead rounds i real shared user file bytes file1 read (omega arith) part step rest
