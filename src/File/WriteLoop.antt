-- ===== src/File/WriteLoop.antt =====
-- The loop of `monopoly_write` (simple_fs/monopoly_ops.c) through the shared buffer.
use spdk_blob_top_fs.Prelude.{
  ℕ, zero, suc, ◌+◌, ◌-◌, ◌*◌, ◌^◌, ◌≤◌, ◌<◌, ◌≡◌, refl, sym, ap, ◌∙◌, arith, min, subst,
}
use spdk_blob_top_fs.File.{Bytes, Blobstore, OpenFile, simple_fs_write, write_loop, copy_at}
use spdk_blob_top_fs.File.Content.{Disk, copy_at-inside}
use spdk_blob_top_fs.File.Write.{WritableDisk}
use spdk_blob_top_fs.File.Loop.{dvd-min}
use spdk_blob_top_fs.File.Stored.{
  IsStored, write_chunk, copy_at-same, copy_at-join, copy_at-back, copy_at-nothing,
}
use Prim.Native.Nat.{◌∣◌}
use native.Mathlib.Nat.{dvd-add, dvd-sub, dvd-mul_left_of_dvd, suc-mul}

module _ (B : Blobstore) (buf_size total : ℕ) where
  pub write_stop :
      (i real : ℕ) (shared user : Bytes) (file : OpenFile B)
      → write_loop B buf_size total 0 i real shared user file ≡ (real, user, file)
  unfolding write_loop
  write_stop i real shared user file = refl

  -- A chunk that was written, and one of which nothing was.
  pub write_step :
      (rounds i real : ℕ) (shared user : Bytes) (file file' : OpenFile B)
      → let n = min buf_size (total - i * buf_size) in
        let shared' = copy_at 0 n (λ j. user (i * buf_size + j)) shared in
        simple_fs_write B file n shared' ≡ (n, file')
        → 0 < n
        → write_loop B buf_size total (suc rounds) i real shared user file
          ≡ write_loop B buf_size total rounds
              (suc i)
              (real + n)
              shared'
              (copy_at (i * buf_size) n shared' user)
              file'
  unfolding write_loop
  write_step rounds i real shared user file file' e pos = rw (write_loop, e) (ground arith)

  pub write_ends :
      (rounds i real : ℕ) (shared user : Bytes) (file file' : OpenFile B)
      → let n = min buf_size (total - i * buf_size) in
        let shared' = copy_at 0 n (λ j. user (i * buf_size + j)) shared in
        simple_fs_write B file n shared' ≡ (0, file')
        → write_loop B buf_size total (suc rounds) i real shared user file ≡ (real, user, file')
  unfolding write_loop
  write_ends rounds i real shared user file file' e = rw (write_loop, e) refl

module _ {B : Blobstore} {D : Disk B} (W : WritableDisk D) (unit_pos : 0 < B.io_unit)
    (cluster_pos : 0 < B.cluster_size) (buf_size total : ℕ) where
  open B use {io_unit, cluster_size}

  -- A write of the rest that was asked for in round `i`.
  pub record IsWrote (i real : ℕ) (user : Bytes) (file : OpenFile B)
      (result : ℕ × Bytes × OpenFile B) : Type 0 where
    pub user' : Bytes
    pub file' : OpenFile B
    pub returned : result ≡ (real + (total - i * buf_size), user', file')
    pub kept : (j : ℕ) → user' j ≡ user j
    pub stored : IsStored D file (total - i * buf_size) (λ k. user (i * buf_size + k)) file'

  -- A round, and a write of the rest.
  rest-IsWrote :
      (rounds i real : ℕ) (shared user : Bytes) (file file1 : OpenFile B)
      → let n = min buf_size (total - i * buf_size) in
        let shared' = copy_at 0 n (λ j. user (i * buf_size + j)) shared in
        simple_fs_write B file n shared' ≡ (n, file1)
        → 0 < n
        → IsStored D file n shared' file1
        → IsWrote (suc i) (real + n) (copy_at (i * buf_size) n shared' user) file1 (
            write_loop B buf_size total rounds
              (suc i)
              (real + n)
              shared'
              (copy_at (i * buf_size) n shared' user)
              file1)
        → IsWrote i real user file
            (write_loop B buf_size total (suc rounds) i real shared user file)
  rest-IsWrote rounds i real shared user file file1 written pos part rest =
      let n = min buf_size (total - i * buf_size) in
      let left = total - suc i * buf_size in
      let shared' = copy_at 0 n (λ j. user (i * buf_size + j)) shared in
      let user1 = copy_at (i * buf_size) n shared' user in
      let next = suc-mul i buf_size in
      let moved = part.moved in
      let back = copy_at-back (i * buf_size) n user shared in
      let source : Bytes = λ k. user (i * buf_size + k) in
      let old = D.content file.blob in
      let first : (j : ℕ) → D.content file1.blob j ≡ copy_at file.f_pos n source old j = λ j.
        part.content j
        ∙ copy_at-same file.f_pos n shared' source old old j
            (λ k lt.
              copy_at-inside 0 n source shared k (omega arith) (omega arith)
              ∙ ap source (omega arith))
            refl in
      let whole : n + left ≡ total - i * buf_size = omega arith in
      record {
        user' = rest.user';
        file' = rest.file';
        returned =
            write_step B buf_size total rounds i real shared user file file1 written pos
            ∙ rest.returned
            ∙ ap (λ (r : ℕ). (r, rest.user', rest.file')) (omega arith);
        kept = λ j. rest.kept j ∙ back j;
        stored = record {
          moved = omega (arith, rest.stored.moved);
          clusters = rest.stored.clusters ∙ part.clusters;
          content = λ j.
              rest.stored.content j
              ∙ ap
                  (λ (p : ℕ).
                    copy_at p left (λ k. user1 (suc i * buf_size + k)) (D.content file1.blob) j)
                  moved
              ∙ copy_at-same (file.f_pos + n) left (λ k. user1 (suc i * buf_size + k))
                  (λ k. source (n + k)) (D.content file1.blob) (copy_at file.f_pos n source old) j
                  (λ k lt. back (suc i * buf_size + k) ∙ ap user (omega arith)) (first j)
              ∙ copy_at-join file.f_pos n left source old j
              ∙ ap (λ (m : ℕ). copy_at file.f_pos m source old j) whole;
        };
      }

  pub write_loop_lem :
      io_unit ∣ buf_size
      → io_unit ∣ total
      → (rounds i real : ℕ) (shared user : Bytes) (file : OpenFile B) → io_unit ∣ file.f_pos
      → total ≤ i * buf_size + rounds * buf_size
      → i * buf_size + rounds * buf_size < total + buf_size
      → file.f_pos + (total - i * buf_size) ≤ B.num_clusters file.blob * cluster_size
      → B.num_clusters file.blob * cluster_size + cluster_size < 2 ^ 64
      → IsWrote i real user file (write_loop B buf_size total rounds i real shared user file)
  write_loop_lem ub ut zero i real shared user file unit enough tight within small = record {
    user' = user;
    file' = file;
    returned =
        write_stop B buf_size total i real shared user file
        ∙ ap (λ (r : ℕ). (r, user, file)) (omega arith);
    kept = λ j. refl;
    stored = record {
      moved = omega arith;
      clusters = refl;
      content = λ j.
          copy_at-nothing file.f_pos _ (λ k. user (i * buf_size + k)) (D.content file.blob) j
            (omega arith);
    };
  }
  write_loop_lem ub ut (suc rounds) i real shared user file unit enough tight within small =
      let n = min buf_size (total - i * buf_size) in
      let next = suc-mul i buf_size in
      let count = suc-mul rounds buf_size in
      let shared' = copy_at 0 n (λ j. user (i * buf_size + j)) shared in
      let ahead = dvd-min io_unit _ _ ub (dvd-sub io_unit ut (dvd-mul_left_of_dvd io_unit ub i)) in
      let (file1, written, part) =
        write_chunk W unit_pos cluster_pos file n shared' unit ahead (omega arith) (omega arith)
          small in
      let moved = part.moved in
      let same = ap (λ (c : ℕ). c * cluster_size) part.clusters in
      let rest =
        write_loop_lem ub ut rounds (suc i) (real + n) shared'
          (copy_at (i * buf_size) n shared' user) file1
          (subst (λ (x : ℕ). io_unit ∣ x) (sym moved) (dvd-add io_unit unit ahead)) (omega arith)
          (omega arith) (omega arith) (omega arith) in
      rest-IsWrote rounds i real shared user file file1 written (omega arith) part rest
