-- ===== src/PosixUt/Same.antt =====
-- What posix_ut.c does beside file_ut.c.
use spdk_blob_top_fs.File.{Persist}
use spdk_blob_top_fs.Prelude.{
  ℕ, ◌+◌, ◌≤◌, ◌≡◌, refl, sym, ap, ◌∙◌, false, true, Option, none, some, [], ◌∷◌, arith, ltb,
  if◌then◌else◌,
}
use spdk_blob_top_fs.Prelude
use spdk_blob_top_fs.Dir.{Dirent}
use spdk_blob_top_fs.File.{Bytes, Blobstore, seek_set}
use spdk_blob_top_fs.Interface.{testfd, add_testfd}
use spdk_blob_top_fs.Interface.Transfer.{Routed, by_us, as_int, spdk_write}
use spdk_blob_top_fs.Interface.Calls.{created_or_opened, raise_fd, spdk_open_lem, ptop_blobfile_iff}
use spdk_blob_top_fs.Interface.Ours.{read-ours, write-ours, lseek-ours, close-ours}
use spdk_blob_top_fs.Monopoly.{Sys, Result, monopoly_close, monopoly_create}
use spdk_blob_top_fs.Monopoly.Descriptor.{read_fd, write_fd, lseek_fd}
use spdk_blob_top_fs.FileUt
use spdk_blob_top_fs.FileUt.{hello, memset, terminate, Shared, Printed}
use spdk_blob_top_fs.PosixUt.{
  Run, aborted, at_kernel, done, ◌>>=◌, call, opened, o_creat, transfers, main,
}

-- A run of file_ut.c, as one of posix_ut.c.
abbrev pub as_run : {A : Type 0} → Option A → Run A
as_run none = aborted
as_run (some a) = done a

-- What posix_ut.c makes of the opening and of the run of file_ut.c.
abbrev pub run_after : {S A : Type 0} → Option (Option ℕ × S) → Option A → Run A
run_after none r = aborted
run_after (some (none, sys)) r = at_kernel
run_after (some (some fd, sys)) r = as_run r

call_step :
    {A C : Type 0} (r : Option A) {c : Routed (Option A)} (k : A → Run C) (k' : A → Option C)
    → c ≡ by_us r
    → ((a : A) → k a ≡ as_run (k' a))
    → (call c >>= k) ≡ as_run (Prelude.◌>>=◌ r k')
call_step none {c} k k' e same = ap (λ c. call c >>= k) e
call_step (some a) {c} k k' e same = ap (λ c. call c >>= k) e ∙ same a

bind_assoc :
    {A C D : Type 0} (r : Option A) (f : A → Option C) (g : C → Option D)
    → Prelude.◌>>=◌ r (λ a. Prelude.◌>>=◌ (f a) g) ≡ Prelude.◌>>=◌ (Prelude.◌>>=◌ r f) g
bind_assoc none f g = refl
bind_assoc (some a) f g = refl

module _ {B : Blobstore} where
  -- The count that a read returns is not looked at.
  read_step :
      {C : Type 0} (r : Option (ℕ × Bytes × Sys B)) {c : Routed (Option (ℕ × Bytes × Sys B))}
      (k : Bytes → Sys B → Run C) (k' : Bytes → Sys B → Option C)
      → c ≡ by_us (as_int B r)
      → ((user : Bytes) (sys : Sys B) → k user sys ≡ as_run (k' user sys))
      → (call c >>= (λ (n, user, sys). k user sys))
        ≡ as_run (Prelude.◌>>=◌ r (λ (n, user, sys). k' user sys))
  read_step none {c} k k' e same = ap (λ c. call c >>= (λ (n, user, sys). k user sys)) e
  read_step (some (n, user, sys)) {c} k k' e same =
      ap (λ c. call c >>= (λ (n, user, sys). k user sys)) e ∙ same user sys

  raised : Option (Result B) → Run (ℕ × Sys B)
  raised none = aborted
  raised (some (ret, sys)) = done (add_testfd ret, sys)

  module _ (first more : ℕ → Dirent) (blob_of : ℕ → B.Blob) where
    or_open_same :
        (r : Option (Result B))
        → created_or_opened first more blob_of hello r ≡ Prelude.◌>>=◌ r (FileUt.or_open B blob_of)
    or_open_same none = refl
    or_open_same (some (none, sys)) = refl
    or_open_same (some (some fd, sys)) = refl

    -- `assert` lets every descriptor pass, and TESTFD - 1.
    opened_lem : (r : Option (Result B)) → opened B (raise_fd first more blob_of r) ≡ raised r
    unfolding raised
    opened_lem none = refl
    opened_lem (some (none, sys)) = refl
    opened_lem (some (some fd, sys)) =
        let passes : ltb 10000 (testfd + fd) ≡ true = ground arith in rw passes refl

  transfers_same :
      (m : Shared) (buffer : Bytes) (fd : ℕ) (sys : Sys B)
      → transfers B m buffer (testfd + fd, sys)
        ≡ as_run (FileUt.transfers B m buffer (some fd, sys))
  unfolding transfers FileUt.transfers
  transfers_same m buffer fd sys =
      let to_write = terminate (memset buffer 65 4096) in
      call_step (write_fd B m.tracked m.buf_size m.at_write to_write sys (some fd) 4096) _ _
        (write-ours m.tracked m.buf_size m.at_write to_write sys fd 4096)
        (λ (n, kept, sys1).
          call_step (lseek_fd B sys1 (some fd) 0 seek_set) _ _ (lseek-ours sys1 fd 0 seek_set)
            (λ (pos, sys2).
              let to_read = terminate (memset kept 66 4096) in
              read_step (read_fd B m.tracked m.buf_size m.at_read to_read sys2 (some fd) 4096) _ _
                (read-ours m.tracked m.buf_size m.at_read to_read sys2 fd 4096)
                (λ read sys3.
                  call_step (monopoly_close B sys3 fd) _ _ (close-ours sys3 fd)
                    (λ (closed, sys4). refl))))

  at_minus_one :
      (m : Shared) (buffer : Bytes) (sys : Sys B) → transfers B m buffer (10085, sys) ≡ at_kernel
  unfolding transfers spdk_write
  at_minus_one m buffer sys = refl

  by_opening :
      (m : Shared) (buffer : Bytes) (r : Option (Result B))
      → (raised r >>= transfers B m buffer)
        ≡ run_after r (Prelude.◌>>=◌ r (FileUt.transfers B m buffer))
  unfolding raised transfers
  by_opening m buffer none = refl
  by_opening m buffer (some (none, sys)) = at_minus_one m buffer sys
  by_opening m buffer (some (some fd, sys)) = transfers_same m buffer fd sys

  -- With at most 256 open files, where `creat` of the C library returns -1: the program posix_ut.c
  -- does what file_ut.c does, its abort included, if the file gets a descriptor; if it gets none,
  -- the `assert` on the descriptor passes all the same and the first transfer goes to the kernel;
  -- and it aborts where the opening does.
  pub main-run_after :
      (first more : ℕ → Dirent) (blob_of : ℕ → B.Blob) (m : Shared) (buffer : Bytes) (sys : Sys B)
      (blob : B.Blob) (left : Persist) (now : ℕ)
      → sys.fds.file_count ≤ 256
      → main B first more blob_of m buffer none sys blob left now
        ≡ run_after
            (created_or_opened first more blob_of hello
              (monopoly_create B first more sys hello blob left now))
            (FileUt.main B first more blob_of m buffer sys blob left now)
  unfolding main FileUt.main
  main-run_after first more blob_of m buffer sys blob left now few =
      let c = monopoly_create B first more sys hello blob left now in
      let ours = (ptop_blobfile_iff hello).1 (b'h' ∷ b'e' ∷ b'l' ∷ b'l' ∷ b'o' ∷ [], refl) in
      ap (λ r. opened B r >>= transfers B m buffer)
        (spdk_open_lem first more blob_of sys hello o_creat blob left now ours few)
      ∙ ap (λ r. r >>= transfers B m buffer)
          (opened_lem first more blob_of (created_or_opened first more blob_of hello c))
      ∙ by_opening m buffer (created_or_opened first more blob_of hello c)
      ∙ ap (run_after (created_or_opened first more blob_of hello c)) (
          ap (λ r. Prelude.◌>>=◌ r (FileUt.transfers B m buffer))
            (or_open_same first more blob_of c)
          ∙ sym (bind_assoc c (FileUt.or_open B blob_of) (FileUt.transfers B m buffer)))
