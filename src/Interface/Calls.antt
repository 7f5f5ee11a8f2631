-- ===== src/Interface/Calls.antt =====
-- The paths and descriptors that simple_fs/interface.c takes for its own, and its opening.
use spdk_blob_top_fs.File.{Persist}
use mathlib.Core.Path.{ap₂}
use spdk_blob_top_fs.Prelude.{
  ℕ, ◌+◌, ◌≤◌, ◌<◌, ◌≡◌, ◌≢◌, ◌↔◌, refl, sym, Bool, true, false, not, Option, none, some, List, [],
  ◌∷◌, ◌++◌, ltb, ◌==◌, if◌then◌else◌, ◌⊎◌, inl, inr, length, arith, ==_iff,
}
use spdk_blob_top_fs.Dir.{Dirent}
use spdk_blob_top_fs.File.{Blobstore}
use spdk_blob_top_fs.Monopoly.{Sys, Result, monopoly_create, monopoly_open}
use spdk_blob_top_fs.Monopoly.Sound.{
  IsSound, IsNoFile, Leaves, ended, opened, refused, create-Leaves, open-Leaves,
}
use spdk_blob_top_fs.Interface.{
  same_bytes, spdkfs_prefix, spdk_ptop_blobfile, target_of, system_call, monopoly_call, or_o_creat,
  add_testfd, testfd, Opened, r_open, minus_one, descriptor, open_existing, open_created, spdk_open,
}

same_bytes_append : (prefix rest : List ℕ) → same_bytes prefix (prefix ++ rest) ≡ true
unfolding same_bytes
same_bytes_append [] rest = refl
same_bytes_append (c ∷ prefix) rest = ground (arith, same_bytes_append prefix rest)

same_bytes_split :
    (prefix file : List ℕ)
    → same_bytes prefix file ≡ true
    → (rest : List ℕ) × (file ≡ prefix ++ rest)
unfolding same_bytes
same_bytes_split [] file h = (file, refl)
same_bytes_split (c ∷ prefix) [] h = absurd cc
same_bytes_split (c ∷ prefix) (d ∷ file) h =
    let same : (c == d) ≡ true = ground arith in
    let (rest, e) = same_bytes_split prefix file (ground arith) in
    (rest, ap₂ (λ (x : ℕ) (l : List ℕ). x ∷ l) (sym ((==_iff c d).0 same)) e)

ptop_of_prefix : (rest : List ℕ) → spdk_ptop_blobfile (spdkfs_prefix ++ rest) ≡ true
unfolding spdk_ptop_blobfile
ptop_of_prefix rest =
    let long : ltb (length (spdkfs_prefix ++ rest)) 5 ≡ false = ground arith in
    rw (long) (same_bytes_append spdkfs_prefix rest)

-- A path goes to the file system exactly when it begins with `spdkfs/`.
pub ptop_blobfile_iff :
    (file : List ℕ)
    → (spdk_ptop_blobfile file ≡ true) ↔ ((rest : List ℕ) × (file ≡ spdkfs_prefix ++ rest))
unfolding spdk_ptop_blobfile
ptop_blobfile_iff file = (
  λ h. same_bytes_split spdkfs_prefix file (ground arith),
  λ (rest, e). rw (e) (ptop_of_prefix rest),
)

-- The descriptor that an opening returns comes back to the file system as it was, and that of a
-- failed opening goes to the kernel.
target-add_testfd :
    (ret : Option ℕ)
    → target_of (add_testfd ret)
      ≡ elim ret [ none ↦ system_call 10085 | some fd ↦ monopoly_call fd ]
unfolding target_of
target-add_testfd none = refl
target-add_testfd (some fd) = ground arith

creates : (oflag : ℕ) → (or_o_creat oflag == 0) ≡ false
creates oflag = ground arith

-- `__spdk_open` does the same for all flags.
open_any_flags :
    {B : Blobstore} (first more : ℕ → Dirent) (blob_of : ℕ → B.Blob) (sys : Sys B) (file : List ℕ)
    (oflag oflag' : ℕ) (blob : B.Blob) (left : Persist) (now : ℕ)
    → spdk_open B first more blob_of sys file oflag blob left now
      ≡ spdk_open B first more blob_of sys file oflag' blob left now
unfolding spdk_open
open_any_flags first more blob_of sys file oflag oflag' blob left now =
    rw (creates oflag, creates oflag') refl

module _ {B : Blobstore} (first more : ℕ → Dirent) (blob_of : ℕ → B.Blob) where
  -- What an opening leaves is sound. It does not return only where the directory is not initialised,
  -- or an entry leads to a blob that is no file.
  pub data IsSafe (ready : Bool) : Option (Opened (Sys B)) → Type 0 where
    aborted : (ready ≡ false) ⊎ IsNoFile B blob_of → IsSafe ready none
    by_kernel : IsSafe ready (some r_open)
    full : IsSafe ready (some minus_one)
    by_us : (fd : ℕ) (sys : Sys B) → IsSound sys → IsSafe ready (some (descriptor fd sys))

  open_existing-IsSafe :
      (ready ready' : Bool) (r : Option (Result B))
      → Leaves ready' (IsNoFile B blob_of) r
      → IsSafe ready (open_existing B first more blob_of r)
  unfolding open_existing
  open_existing-IsSafe ready ready' _ (ended why) = aborted (inr why)
  open_existing-IsSafe ready ready' _ (opened fd sys s lt used) = by_us (add_testfd (some fd)) sys s
  open_existing-IsSafe ready ready' _ (refused sys s e) = by_us (add_testfd none) sys s

  open_created-IsSafe :
      (ready : Bool) (file : List ℕ) (r : Option (Result B))
      → Leaves ready (ready ≡ false) r
      → IsSafe ready (open_created B first more blob_of file r)
  unfolding open_created
  open_created-IsSafe ready file _ (ended why) = aborted (inl why)
  open_created-IsSafe ready file _ (refused sys s e) =
      open_existing-IsSafe ready sys.workdir.initialized (monopoly_open B blob_of sys file)
        (open-Leaves blob_of sys file s)
  open_created-IsSafe ready file _ (opened fd sys s lt used) = by_us (testfd + fd) sys s

  open_cases :
      (ready ours plain crowded : Bool) (created existing : Option (Opened (Sys B)))
      → IsSafe ready created
      → IsSafe ready existing
      → IsSafe ready (
          if not ours
          then some r_open
          else if not plain
          then (if crowded then some minus_one else created)
          else existing)
  open_cases ready false plain crowded c e hc he = by_kernel
  open_cases ready true false true c e hc he = full
  open_cases ready true false false c e hc he = hc
  open_cases ready true true crowded c e hc he = he

  -- With an io unit above 0, in a system whose table counts its open files and whose directory has
  -- a unit of its buffer for each entry, `__spdk_open` goes to the C library, or is refused, or
  -- leaves such a system; it does
  -- not return only where the directory is not initialised or an entry leads to a blob that is no
  -- file.
  pub open-IsSafe :
      (sys : Sys B) (file : List ℕ) (oflag : ℕ) (blob : B.Blob) (left : Persist) (now : ℕ)
      → 0 < B.io_unit
      → IsSound sys
      → IsSafe sys.workdir.initialized (spdk_open B first more blob_of sys file oflag blob left now)
  unfolding spdk_open
  open-IsSafe sys file oflag blob left now pos s =
      open_cases sys.workdir.initialized (spdk_ptop_blobfile file) (or_o_creat oflag == 0)
        (ltb 256 sys.fds.file_count) _ _
        (open_created-IsSafe sys.workdir.initialized file _
          (create-Leaves first more sys file blob left now pos s))
        (open_existing-IsSafe sys.workdir.initialized sys.workdir.initialized _
          (open-Leaves blob_of sys file s))

  open_existing-admits :
      (r : Option (Result B)) → open_existing B first more blob_of r ≢ some minus_one
  unfolding open_existing
  open_existing-admits none = λ e. cc
  open_existing-admits (some (ret, sys)) = λ e. cc

  open_created-admits :
      (file : List ℕ) (r : Option (Result B))
      → open_created B first more blob_of file r ≢ some minus_one
  unfolding open_created
  open_created-admits file none = λ e. cc
  open_created-admits file (some (none, sys)) =
      open_existing-admits (monopoly_open B blob_of sys file)
  open_created-admits file (some (some ret, sys)) = λ e. cc

  admit_cases :
      (ours plain : Bool) (created existing : Option (Opened (Sys B)))
      → created ≢ some minus_one
      → existing ≢ some minus_one
      → (if not ours then some r_open else if not plain then created else existing) ≢ some minus_one
  admit_cases false plain c e hc he = λ same. cc
  admit_cases true false c e hc he = hc
  admit_cases true true c e hc he = he

  -- With at most 256 open files the count refuses no opening.
  pub open-admits :
      (sys : Sys B) (file : List ℕ) (oflag : ℕ) (blob : B.Blob) (left : Persist) (now : ℕ)
      → sys.fds.file_count ≤ 256
      → spdk_open B first more blob_of sys file oflag blob left now ≢ some minus_one
  unfolding spdk_open
  open-admits sys file oflag blob left now few =
      let room : ltb 256 sys.fds.file_count ≡ false = ground arith in
      rw room (
        admit_cases (spdk_ptop_blobfile file) (or_o_creat oflag == 0) _ _
          (open_created-admits file _) (open_existing-admits _))

  -- What `__spdk_open` comes to for a path of the file system: the file is created, or opened where
  -- that returns -1.
  abbrev pub created_or_opened : List ℕ → Option (Result B) → Option (Result B)
  created_or_opened file none = none
  created_or_opened file (some (none, sys)) = monopoly_open B blob_of sys file
  created_or_opened file (some (some fd, sys)) = some (some fd, sys)

  -- The result, with its descriptor raised.
  abbrev pub raise_fd : Option (Result B) → Option (Opened (Sys B))
  raise_fd none = none
  raise_fd (some (ret, sys)) = some (descriptor (add_testfd ret) sys)

  open_existing_lem : (r : Option (Result B)) → open_existing B first more blob_of r ≡ raise_fd r
  unfolding open_existing
  open_existing_lem none = refl
  open_existing_lem (some (ret, sys)) = refl

  open_created_lem :
      (file : List ℕ) (r : Option (Result B))
      → open_created B first more blob_of file r ≡ raise_fd (created_or_opened file r)
  unfolding open_created
  open_created_lem file none = refl
  open_created_lem file (some (none, sys)) = open_existing_lem (monopoly_open B blob_of sys file)
  open_created_lem file (some (some fd, sys)) = refl

  pub spdk_open_lem :
      (sys : Sys B) (file : List ℕ) (oflag : ℕ) (blob : B.Blob) (left : Persist) (now : ℕ)
      → spdk_ptop_blobfile file ≡ true
      → sys.fds.file_count ≤ 256
      → spdk_open B first more blob_of sys file oflag blob left now
        ≡ raise_fd (created_or_opened file (monopoly_create B first more sys file blob left now))
  unfolding spdk_open
  spdk_open_lem sys file oflag blob left now ours few =
      let room : ltb 256 sys.fds.file_count ≡ false = ground arith in
      rw (ours, creates oflag, room) (open_created_lem file _)
