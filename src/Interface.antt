-- ===== src/Interface.antt =====
-- The calls of simple_fs/interface.c that replace those of the C library: which go to the kernel,
-- and the opening of a file.
pub mod Calls
pub mod Transfer
pub mod Ours
pub mod Trace
pub mod Memory
mod Tests
use spdk_blob_top_fs.File.{Persist}
use spdk_blob_top_fs.Prelude.{
  ℕ, suc, ◌+◌, ◌-◌, ◌/◌, ◌%◌, Bool, true, false, not, ◌&&◌, Option, none, some, List, [], ◌∷◌, ltb,
  ◌==◌, if◌then◌else◌, length,
}
use spdk_blob_top_fs.Dir.{Dirent}
use spdk_blob_top_fs.File.{Blobstore}
use spdk_blob_top_fs.Monopoly.{Sys, Result, monopoly_create, monopoly_open}

abbrev pub testfd : ℕ
testfd = 10086

-- "spdkfs/"
abbrev pub spdkfs_prefix : List ℕ
spdkfs_prefix = b's' ∷ b'p' ∷ b'd' ∷ b'k' ∷ b'f' ∷ b's' ∷ b'/' ∷ []

-- `!memcmp(file, prefix, n)` for the string `file`, whose end is a difference, and the `n` bytes of
-- `prefix`.
pub same_bytes : (prefix file : List ℕ) → Bool
same_bytes [] file = true
same_bytes (c ∷ prefix) [] = false
same_bytes (c ∷ prefix) (d ∷ file) = (c == d) && same_bytes prefix file

pub spdk_ptop_blobfile : List ℕ → Bool
spdk_ptop_blobfile file = if ltb (length file) 5 then false else same_bytes spdkfs_prefix file

-- Where `__spdk_read`, `__spdk_write`, `__spdk_lseek` and `__spdk_close` go for a descriptor that is
-- not negative: the system call with it, or the call of monopoly_ops.c with its own descriptor.
pub data Target : Type 0 where
  system_call : (fd : ℕ) → Target
  monopoly_call : (fd : ℕ) → Target

pub target_of : (fd : ℕ) → Target
target_of fd = if ltb fd testfd then system_call fd else monopoly_call (fd - testfd)

-- `__oflag | O_CREAT`, with the bit 6.
abbrev pub or_o_creat : ℕ → ℕ
or_o_creat oflag = if oflag / 64 % 2 == 0 then oflag + 64 else oflag

-- `TESTFD + ret`, where -1 is `none`.
abbrev pub add_testfd : Option ℕ → ℕ
add_testfd none = testfd - 1
add_testfd (some ret) = testfd + ret

-- The opening by the C library, or the result of the call and the system.
pub data Opened (S : Type 0) : Type 0 where
  r_open : Opened S
  minus_one : Opened S
  descriptor : (fd : ℕ) (sys : S) → Opened S

module _ (B : Blobstore) (first more : ℕ → Dirent) (blob_of : ℕ → B.Blob) where
  -- `return TESTFD + monopoly_open(__file, __oflag)`
  pub open_existing : Option (Result B) → Option (Opened (Sys B))
  open_existing none = none
  open_existing (some (ret, sys)) = some (descriptor (add_testfd ret) sys)

  -- After `monopoly_create`: its descriptor, or the file is opened.
  pub open_created : List ℕ → Option (Result B) → Option (Opened (Sys B))
  open_created file none = none
  open_created file (some (none, sys)) = open_existing (monopoly_open B blob_of sys file)
  open_created file (some (some ret, sys)) = some (descriptor (testfd + ret) sys)

  -- `blob` is what `blob_create` hands over, if it is called, and `now` the time.
  pub spdk_open :
      Sys B
      → (file : List ℕ) (oflag : ℕ) → (blob : B.Blob) (left : Persist) (now : ℕ)
      → Option (Opened (Sys B))
  spdk_open sys file oflag blob left now =
      if not (spdk_ptop_blobfile file)
      then some r_open
      else if not (or_o_creat oflag == 0)
      then (if ltb 256 sys.fds.file_count
          then some minus_one
          else open_created file (monopoly_create B first more sys file blob left now))
      else open_existing (monopoly_open B blob_of sys file)
