-- ===== src/Interface/Transfer.antt =====
-- The calls of simple_fs/interface.c on a descriptor, `__spdk_stat` and `__spdk_unlink`: what goes
-- to the kernel, and what monopoly_ops.c does with the rest. A descriptor is not negative.
use spdk_blob_top_fs.Prelude.{
  ℕ, ◌+◌, ◌-◌, ◌%◌, ◌^◌, Bool, not, Option, none, some, List, ltb, if◌then◌else◌,
}
use spdk_blob_top_fs.Dir.{Dir}
use spdk_blob_top_fs.File.{Bytes, Blobstore}
use spdk_blob_top_fs.Interface.{testfd, spdk_ptop_blobfile}
use spdk_blob_top_fs.Monopoly.{Sys, monopoly_close, monopoly_unlink}
use spdk_blob_top_fs.Monopoly.Descriptor.{Stat, monopoly_stat, read_fd, write_fd, lseek_fd}

-- A system call with the same arguments, or what the file system comes to.
pub data Routed (R : Type 0) : Type 0 where
  by_kernel : Routed R
  by_us : R → Routed R

-- `int ret`, returned as a `ssize_t`.
abbrev pub int_to_long : ℕ → ℕ
int_to_long n =
    let ret : ℕ = n % 2 ^ 32 in if ltb ret (2 ^ 31) then ret else ret + (2 ^ 64 - 2 ^ 32)

module _ (B : Blobstore) where
  unfoldable pub spdk_close : Sys B → (fd : ℕ) → Routed (Option (B.Blob × Sys B))
  spdk_close sys fd =
      if ltb fd testfd then by_kernel else by_us (monopoly_close B sys (fd - testfd))

  abbrev pub as_int : Option (ℕ × Bytes × Sys B) → Option (ℕ × Bytes × Sys B)
  as_int none = none
  as_int (some (n, user, sys)) = some (int_to_long n, user, sys)

  unfoldable pub spdk_read :
      (tracked : Bool) (buf_size : ℕ) (shared user : Bytes)
      → Sys B
      → (fd nbytes : ℕ) → Routed (Option (ℕ × Bytes × Sys B))
  spdk_read tracked buf_size shared user sys fd nbytes =
      if ltb fd testfd
      then by_kernel
      else by_us (as_int (read_fd B tracked buf_size shared user sys (some (fd - testfd)) nbytes))

  unfoldable pub spdk_write :
      (tracked : Bool) (buf_size : ℕ) (shared user : Bytes)
      → Sys B
      → (fd nbytes : ℕ) → Routed (Option (ℕ × Bytes × Sys B))
  spdk_write tracked buf_size shared user sys fd nbytes =
      if ltb fd testfd
      then by_kernel
      else by_us (write_fd B tracked buf_size shared user sys (some (fd - testfd)) nbytes)

  unfoldable pub spdk_lseek : Sys B → (fd offset whence : ℕ) → Routed (Option (ℕ × Sys B))
  spdk_lseek sys fd offset whence =
      if ltb fd testfd then by_kernel else by_us (lseek_fd B sys (some (fd - testfd)) offset whence)

  unfoldable pub spdk_stat :
      (find_dir : List ℕ → Dir → Option ℕ) (blob_open : ℕ → Bool × B.Blob)
      → Sys B
      → List ℕ
      → Routed (Option (Option Stat))
  spdk_stat find_dir blob_open sys file =
      if not (spdk_ptop_blobfile file)
      then by_kernel
      else by_us (monopoly_stat B find_dir blob_open sys file)

  unfoldable pub spdk_unlink :
      (find_dir : List ℕ → Dir → Option ℕ) → Sys B → List ℕ → Routed (Option ℕ × Sys B)
  spdk_unlink find_dir sys pathname =
      if not (spdk_ptop_blobfile pathname)
      then by_kernel
      else by_us (monopoly_unlink B find_dir sys pathname)
