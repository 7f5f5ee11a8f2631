-- ===== src/Monopoly.antt =====
-- The calls of simple_fs/monopoly_ops.c that open, create, close and remove a file of the working
-- directory. The system is the table of open files and the directory; `none` in place of a result
-- is a program that ends by an assertion.
pub mod Sound
pub mod Created
pub mod Descriptor
pub mod Empty
pub mod Unlinked
mod Workdir
mod Tests
use spdk_blob_top_fs.File.{Persist}
use spdk_blob_top_fs.Prelude.{
  ℕ, ◌+◌, ◌-◌, Bool, true, false, not, Option, none, some, List, ◌==◌, ltb, if◌then◌else◌,
}
use spdk_blob_top_fs.Fd.{
  FdTable, FdSearch, found, failed, out_of_fuel, get_fd_from_table, return_fd_to_table,
}
use spdk_blob_top_fs.Dir.{Dirent, Dir, spdkfs_dir_lookup, add_dirent, remove_dirent}
use spdk_blob_top_fs.File.{Blobstore, OpenFile, simple_fs_open, simple_fs_create, simple_fs_close}

-- `open_files[fd] = file`
abbrev pub put_file : {F : Type 0} → (ℕ → F) → ℕ → F → ℕ → F
put_file files fd file j = if fd == j then file else files j

abbrev pub if_absent : {A : Type 0} → Option ℕ → A → A → A
if_absent none x y = x
if_absent (some n) x y = y

module _ (B : Blobstore) where
  pub record Sys : Type 0 where
    pub fds : FdTable (OpenFile B)
    pub workdir : Dir

  -- The descriptor or -1 (`none`), and the system.
  abbrev pub Result : Type 0
  Result = Option ℕ × Sys

  -- The end of `monopoly_create` and of `monopoly_open`: the file gets a descriptor.
  unfoldable pub place : Sys → OpenFile B → FdSearch × FdTable (OpenFile B) → Option Result
  place sys file (found fd, t) =
      some (some fd, record sys { fds = record t { open_files = put_file t.open_files fd file } })
  place sys file (failed, t) = some (none, record sys { fds = t })
  place sys file (out_of_fuel, t) = none

  -- `blob` is what `blob_create` hands over, `now` the time, and `first` and `more` what fresh
  -- memory holds (see `add_dirent`).
  unfoldable pub monopoly_create :
      (first more : ℕ → Dirent)
      → Sys
      → List ℕ
      → (blob : B.Blob) (left : Persist) (now : ℕ) → Option Result
  monopoly_create first more sys name blob left now =
      let file = simple_fs_create B blob left now in
      let workdir = add_dirent B.io_unit first more (B.get_id file.blob) name sys.workdir in
      let placed = place (record sys { workdir = workdir }) file (get_fd_from_table sys.fds) in
      if not sys.workdir.initialized
      then none
      else if_absent (spdkfs_dir_lookup sys.workdir name) placed (some (none, sys))

  -- `spdk_open` of the blob that was opened, and the descriptor.
  pub open_file : Sys → Option (OpenFile B) → Option Result
  open_file sys none = none
  open_file sys (some file) = place sys file (get_fd_from_table sys.fds)

  -- `monopoly_open` after the lookup.
  pub open_dirent : (blob_of : ℕ → B.Blob) → Sys → Option ℕ → Option Result
  open_dirent blob_of sys none = some (none, sys)
  open_dirent blob_of sys (some dirent_num) =
      open_file sys (simple_fs_open B (blob_of (sys.workdir.dirents dirent_num).id))

  -- `blob_of` is what `blob_open` hands over for an id.
  pub monopoly_open : (blob_of : ℕ → B.Blob) → Sys → List ℕ → Option Result
  monopoly_open blob_of sys name = open_dirent blob_of sys (spdkfs_dir_lookup sys.workdir name)

  -- The blob that is closed, with its attribute, and the system.
  pub monopoly_close : Sys → ℕ → Option (B.Blob × Sys)
  monopoly_close sys fd =
      if not (ltb fd 256)
      then none
      else some (
        simple_fs_close B (sys.fds.open_files fd),
        record sys { fds = return_fd_to_table sys.fds fd },
      )

  -- `find_dir` is called but defined nowhere. The id of the blob to delete, where the file is
  -- found; after it the code returns no value.
  pub monopoly_unlink : (find_dir : List ℕ → Dir → Option ℕ) → Sys → List ℕ → Option ℕ × Sys
  monopoly_unlink find_dir sys path = elim (find_dir path sys.workdir) [
    | none ↦ (none, sys)
    | some idx ↦
        (some (sys.workdir.dirents idx).id, record sys { workdir = remove_dirent idx sys.workdir })
  ]
