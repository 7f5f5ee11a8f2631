-- ===== src/Monopoly/Created.antt =====
-- `monopoly_create` and `monopoly_open` one after the other (simple_fs/monopoly_ops.c).
use spdk_blob_top_fs.File.{Persist}
use spdk_blob_top_fs.Prelude.{
  ℕ, ◌≤◌, ◌<◌, ◌≡◌, refl, sym, ap, subst, ◌∙◌, Bool, true, false, not, Option, none, some, List,
  arith, if◌then◌else◌, length,
}
use spdk_blob_top_fs.Fd.{FdTable}
use spdk_blob_top_fs.Fd.Count.{IsValid, in_use-le}
use spdk_blob_top_fs.Dir.{Dirent, spdkfs_dir_lookup, add_dirent}
use spdk_blob_top_fs.Dir.Name.{IsString}
use spdk_blob_top_fs.Dir.Room.{HasRoom}
use spdk_blob_top_fs.Dir.Added.{old_name, added_id, lookup_added}
use spdk_blob_top_fs.File.{Blobstore, OpenFile, simple_fs_open, simple_fs_create}
use spdk_blob_top_fs.Monopoly.{
  Sys, Result, monopoly_create, monopoly_open, if_absent, open_file, open_dirent,
}
use spdk_blob_top_fs.Monopoly.Sound.{IsPlaced, place-IsPlaced, in_slot, no_slot}

module _ {B : Blobstore} (first more : ℕ → Dirent) where
  -- The system with the entry of a created file.
  abbrev pub with_entry : Sys B → List ℕ → OpenFile B → Sys B
  with_entry sys name file = record sys {
    workdir = add_dirent B.io_unit first more (B.get_id file.blob) name sys.workdir;
  }

  by_lookup :
      (ready : Bool) (n : Option ℕ) (placed there : Option (Result B))
      → ready ≡ true
      → n ≡ none
      → (if not ready then none else if_absent n placed there) ≡ placed
  by_lookup true none placed there r e = refl
  by_lookup true (some n) placed there r e = absurd cc
  by_lookup false n placed there r e = absurd cc

  -- In an initialised directory without the name, and with a valid table of open files,
  -- `monopoly_create` adds the entry, and places the new file in a free descriptor or returns -1
  -- with the table as it was when the search finds none.
  pub create_new :
      (sys : Sys B) (name : List ℕ) (blob : B.Blob) (left : Persist) (now : ℕ)
      → sys.workdir.initialized ≡ true
      → spdkfs_dir_lookup sys.workdir name ≡ none
      → IsValid sys.fds
      → let file = simple_fs_create B blob left now in
        IsPlaced
          (with_entry sys name file)
          file
          (monopoly_create B first more sys name blob left now)
  unfolding monopoly_create
  create_new sys name blob left now ready absent v =
      let file = simple_fs_create B blob left now in
      let sys' = with_entry sys name file in
      subst (λ (r : Option (Result B)). IsPlaced sys' file r)
        (sym (
          by_lookup sys.workdir.initialized (spdkfs_dir_lookup sys.workdir name) _
            (some (none, sys)) ready absent))
        (place-IsPlaced sys' file v)

  full_table :
      (sys : Sys B) (file : OpenFile B) (r : Option (Result B))
      → sys.fds.file_count ≡ 256
      → IsValid sys.fds
      → IsPlaced sys file r
      → r ≡ some (none, sys)
  full_table sys file r full v (in_slot fd t taken) =
      absurd (omega (arith, taken.more, taken.valid.counted, in_use-le t.used 256))
  full_table sys file r full v (no_slot why) = refl

  -- In an initialised directory without the name, and with all 256 descriptors in use and counted,
  -- `monopoly_create` returns -1, and the entry was added all the same.
  create_full :
      (sys : Sys B) (name : List ℕ) (blob : B.Blob) (left : Persist) (now : ℕ)
      → sys.workdir.initialized ≡ true
      → spdkfs_dir_lookup sys.workdir name ≡ none
      → IsValid sys.fds
      → sys.fds.file_count ≡ 256
      → monopoly_create B first more sys name blob left now
        ≡ some (none, with_entry sys name (simple_fs_create B blob left now))
  create_full sys name blob left now ready absent v full =
      let file = simple_fs_create B blob left now in
      full_table (with_entry sys name file) file _ full v
        (create_new sys name blob left now ready absent v)

  -- With an io unit of at least 520 bytes, room for the entries, a name without NUL bytes, below
  -- 512 bytes and not in the directory, and a 0 byte behind the name's place in memory: once the
  -- entry of a created file is there, `monopoly_open` of the name opens the blob of that file and,
  -- with any valid table of open files, places it in a free descriptor or returns -1 when the
  -- search finds none.
  pub open-create :
      (large : 520 ≤ B.io_unit) (sys : Sys B) (name : List ℕ) (blob : B.Blob) (left : Persist)
      (now : ℕ) (blob_of : ℕ → B.Blob) (file' : OpenFile B)
      → HasRoom B.io_unit sys.workdir
      → IsString name
      → length name < 512
      → old_name B.io_unit large first more sys.workdir (length name) ≡ 0
      → spdkfs_dir_lookup sys.workdir name ≡ none
      → let file = simple_fs_create B blob left now in
        simple_fs_open B (blob_of (B.get_id file.blob)) ≡ some file'
        → (fds : FdTable (OpenFile B)) → IsValid fds
        → let sys' : Sys B = record (with_entry sys name file) { fds = fds } in
          IsPlaced sys' file' (monopoly_open B blob_of sys' name)
  unfolding monopoly_open open_dirent open_file
  open-create large sys name blob left now blob_of file' room str short ended absent opens fds v =
      let file = simple_fs_create B blob left now in
      let id = B.get_id file.blob in
      let sys' : Sys B = record (with_entry sys name file) { fds = fds } in
      let there =
        lookup_added B.io_unit large first more id name sys.workdir room str short ended absent in
      let entry = added_id B.io_unit large first more id name sys.workdir room in
      let opened : monopoly_open B blob_of sys' name ≡ open_file B sys' (some file') =
        ap (open_dirent B blob_of sys') there
        ∙ ap (λ (i : ℕ). open_file B sys' (simple_fs_open B (blob_of i))) entry
        ∙ ap (open_file B sys') opens in
      subst (λ (r : Option (Result B)). IsPlaced sys' file' r) (sym opened)
        (place-IsPlaced sys' file' v)
