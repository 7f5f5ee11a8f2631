-- ===== src/Monopoly/Sound.antt =====
-- The invariant of the system, and how a file gets its descriptor (simple_fs/monopoly_ops.c).
use spdk_blob_top_fs.File.{Persist}
use spdk_blob_top_fs.Prelude.{
  ℕ, ◌<◌, ◌≡◌, ◌⊎◌, refl, Bool, true, false, not, Option, none, some, List, arith, if◌then◌else◌,
  inl, inr, ltb,
}
use spdk_blob_top_fs.Fd.{FdTable, get_fd_from_table, return_fd_to_table}
use spdk_blob_top_fs.Fd.Count.{IsValid}
use spdk_blob_top_fs.Fd.Take.{IsTaken, get_fd_cases, return-IsValid, return-free}
use spdk_blob_top_fs.Dir.{Dirent, Dir, spdkfs_dir_lookup, add_dirent}
use spdk_blob_top_fs.Dir.Room.{
  HasRoom, add_dirent-HasRoom, initialized-add_dirent, remove_dirent-HasRoom,
}
use spdk_blob_top_fs.File.{Blobstore, OpenFile, simple_fs_create, simple_fs_open, simple_fs_close}
use spdk_blob_top_fs.Monopoly.{
  Sys, Result, place, put_file, monopoly_create, monopoly_open, monopoly_close, monopoly_unlink,
  if_absent, open_file, open_dirent,
}

-- A blob without the attribute of a file, at which an opening ends.
abbrev pub IsNoFile : (B : Blobstore) → (ℕ → B.Blob) → Type 0
IsNoFile B blob_of = (id : ℕ) × (simple_fs_open B (blob_of id) ≡ none)

module _ {B : Blobstore} where
  -- The file has a free descriptor, or the table has none to give and nothing changed.
  pub data IsPlaced (sys : Sys B) (file : OpenFile B) : Option (Result B) → Type 0 where
    in_slot :
        (fd : ℕ) (t : FdTable (OpenFile B))
        → IsTaken sys.fds fd t
        → IsPlaced sys file (
            some (
              some fd,
              record sys { fds = record t { open_files = put_file t.open_files fd file } },
            ))
    no_slot :
        (sys.fds.file_count ≡ 256) ⊎ (sys.fds.file_count ≡ 255) × (sys.fds.used 254 ≡ false)
        → IsPlaced sys file (some (none, sys))

  pub place-IsPlaced :
      (sys : Sys B) (file : OpenFile B)
      → IsValid sys.fds
      → IsPlaced sys file (place B sys file (get_fd_from_table sys.fds))
  unfolding place
  place-IsPlaced sys file v = elim (get_fd_cases sys.fds v) [
    | inl (fd, t, e, taken) ↦ rw (e) (in_slot fd t taken)
    | inr (e, why) ↦ rw (e) (no_slot why)
  ]

  pub record IsSound (sys : Sys B) : Type 0 where
    pub fds : IsValid sys.fds
    pub room : HasRoom B.io_unit sys.workdir

  -- A call does not return only where `Fails` holds. What it leaves is sound, with the directory
  -- initialised or not as before (`ready`), and a descriptor that it returns is in use.
  pub data Leaves (ready : Bool) (Fails : Type 0) : Option (Result B) → Type 0 where
    ended : Fails → Leaves ready Fails none
    opened :
        (fd : ℕ) (sys : Sys B)
        → IsSound sys
        → fd < 256
        → sys.fds.used fd ≡ true
        → Leaves ready Fails (some (some fd, sys))
    refused :
        (sys : Sys B)
        → IsSound sys
        → sys.workdir.initialized ≡ ready
        → Leaves ready Fails (some (none, sys))

  IsPlaced-Leaves :
      (ready : Bool) (Fails : Type 0) (sys : Sys B) (file : OpenFile B) (r : Option (Result B))
      → IsSound sys
      → sys.workdir.initialized ≡ ready
      → IsPlaced sys file r
      → Leaves ready Fails r
  IsPlaced-Leaves ready Fails sys file r s e (in_slot fd t taken) =
      opened fd _ (record { fds = record { counted = taken.valid.counted }; room = s.room })
        taken.in_range (ground (arith, taken.now fd))
  IsPlaced-Leaves ready Fails sys file r s e (no_slot why) = refused sys s e

  create_cases :
      (ready : Bool) (n : Option ℕ) (sys : Sys B) (placed : Option (Result B))
      → IsSound sys
      → sys.workdir.initialized ≡ ready
      → Leaves ready (ready ≡ false) placed
      → Leaves ready
          (ready ≡ false)
          (if not ready then none else if_absent n placed (some (none, sys)))
  create_cases false n sys placed s e p = ended refl
  create_cases true none sys placed s e p = p
  create_cases true (some n) sys placed s e p = refused sys s e

  -- With an io unit above 0, in a system whose table counts its open files and whose directory has
  -- a unit of its buffer for each entry, `monopoly_create` returns unless the directory is not
  -- initialised, leaves such a system, and a descriptor that it returns is below 256 and in use.
  pub create-Leaves :
      (first more : ℕ → Dirent) (sys : Sys B) (name : List ℕ) (blob : B.Blob) (left : Persist)
      (now : ℕ)
      → 0 < B.io_unit
      → IsSound sys
      → let ready = sys.workdir.initialized in
        Leaves ready (ready ≡ false) (monopoly_create B first more sys name blob left now)
  unfolding monopoly_create
  create-Leaves first more sys name blob left now pos s =
      let file = simple_fs_create B blob left now in
      let workdir = add_dirent B.io_unit first more (B.get_id file.blob) name sys.workdir in
      let sys' : Sys B = record sys { workdir = workdir } in
      let sound : IsSound sys' = record {
        fds = s.fds;
        room =
            add_dirent-HasRoom B.io_unit pos first more (B.get_id file.blob) name sys.workdir
              s.room;
      } in
      create_cases sys.workdir.initialized (spdkfs_dir_lookup sys.workdir name) sys _ s refl (
        IsPlaced-Leaves sys.workdir.initialized (sys.workdir.initialized ≡ false) sys' file _ sound
          (initialized-add_dirent B.io_unit pos first more (B.get_id file.blob) name sys.workdir)
          (place-IsPlaced sys' file s.fds))

  open_file-Leaves :
      (blob_of : ℕ → B.Blob) (sys : Sys B) (id : ℕ) (file : Option (OpenFile B))
      → IsSound sys
      → simple_fs_open B (blob_of id) ≡ file
      → Leaves sys.workdir.initialized (IsNoFile B blob_of) (open_file B sys file)
  unfolding open_file
  open_file-Leaves blob_of sys id none s e = ended (id, e)
  open_file-Leaves blob_of sys id (some file) s e =
      IsPlaced-Leaves sys.workdir.initialized (IsNoFile B blob_of) sys file _ s refl
        (place-IsPlaced sys file s.fds)

  open_dirent-Leaves :
      (blob_of : ℕ → B.Blob) (sys : Sys B) (n : Option ℕ)
      → IsSound sys
      → Leaves sys.workdir.initialized (IsNoFile B blob_of) (open_dirent B blob_of sys n)
  unfolding open_dirent
  open_dirent-Leaves blob_of sys none s = refused sys s refl
  open_dirent-Leaves blob_of sys (some n) s =
      open_file-Leaves blob_of sys (sys.workdir.dirents n).id _ s refl

  -- An opening leaves a sound system, or comes upon a blob without the attribute.
  pub open-Leaves :
      (blob_of : ℕ → B.Blob) (sys : Sys B) (name : List ℕ)
      → IsSound sys
      → Leaves sys.workdir.initialized (IsNoFile B blob_of) (monopoly_open B blob_of sys name)
  unfolding monopoly_open
  open-Leaves blob_of sys name s =
      open_dirent-Leaves blob_of sys (spdkfs_dir_lookup sys.workdir name) s

  -- The closing of a descriptor that the table has.
  pub close_below :
      (sys : Sys B) (fd : ℕ)
      → fd < 256
      → monopoly_close B sys fd
        ≡ some (
          simple_fs_close B (sys.fds.open_files fd),
          record sys { fds = return_fd_to_table sys.fds fd },
        )
  unfolding monopoly_close
  close_below sys fd lt = let within : ltb fd 256 ≡ true = ground arith in rw (within) refl

  -- In a system whose table counts its open files and whose directory has a unit of its buffer for
  -- each entry, `monopoly_close` of an open descriptor below 256 returns, leaves such a system,
  -- and the descriptor is free.
  pub close-IsSound :
      (sys : Sys B) (fd : ℕ)
      → IsSound sys
      → fd < 256
      → sys.fds.used fd ≡ true
      → (blob : B.Blob) × (sys' : Sys B) × (monopoly_close B sys fd ≡ some (blob, sys'))
        × IsSound sys'
        × (sys'.fds.used fd ≡ false)
  close-IsSound sys fd s lt used =
      let closed : Sys B = record sys { fds = return_fd_to_table sys.fds fd } in
      let sound : IsSound closed = record {
        fds = return-IsValid sys.fds fd s.fds lt used;
        room = s.room;
      } in
      (
        simple_fs_close B (sys.fds.open_files fd),
        closed,
        close_below sys fd lt,
        sound,
        return-free sys.fds fd,
      )

  -- A removal leaves a sound system.
  pub unlink-IsSound :
      (find_dir : List ℕ → Dir → Option ℕ) (sys : Sys B) (path : List ℕ) (idx : ℕ)
      → find_dir path sys.workdir ≡ some idx
      → IsSound sys
      → IsSound (monopoly_unlink B find_dir sys path).1
  unfolding monopoly_unlink
  unlink-IsSound find_dir sys path idx e s =
      rw (e, monopoly_unlink)
        (record { fds = s.fds; room = remove_dirent-HasRoom B.io_unit idx sys.workdir s.room })
