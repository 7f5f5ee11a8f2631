-- ===== src/Fio/Opens.antt =====
-- The opening and the closing of a file by blobop_fio_plugin/fs_fio_plugin.c.
use spdk_blob_top_fs.File.{Persist}
use spdk_blob_top_fs.Prelude.{
  ℕ, ◌<◌, ◌≡◌, ◌⊎◌, ap, ◌∙◌, subst, inl, inr, Bool, true, false, Option, none, some, List,
}
use spdk_blob_top_fs.Dir.{Dirent}
use spdk_blob_top_fs.File.{Blobstore}
use spdk_blob_top_fs.Monopoly.{Sys, Result, monopoly_close}
use spdk_blob_top_fs.Monopoly.Sound.{
  IsSound, IsNoFile, Leaves, ended, opened, refused, open-Leaves, create-Leaves, close-IsSound,
}
use spdk_blob_top_fs.Fio.{
  FioFile, open_or_create, open_created, spdk_open_file, spdk_close_file, close_fd,
}

-- The file of a job has a descriptor that is in use, or none.
pub data HasFd {B : Blobstore} (sys : Sys B) : Option ℕ → Type 0 where
  in_use : (fd : ℕ) → fd < 256 → sys.fds.used fd ≡ true → HasFd sys (some fd)
  no_fd : HasFd sys none

-- An opening does not return only where `Fails` holds.
pub data IsOpened {B : Blobstore} (Fails : Type 0) : Option (FioFile × Sys B) → Type 0 where
  aborted : Fails → IsOpened Fails none
  returned :
      (f : FioFile) (sys : Sys B) → IsSound sys → HasFd sys f.fd → IsOpened Fails (some (f, sys))

-- The directory is not initialised, or an entry leads to a blob that is no file.
abbrev pub Fails : (B : Blobstore) → (ℕ → B.Blob) → Bool → Type 0
Fails B blob_of ready = (ready ≡ false) ⊎ IsNoFile B blob_of

module _ {B : Blobstore} (first more : ℕ → Dirent) (blob_of : ℕ → B.Blob) where
  open_created-IsOpened :
      (ready : Bool) (f : FioFile) (r : Option (Result B))
      → Leaves ready (ready ≡ false) r
      → IsOpened (Fails B blob_of ready) (open_created B first more blob_of f r)
  open_created-IsOpened ready f _ (ended why) = aborted (inl why)
  open_created-IsOpened ready f _ (opened fd sys s lt used) =
      returned (record f { fd = some fd }) sys s (in_use fd lt used)
  open_created-IsOpened ready f _ (refused sys s e) = returned (record f { fd = none }) sys s no_fd

  open_or_create-IsOpened :
      (ready : Bool) (f : FioFile) (r : Option (Result B)) (create : Sys B → Option (Result B))
      → Leaves ready (IsNoFile B blob_of) r
      → ((sys : Sys B)
          → IsSound sys
          → Leaves sys.workdir.initialized (sys.workdir.initialized ≡ false) (create sys))
      → IsOpened (Fails B blob_of ready) (open_or_create B first more blob_of f r create)
  open_or_create-IsOpened ready f _ create (ended why) next = aborted (inr why)
  open_or_create-IsOpened ready f _ create (opened fd sys s lt used) next =
      returned (record f { fd = some fd }) sys s (in_use fd lt used)
  open_or_create-IsOpened ready f _ create (refused sys s e) next =
      open_created-IsOpened ready f (create sys)
        (subst (λ (b : Bool). Leaves b (b ≡ false) (create sys)) e (next sys s))

  -- With an io unit above 0, in a system whose table counts its open files and whose directory has
  -- a unit of its buffer for each entry, `spdk_open_file` returns unless the directory is not
  -- initialised or some id leads to a blob without the attribute of a file, leaves such a system,
  -- and the file has a descriptor below 256 that is in use, or none.
  pub open_file-IsOpened :
      (sys : Sys B) (f : FioFile) (file_name : List ℕ) (blob : B.Blob) (left : Persist) (now : ℕ)
      → 0 < B.io_unit
      → IsSound sys
      → IsOpened
          (Fails B blob_of sys.workdir.initialized)
          (spdk_open_file B first more blob_of sys f file_name blob left now)
  unfolding spdk_open_file
  open_file-IsOpened sys f file_name blob left now pos s =
      open_or_create-IsOpened sys.workdir.initialized f _ _ (open-Leaves blob_of sys file_name s)
        (λ sys s. create-Leaves first more sys file_name blob left now pos s)

-- A close of the descriptor that an opening gave.
close_file-IsSound :
    {B : Blobstore} (sys : Sys B) (f : FioFile) (fd : ℕ)
    → IsSound sys
    → f.fd ≡ some fd
    → fd < 256
    → sys.fds.used fd ≡ true
    → (sys' : Sys B) × (spdk_close_file B sys f ≡ some (record f { fd = none }, sys'))
      × IsSound sys'
      × (sys'.fds.used fd ≡ false)
unfolding spdk_close_file
close_file-IsSound {B} sys f fd s is_open lt used =
    let (blob, sys', closed, sound, free) = close-IsSound sys fd s lt used in
    (
      sys',
      ap
            (λ (o : Option ℕ). elim o [
              | none ↦ none
              | some fd ↦ close_fd B f (monopoly_close B sys fd)
            ])
            is_open
          ∙ ap (close_fd B f) closed,
      sound,
      free,
    )
