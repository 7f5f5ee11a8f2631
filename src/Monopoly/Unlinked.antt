-- ===== src/Monopoly/Unlinked.antt =====
-- `monopoly_open` after `monopoly_unlink` (simple_fs/monopoly_ops.c).
use spdk_blob_top_fs.Prelude.{
  ℕ, zero, suc, ◌+◌, ◌<◌, ◌≡◌, ◌≢◌, refl, sym, ap, ◌∙◌, Option, none, some, List, arith,
}
use spdk_blob_top_fs.Fd.{FdTable, FdSearch, found, failed, out_of_fuel, get_fd_from_table}
use spdk_blob_top_fs.Dir.{Dirent, Dir, lookup_from, spdkfs_dir_lookup, remove_dirent}
use spdk_blob_top_fs.Dir.Name.{IsString}
use spdk_blob_top_fs.Dir.Distinct.{id_of, id_at, IsDistinct}
use spdk_blob_top_fs.Dir.Names.{id_of-remove_dirent}
use spdk_blob_top_fs.File.{Blobstore, OpenFile, simple_fs_open}
use spdk_blob_top_fs.Monopoly.{
  Sys, Result, place, open_file, open_dirent, monopoly_open, monopoly_unlink,
}

lookup_from-bound :
    (n i k : ℕ) (d : ℕ → Dirent) (s : List ℕ) → lookup_from n i d s ≡ some k → k < i + n
unfolding lookup_from
lookup_from-bound zero i k d s e = absurd cc
lookup_from-bound (suc n) i k d s e = ground (arith, lookup_from-bound n (suc i) k d s)

lookup-bound :
    (dir : Dir) (s : List ℕ) (k : ℕ) → spdkfs_dir_lookup dir s ≡ some k → k < dir.d_dirent_count
unfolding spdkfs_dir_lookup
lookup-bound dir s k e = omega (arith, lookup_from-bound dir.d_dirent_count 0 k dir.dirents s e)

module _ {B : Blobstore} (blob_of : ℕ → B.Blob) where
  -- What a name that leads to a blob, or to none, comes to.
  abbrev open_id : Sys B → Option ℕ → Option (Result B)
  open_id sys none = some (none, sys)
  open_id sys (some id) = open_file B sys (simple_fs_open B (blob_of id))

  open_dirent-id :
      (sys : Sys B) (n : Option ℕ)
      → open_dirent B blob_of sys n ≡ open_id sys (id_at sys.workdir.dirents n)
  unfolding open_dirent
  open_dirent-id sys none = refl
  open_dirent-id sys (some n) = refl

  monopoly_open-id :
      (sys : Sys B) (t : List ℕ) → monopoly_open B blob_of sys t ≡ open_id sys (id_of sys.workdir t)
  unfolding monopoly_open
  monopoly_open-id sys t = open_dirent-id sys (spdkfs_dir_lookup sys.workdir t)

  -- The same result, with another directory.
  abbrev pub in_dir : Dir → Option (Result B) → Option (Result B)
  in_dir dir none = none
  in_dir dir (some (fd, sys)) = some (fd, record sys { workdir = dir })

  place-in_dir :
      (sys : Sys B) (dir : Dir) (file : OpenFile B) (r : FdSearch × FdTable (OpenFile B))
      → place B (record sys { workdir = dir }) file r ≡ in_dir dir (place B sys file r)
  unfolding place
  place-in_dir sys dir file (found fd, t) = refl
  place-in_dir sys dir file (failed, t) = refl
  place-in_dir sys dir file (out_of_fuel, t) = refl

  open_file-in_dir :
      (sys : Sys B) (dir : Dir) (file : Option (OpenFile B))
      → open_file B (record sys { workdir = dir }) file ≡ in_dir dir (open_file B sys file)
  unfolding open_file
  open_file-in_dir sys dir none = refl
  open_file-in_dir sys dir (some file) = place-in_dir sys dir file (get_fd_from_table sys.fds)

  open_id-in_dir :
      (sys : Sys B) (dir : Dir) (id : Option ℕ)
      → open_id (record sys { workdir = dir }) id ≡ in_dir dir (open_id sys id)
  open_id-in_dir sys dir none = refl
  open_id-in_dir sys dir (some id) = open_file-in_dir sys dir (simple_fs_open B (blob_of id))

  -- What the removal of the name `s` leaves.
  pub record IsUnlinked (sys : Sys B) (s : List ℕ) (r : Option ℕ × Sys B) : Type 0 where
    pub deleted : r.0 ≡ id_of sys.workdir s
    pub gone : monopoly_open B blob_of r.1 s ≡ some (none, r.1)
    pub others :
        (t : List ℕ)
        → IsString t
        → t ≢ s
        → monopoly_open B blob_of r.1 t ≡ in_dir r.1.workdir (monopoly_open B blob_of sys t)
    pub distinct : IsDistinct r.1.workdir
    pub table : r.1.fds ≡ sys.fds

  -- In a directory in which no entry has a name of a later one, where the search of the removal
  -- gives the position that the lookup of the name finds, and the name has no NUL byte:
  -- `monopoly_unlink` deletes the blob that the name leads to; `monopoly_open` of the name returns
  -- -1 afterwards; that of any other name without NUL bytes does what it did before, with the new
  -- directory in the system; the open files are as they were, and again no entry has a name of a
  -- later one.
  pub unlink-IsUnlinked :
      (find_dir : List ℕ → Dir → Option ℕ) (sys : Sys B) (s : List ℕ) (idx : ℕ)
      → spdkfs_dir_lookup sys.workdir s ≡ some idx
      → find_dir s sys.workdir ≡ some idx
      → IsString s
      → IsDistinct sys.workdir
      → IsUnlinked sys s (monopoly_unlink B find_dir sys s)
  unfolding monopoly_unlink
  unlink-IsUnlinked find_dir sys s idx there finds str distinct =
      let dir = remove_dirent idx sys.workdir in
      let sys' : Sys B = record sys { workdir = dir } in
      let (gone, others, distinct') =
        id_of-remove_dirent sys.workdir idx s str distinct (lookup-bound sys.workdir s idx there)
          there in
      rw (finds, monopoly_unlink)
        (record {
          deleted = sym (ap (id_at sys.workdir.dirents) there);
          gone = monopoly_open-id sys' s ∙ ap (open_id sys') gone;
          others = λ t ht ne.
              monopoly_open-id sys' t
              ∙ ap (open_id sys') (others t ht ne)
              ∙ open_id-in_dir sys dir (id_of sys.workdir t)
              ∙ ap (in_dir dir) (sym (monopoly_open-id sys t));
          distinct = distinct';
          table = refl;
        })
