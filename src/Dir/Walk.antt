-- ===== src/Dir/Walk.antt =====
-- `find_path` of simple_fs/dir.c. The directories on disk are a state that `spdk_closedir` writes to,
-- and that the opening and reading of a blob works on; both are parameters. `none` is a reading
-- that ends by its `assert`.
pub mod Ends
pub mod Named
use spdk_blob_top_fs.Prelude.{
  ℕ, zero, suc, Bool, true, false, Option, none, some, List, [], ◌∷◌, ◌==◌, if◌then◌else◌, length,
}
use spdk_blob_top_fs.Dir.{Dir, Part, part, end, too_long, get_next_part, spdkfs_dir_lookup}

-- How the search ends. Where a path is found, its tail and what `*file_dir` is set to, if it is.
-- `uninit` is a path of slashes alone, where `file_name` is not set.
pub data Found : Type 0 where
  not_found : Found
  found : (tail_name : List ℕ) → (file_dir : Option Dir) → Found
  aborted uninit out_of_fuel : Found

abbrev pub is_root : List ℕ → Bool
is_root [] = false
is_root (c ∷ []) = c == b'/'
is_root (c ∷ d ∷ name) = false

abbrev pub is_absolute : List ℕ → Bool
is_absolute [] = false
is_absolute (c ∷ name) = c == b'/'

-- `close_dir` is `spdk_closedir`. `open_dir` is `blob_open` into the directory object with the id of
-- a blob, and `spdk_readdir`: it gives what the object holds then.
module _ {Disk : Type 0} (close_dir : Disk → Dir → Disk)
    (open_dir : Disk → Dir → (blob_id : ℕ) → Option Dir × Disk) where
  -- The end, the directory object that the search began with, and the disk. There is one object:
  -- each directory on the path is read into it.
  abbrev pub Ended : Type 0
  Ended = Found × Dir × Disk

  abbrev finish : Option (List ℕ) → Dir → Disk → Ended
  finish none now_dir disk = (uninit, now_dir, disk)
  finish (some file_name) now_dir disk = (found file_name (some now_dir), now_dir, disk)

  abbrev pub enter : Dir → Option Dir × Disk → (Dir → Disk → Ended) → Ended
  enter now_dir (none, disk) go = (aborted, now_dir, disk)
  enter now_dir (some next, disk) go = go next disk

  -- The index of the entry is taken for the id of a blob. The object is closed when it is not the
  -- working directory.
  abbrev pub look_up : (is_dir : Bool) → Option ℕ → Dir → Disk → (Dir → Disk → Ended) → Ended
  look_up is_dir none now_dir disk go = (not_found, now_dir, disk)
  look_up is_dir (some blob_id) now_dir disk go =
      let closed = if is_dir then disk else close_dir disk now_dir in
      enter now_dir (open_dir closed now_dir blob_id) go

  -- The body of the loop, with the next turn. A part that is too long leaves the path as it was.
  abbrev pub take_part :
      (is_dir : Bool)
      → Part
      → Option (List ℕ)
      → Dir
      → Disk
      → (List ℕ → Option (List ℕ) → Dir → Disk → Ended)
      → Ended
  take_part is_dir end file_name now_dir disk go = finish file_name now_dir disk
  take_part is_dir too_long file_name now_dir disk go = (not_found, now_dir, disk)
  take_part is_dir (part s []) file_name now_dir disk go = finish (some s) now_dir disk
  take_part is_dir (part s (c ∷ rest)) file_name now_dir disk go =
      look_up is_dir (spdkfs_dir_lookup now_dir s) now_dir disk (go (c ∷ rest) (some s))

  -- `while (result = get_next_part(...))`, with a bound on the turns.
  unfoldable pub path_loop :
      (is_dir : Bool) → (rounds : ℕ) → List ℕ → Option (List ℕ) → Dir → Disk → Ended
  path_loop is_dir zero name file_name now_dir disk = (out_of_fuel, now_dir, disk)
  path_loop is_dir (suc rounds) name file_name now_dir disk =
      take_part is_dir (get_next_part name) file_name now_dir disk (path_loop is_dir rounds)

  -- There is a turn for each byte, and one for the end. `same` tells whether the working directory
  -- `dir` is the root object itself. For the root path only the parameter `file_dir` is set, not
  -- what it points to.
  unfoldable pub find_path : (same : Bool) → (root dir : Dir) → List ℕ → Disk → Ended
  find_path same root dir name disk =
      let absolute = is_absolute name in
      if is_root name
      then (found (b'.' ∷ []) none, root, disk)
      else path_loop (if absolute then same else true) (suc (length name)) name none
          (if absolute then root else dir) disk

  -- From a directory through those of some names, to a tail.
  unfoldable pub walk : (is_dir : Bool) → Dir → List (List ℕ) → List ℕ → Disk → Ended
  walk is_dir now_dir [] tail disk = (found tail (some now_dir), now_dir, disk)
  walk is_dir now_dir (s ∷ names) tail disk =
      look_up is_dir (spdkfs_dir_lookup now_dir s) now_dir disk
        (λ next disk'. walk is_dir next names tail disk')
