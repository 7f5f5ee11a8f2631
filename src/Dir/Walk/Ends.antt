-- ===== src/Dir/Walk/Ends.antt =====
-- The search of a path by `find_path` of simple_fs/dir.c takes no more turns than the path has bytes,
-- and one.
use spdk_blob_top_fs.Prelude.{
  ℕ, zero, suc, ◌<◌, ◌≡◌, ◌≢◌, refl, Bool, Option, none, some, List, [], ◌∷◌, arith, length,
  Bool-cases, inl, inr,
}
use spdk_blob_top_fs.Dir.{Dir, Part, part, end, too_long, get_next_part, spdkfs_dir_lookup}
use spdk_blob_top_fs.Dir.Path.{rest_shorter}
use spdk_blob_top_fs.Dir.Walk.{
  out_of_fuel, Ended, is_root, enter, look_up, take_part, path_loop, find_path,
}

module _ {Disk : Type 0} (close_dir : Disk → Dir → Disk)
    (open_dir : Disk → Dir → (blob_id : ℕ) → Option Dir × Disk) where
  abbrev Ends : Ended close_dir open_dir → Type 0
  Ends r = r.0 ≢ out_of_fuel

  enter-Ends :
      (now_dir : Dir) (o : Option Dir × Disk) (go : Dir → Disk → Ended close_dir open_dir)
      → ((d : Dir) (disk : Disk) → Ends (go d disk))
      → Ends (enter close_dir open_dir now_dir o go)
  enter-Ends now_dir (none, disk) go h = λ f. cc
  enter-Ends now_dir (some d, disk) go h = h d disk

  look_up-Ends :
      (is_dir : Bool) (o : Option ℕ) (now_dir : Dir) (disk : Disk)
      (go : Dir → Disk → Ended close_dir open_dir)
      → ((d : Dir) (disk : Disk) → Ends (go d disk))
      → Ends (look_up close_dir open_dir is_dir o now_dir disk go)
  look_up-Ends is_dir none now_dir disk go h = λ f. cc
  look_up-Ends is_dir (some i) now_dir disk go h = enter-Ends now_dir _ go h

  take_part-Ends :
      (is_dir : Bool) (name : List ℕ) (p : Part) (file_name : Option (List ℕ)) (now_dir : Dir)
      (disk : Disk) (go : List ℕ → Option (List ℕ) → Dir → Disk → Ended close_dir open_dir)
      → get_next_part name ≡ p
      → ((rest : List ℕ) (f : Option (List ℕ)) (d : Dir) (disk : Disk)
          → length rest < length name
          → Ends (go rest f d disk))
      → Ends (take_part close_dir open_dir is_dir p file_name now_dir disk go)
  take_part-Ends is_dir name end none d disk go e h = λ f. cc
  take_part-Ends is_dir name end (some s) d disk go e h = λ f. cc
  take_part-Ends is_dir name too_long file_name d disk go e h = λ f. cc
  take_part-Ends is_dir name (part s []) file_name d disk go e h = λ f. cc
  take_part-Ends is_dir name (part s (c ∷ rest)) file_name d disk go e h =
      look_up-Ends is_dir (spdkfs_dir_lookup d s) d disk _
        (λ d' disk'. h (c ∷ rest) (some s) d' disk' (rest_shorter name s (c ∷ rest) e))

  path_loop-Ends :
      (is_dir : Bool) (rounds : ℕ) (name : List ℕ) (file_name : Option (List ℕ)) (now_dir : Dir)
      (disk : Disk)
      → length name < rounds
      → Ends (path_loop close_dir open_dir is_dir rounds name file_name now_dir disk)
  unfolding path_loop
  path_loop-Ends is_dir zero name file_name d disk lt = absurd (omega arith)
  path_loop-Ends is_dir (suc rounds) name file_name d disk lt =
      take_part-Ends is_dir name (get_next_part name) file_name d disk
        (path_loop close_dir open_dir is_dir rounds) refl
        (λ rest f d' disk' shorter. path_loop-Ends is_dir rounds rest f d' disk' (omega arith))

  -- For every path, from any directories and on any disk, `find_path` ends within as many turns as
  -- the path has bytes, and one.
  pub find_path-ends :
      (same : Bool) (root dir : Dir) (name : List ℕ) (disk : Disk)
      → (find_path close_dir open_dir same root dir name disk).0 ≢ out_of_fuel
  unfolding find_path
  find_path-ends same root dir name disk = elim (Bool-cases (is_root name)) [
    | inl here ↦ rw here (λ f. cc)
    | inr below ↦ rw below (path_loop-Ends _ (suc (length name)) name none _ disk (omega arith))
  ]
