-- ===== src/Dir/Walk/Named.antt =====
-- `find_path` of simple_fs/dir.c on a path of names.
use mathlib.Core.List.{append-nil}
use mathlib.Core.Path.{fun_ext}
use spdk_blob_top_fs.Prelude.{
  ℕ, zero, suc, ◌≤◌, ◌<◌, ◌≡◌, ◌≢◌, refl, sym, ap, ◌∙◌, Bool, true, false, Option, none, some, List,
  [], ◌∷◌, ◌++◌, arith, if◌then◌else◌, length, length-append, replicate, leb,
}
use spdk_blob_top_fs.Dir.{Dir, part, too_long, get_next_part, spdkfs_dir_lookup}
use spdk_blob_top_fs.Dir.Path.{IsPlain, IsStop, stop_end, stop_slash, get_next_part_lem}
use spdk_blob_top_fs.Dir.Walk.{
  Ended, is_root, is_absolute, take_part, look_up, path_loop, find_path, walk,
}

-- A name of a path: not empty, of at most 512 bytes that are no slashes.
abbrev pub IsName : List ℕ → Type 0
IsName [] = ⊥
IsName (c ∷ s) = IsPlain (c ∷ s) × (length (c ∷ s) ≤ 512)

abbrev pub AllNames : List (List ℕ) → Type 0
AllNames [] = Unit
AllNames (s ∷ names) = IsName s × AllNames names

-- The names and the tail, with slashes between them.
abbrev pub join : List (List ℕ) → List ℕ → List ℕ
join [] tail = tail
join (s ∷ names) tail = s ++ (b'/' ∷ join names tail)

next_name :
    (k : ℕ) (s rest : List ℕ)
    → IsName s
    → IsStop rest
    → get_next_part (replicate k b'/' ++ (s ++ rest)) ≡ part s rest
next_name k [] rest n stop = elim n [ ]
next_name k (c ∷ s) rest n stop =
    let fits : leb (length (c ∷ s)) 512 ≡ true = ground (arith, n.1) in
    get_next_part_lem k c s rest n.0 stop
    ∙ ap (λ (b : Bool). if b then part (c ∷ s) rest else too_long) fits

plain_start :
    (c : ℕ) (s : List ℕ) → c ≢ b'/' → (is_root (c ∷ s) ≡ false) × (is_absolute (c ∷ s) ≡ false)
plain_start c [] ne = ground arith
plain_start c (d ∷ s) ne = ground arith

join-start :
    (names : List (List ℕ)) (tail : List ℕ)
    → AllNames names
    → IsName tail
    → (is_root (join names tail) ≡ false) × (is_absolute (join names tail) ≡ false)
join-start [] [] n t = elim t [ ]
join-start [] (c ∷ s) n t = plain_start c s t.0.0
join-start ([] ∷ names) tail n t = elim n.0 [ ]
join-start ((c ∷ s) ∷ names) tail n t = plain_start c (s ++ (b'/' ∷ join names tail)) n.0.0.0

rooted :
    (names : List (List ℕ)) (tail : List ℕ)
    → AllNames names
    → IsName tail
    → is_root (b'/' ∷ join names tail) ≡ false
rooted [] [] n t = elim t [ ]
rooted [] (c ∷ s) n t = refl
rooted ([] ∷ names) tail n t = elim n.0 [ ]
rooted ((c ∷ s) ∷ names) tail n t = refl

module _ {Disk : Type 0} (close_dir : Disk → Dir → Disk)
    (open_dir : Disk → Dir → (blob_id : ℕ) → Option Dir × Disk) where
  look_up_congr :
      (is_dir : Bool) (o : Option ℕ) (d : Dir) (disk : Disk)
      (go go' : Dir → Disk → Ended close_dir open_dir)
      → ((d : Dir) (disk : Disk) → go d disk ≡ go' d disk)
      → look_up close_dir open_dir is_dir o d disk go
        ≡ look_up close_dir open_dir is_dir o d disk go'
  look_up_congr is_dir o d disk go go' same =
      ap (look_up close_dir open_dir is_dir o d disk) (fun_ext (λ d. fun_ext (same d)))

  path_loop-walk :
      (is_dir : Bool) (names : List (List ℕ)) (tail : List ℕ) (k rounds : ℕ) (f : Option (List ℕ))
      (d : Dir) (disk : Disk)
      → AllNames names
      → IsName tail
      → length (join names tail) < rounds
      → path_loop close_dir open_dir is_dir rounds (replicate k b'/' ++ join names tail) f d disk
        ≡ walk close_dir open_dir is_dir d names tail disk
  unfolding path_loop walk
  path_loop-walk is_dir names tail k zero f d disk n t lt = absurd (omega arith)
  path_loop-walk is_dir [] tail k (suc rounds) f d disk n t lt =
      ap
        (λ p.
          take_part close_dir open_dir is_dir p f d disk
            (path_loop close_dir open_dir is_dir rounds))
        (ap (λ (l : List ℕ). get_next_part (replicate k b'/' ++ l)) (sym (append-nil tail))
          ∙ next_name k tail [] t stop_end)
  path_loop-walk is_dir (s ∷ names) tail k (suc rounds) f d disk n t lt =
      ap
        (λ p.
          take_part close_dir open_dir is_dir p f d disk
            (path_loop close_dir open_dir is_dir rounds))
        (next_name k s (b'/' ∷ join names tail) n.0 (stop_slash (join names tail)))
      ∙ look_up_congr is_dir (spdkfs_dir_lookup d s) d disk _ _ (λ d' disk'.
        path_loop-walk is_dir names tail 1 rounds (some s) d' disk' n.1 t
          (omega (arith, lt, length-append s (b'/' ∷ join names tail))))

  -- For a path that is made of names and a tail with single slashes between them, each of them not
  -- empty, of at most 512 bytes and without slashes, `find_path` does what the walk over the names
  -- does: from the working directory, and with a slash in front from the root. The walk looks each
  -- name up, closes the directory object where it is not the working directory, and opens and
  -- reads the blob of the index into it; it ends where a name is missing or a reading is, and
  -- otherwise gives the tail and the last directory.
  pub find_path-walk :
      (same : Bool) (root dir : Dir) (names : List (List ℕ)) (tail : List ℕ) (disk : Disk)
      → AllNames names
      → IsName tail
      → (find_path close_dir open_dir same root dir (join names tail) disk
          ≡ walk close_dir open_dir true dir names tail disk)
        × (find_path close_dir open_dir same root dir (b'/' ∷ join names tail) disk
            ≡ walk close_dir open_dir same root names tail disk)
  unfolding find_path
  find_path-walk same root dir names tail disk n t =
      let (below, relative) = join-start names tail n t in
      (
        rw (below, relative)
            (path_loop-walk true names tail 0 (suc (length (join names tail))) none dir disk n t
              (omega arith)),
        rw (rooted names tail n t) (
            path_loop-walk same names tail 1 (suc (length (b'/' ∷ join names tail))) none root disk
              n t (omega arith)),
      )
