-- ===== src/Dir/Names.antt =====
-- A directory as a map from names to the ids of blobs: what `add_dirent` and the removal in
-- `monopoly_unlink` (simple_fs/monopoly_ops.c) do to it.
use spdk_blob_top_fs.Prelude.{
  ℕ, zero, suc, ◌+◌, ◌≤◌, ◌<◌, ◌≡◌, ◌≢◌, ◌↔◌, refl, sym, ap, subst, ◌∙◌, Bool, true, false, none,
  some, List, [], ◌∷◌, ◌++◌, arith, if◌then◌else◌, Bool-cases, Option-cases, inl, inr, length,
}
use spdk_blob_top_fs.Dir.{
  Dirent, Dir, str_eq, spdkfs_dir_lookup, copy_name, add_dirent, remove_dirent,
}
use spdk_blob_top_fs.Dir.Name.{IsString, copy_name-str_eq}
use spdk_blob_top_fs.Dir.Room.{HasRoom}
use spdk_blob_top_fs.Dir.Added.{old_name, view-add_dirent}
use spdk_blob_top_fs.Dir.View.{view, erase, find_name, view-remove, lookup-view}
use spdk_blob_top_fs.Dir.Distinct.{
  find_id, id_at, id_of, id_of-view, IsDistinct, IsDistinctList, find_id-found, find_id-absent,
  find_id-erase-none, find_id-erased, find_id-kept,
}

erase-IsDistinct : (k : ℕ) (l : List Dirent) → IsDistinctList l → IsDistinctList (erase k l)
unfolding erase
erase-IsDistinct k [] d = tt
erase-IsDistinct zero (e ∷ l) d = d.1
erase-IsDistinct (suc k) (e ∷ l) d =
    (λ t str same. find_id-erase-none t k l (d.0 t str same), erase-IsDistinct k l d.1)

-- What is new in a list is new in its rest, and is not the name of its first entry.
absent_tail :
    (t : List ℕ) (x : Dirent) (l : List Dirent) → find_id t (x ∷ l) ≡ none → find_id t l ≡ none
unfolding find_id
absent_tail t x l h = ground arith

absent_head :
    (t : List ℕ) (x : Dirent) (l : List Dirent)
    → find_id t (x ∷ l) ≡ none
    → str_eq x.name 0 t ≡ false
unfolding find_id
absent_head t x l h = ground arith

append-IsDistinct :
    (l : List Dirent) (e : Dirent)
    → IsDistinctList l
    → ((t : List ℕ) → IsString t → str_eq e.name 0 t ≡ true → find_id t l ≡ none)
    → IsDistinctList (l ++ (e ∷ []))
unfolding find_id
append-IsDistinct [] e d new = (λ t str same. refl, tt)
append-IsDistinct (x ∷ l) e d new = (
  λ t str same. find_id-absent t l e (d.0 t str same) ∙ elim (Bool-cases (str_eq e.name 0 t)) [
    | inl both ↦ absurd (ground (arith, same, absent_head t x l (new t str both)))
    | inr other ↦ rw (other) refl
  ],
  append-IsDistinct l e d.1 (λ t str same. absent_tail t x l (new t str same)),
)

IsDistinct-of : (dir : Dir) (l : List Dirent) → view dir ≡ l → IsDistinctList l → IsDistinct dir
IsDistinct-of dir l e d = subst IsDistinctList (sym e) d

absent-find_id :
    (dir : Dir) (s : List ℕ) → spdkfs_dir_lookup dir s ≡ none → find_id s (view dir) ≡ none
absent-find_id dir s absent = sym (id_of-view dir s) ∙ ap (id_at dir.dirents) absent

-- The removal of the entry that a lookup of its name found.
module _ (dir : Dir) (idx : ℕ) (s : List ℕ) (str : IsString s) (distinct : IsDistinct dir)
    (lt : idx < dir.d_dirent_count) (found : spdkfs_dir_lookup dir s ≡ some idx) where
  at_idx : find_name 0 s (view dir) ≡ some (0 + idx)
  at_idx = sym (lookup-view dir s) ∙ found ∙ ap some (omega arith)

  -- The name that was removed leads nowhere, and the others to where they led before.
  pub id_of-remove_dirent :
      (id_of (remove_dirent idx dir) s ≡ none)
      × ((t : List ℕ) → IsString t → t ≢ s → id_of (remove_dirent idx dir) t ≡ id_of dir t)
      × IsDistinct (remove_dirent idx dir)
  id_of-remove_dirent = (
    id_of-view (remove_dirent idx dir) s
        ∙ ap (find_id s) (view-remove idx dir lt)
        ∙ find_id-erased s str 0 idx (view dir) distinct at_idx,
    λ t ht ne.
        id_of-view (remove_dirent idx dir) t
        ∙ ap (find_id t) (view-remove idx dir lt)
        ∙ find_id-kept s str t ht ne 0 idx (view dir) at_idx
        ∙ sym (id_of-view dir t),
    IsDistinct-of (remove_dirent idx dir) _ (view-remove idx dir lt)
        (erase-IsDistinct idx (view dir) distinct),
  )

no_id : (id : ℕ) (b : Bool) → b ≢ true → (if b then some id else none) ≡ none
no_id id true ne = absurd (ne refl)
no_id id false ne = refl

-- The addition of an entry with a new name.
module _ (io_unit : ℕ) (large : 520 ≤ io_unit) (first more : ℕ → Dirent) (id : ℕ) (s : List ℕ)
    (dir : Dir) (room : HasRoom io_unit dir) (str : IsString s) (short : length s < 512)
    (ended : old_name io_unit large first more dir (length s) ≡ 0)
    (absent : spdkfs_dir_lookup dir s ≡ none) (distinct : IsDistinct dir) where
  abbrev added : Dirent
  added = record { name = copy_name s (old_name io_unit large first more dir); id = id }

  abbrev new_dir : Dir
  new_dir = add_dirent io_unit first more id s dir

  names_s : (t : List ℕ) → IsString t → (str_eq added.name 0 t ≡ true) ↔ (s ≡ t)
  names_s t ht = copy_name-str_eq s t (old_name io_unit large first more dir) str ht short ended

  seen : (t : List ℕ) → id_of new_dir t ≡ find_id t (view dir ++ (added ∷ []))
  seen t =
      id_of-view new_dir t ∙ ap (find_id t) (view-add_dirent io_unit large first more id s dir room)

  of_other :
      (t : List ℕ)
      → IsString t
      → t ≢ s
      → find_id t (view dir ++ (added ∷ [])) ≡ find_id t (view dir)
  of_other t ht ne = elim (Option-cases (find_id t (view dir))) [
    | inl missing ↦
        find_id-absent t (view dir) added missing
        ∙ no_id added.id (str_eq added.name 0 t) (λ e. ne (sym ((names_s t ht).0 e)))
        ∙ sym missing
    | inr (x, there) ↦ find_id-found t (view dir) added x there ∙ sym there
  ]

  -- As a map from names to ids of blobs: with an io unit of at least 520 bytes and room for the
  -- entries, a name without NUL bytes, below 512 bytes and not in the directory, a 0 byte behind
  -- the name's place in memory, and no entry with a name of a later one: once the entry is added,
  -- the name leads to the id, each other name without NUL bytes leads to where it led before, and
  -- again no entry has a name of a later one.
  pub id_of-add_dirent :
      (id_of new_dir s ≡ some id)
      × ((t : List ℕ) → IsString t → t ≢ s → id_of new_dir t ≡ id_of dir t)
      × IsDistinct new_dir
  id_of-add_dirent = (
    seen s
        ∙ find_id-absent s (view dir) added (absent-find_id dir s absent)
        ∙ ap (λ (b : Bool). if b then some added.id else none) ((names_s s str).1 refl),
    λ t ht ne. seen t ∙ of_other t ht ne ∙ sym (id_of-view dir t),
    IsDistinct-of new_dir _ (view-add_dirent io_unit large first more id s dir room) (
        append-IsDistinct (view dir) added distinct (λ t ht same.
          subst (λ (u : List ℕ). find_id u (view dir) ≡ none) ((names_s t ht).0 same)
            (absent-find_id dir s absent))),
  )
