-- ===== src/Dir/Added.antt =====
-- A directory after `add_dirent` of simple_fs/monopoly_ops.c.
use spdk_blob_top_fs.Prelude.{
  ℕ, zero, suc, ◌+◌, ◌*◌, ◌/◌, ◌≤◌, ◌<◌, ◌≡◌, ◌≢◌, refl, sym, ap, ◌∙◌, true, none, some, List, [],
  ◌∷◌, ◌++◌, arith, ◌==◌, leb, if◌then◌else◌, Bool-cases, inl, inr, length,
}
use spdk_blob_top_fs.Dir.{
  Dirent, Dir, str_eq, copy_name, put, realloc, spdkfs_dir_lookup, first_unit, next_unit, prepare,
  append_dirent, add_dirent,
}
use spdk_blob_top_fs.Dir.Name.{IsString, copy_name-str_eq, copy_name_stale}
use spdk_blob_top_fs.Dir.Room.{HasRoom, entries_fit, le-mul, first_unit-HasRoom}
use spdk_blob_top_fs.Dir.View.{view, entries, find_name, put_above, entries-same, lookup-view}

length-entries : (n i : ℕ) (d : ℕ → Dirent) → length (entries n i d) ≡ n
unfolding entries
length-entries zero i d = refl
length-entries (suc n) i d = ap suc (length-entries n (suc i) d)

find_name-append :
    (i : ℕ) (t : List ℕ) (l : List Dirent) (e : Dirent)
    → find_name i t l ≡ none
    → find_name i t (l ++ (e ∷ [])) ≡ (if str_eq e.name 0 t then some (i + length l) else none)
unfolding find_name
find_name-append i t [] e h = ground (arith)
find_name-append i t (x ∷ l) e h = ground (arith, find_name-append (suc i) t l e)

view-dirty : (dir : Dir) → view (record dir { dirty = true }) ≡ view dir
unfolding view
view-dirty dir = refl

module _ (io_unit : ℕ) (large : 520 ≤ io_unit) (first more : ℕ → Dirent) where
  -- What the first test leaves: the same entries, in a buffer with room for them.
  first_unit-view :
      (dir : Dir)
      → HasRoom io_unit dir
      → (view (first_unit io_unit first more dir) ≡ view dir)
        × ((first_unit io_unit first more dir).d_dirent_count ≡ dir.d_dirent_count)
  unfolding first_unit view entries
  first_unit-view dir r = elim (Bool-cases (dir.d_size == 0)) [
    | inl empty ↦
        let few : dir.d_dirent_count ≡ 0 =
          ground (arith, r.size, r.enough, le-mul r.units io_unit (omega arith)) in
        rw (empty, few) (refl, refl)
    | inr has ↦ rw has (refl, refl)
  ]

  next_unit-view :
      (dir : Dir)
      → HasRoom io_unit dir
      → (view (next_unit io_unit first more dir) ≡ view dir)
        × ((next_unit io_unit first more dir).d_dirent_count ≡ dir.d_dirent_count)
  unfolding next_unit view
  next_unit-view dir r = elim (Bool-cases (leb (dir.d_size / io_unit) (dir.d_dirent_count * 520))) [
    | inl tight ↦ rw tight (
      entries-same dir.d_dirent_count 0 (realloc dir.d_size dir.dirents more) dir.dirents
          (λ j a b. ground (arith, entries_fit io_unit dir large r)),
      refl,
    )
    | inr spare ↦ rw spare (refl, refl)
  ]

  prepare-view :
      (dir : Dir)
      → HasRoom io_unit dir
      → (view (prepare io_unit first more dir) ≡ view dir)
        × ((prepare io_unit first more dir).d_dirent_count ≡ dir.d_dirent_count)
  unfolding prepare
  prepare-view dir r =
      let marked : Dir = record dir { dirty = true } in
      let r' : HasRoom io_unit marked = record {
        units = r.units;
        size = r.size;
        enough = r.enough;
      } in
      let one = first_unit-view marked r' in
      let two =
        next_unit-view (first_unit io_unit first more marked)
          (first_unit-HasRoom io_unit (omega arith) first more marked r') in
      (two.0 ∙ one.0 ∙ view-dirty dir, two.1 ∙ one.1)

  -- The bytes of the slot that the new entry is written to.
  abbrev pub old_name : Dir → ℕ → ℕ
  old_name dir = ((prepare io_unit first more dir).dirents dir.d_dirent_count).name

  append-view :
      (id : ℕ) (s : List ℕ) (d : Dir)
      → view (append_dirent io_unit first more id s d)
        ≡ view d ++ (record { name = copy_name s (d.dirents d.d_dirent_count).name; id = id } ∷ [])
  unfolding view append_dirent
  append-view id s d =
      let n = d.d_dirent_count in
      let e : Dirent = record { name = copy_name s (d.dirents n).name; id = id } in
      let next : n + 1 ≡ suc n = omega arith in
      ap (λ (t : ℕ). entries t 0 (put d.dirents n e)) next ∙ put_above n d.dirents e

  -- With an io unit of at least 520 bytes and room for the entries, seen as the list of its
  -- entries, a directory to which an entry is added is the list with that entry at the end, whose
  -- name is the given one copied over the old bytes of its place.
  pub view-add_dirent :
      (id : ℕ) (s : List ℕ) (dir : Dir)
      → HasRoom io_unit dir
      → view (add_dirent io_unit first more id s dir)
        ≡ view dir ++ (record { name = copy_name s (old_name dir); id = id } ∷ [])
  unfolding add_dirent
  view-add_dirent id s dir r =
      let p = prepare io_unit first more dir in
      let same = prepare-view dir r in
      let entry : ℕ → Dirent = λ n. record { name = copy_name s (p.dirents n).name; id = id } in
      append-view id s p
      ∙ ap (λ (l : List Dirent). l ++ (entry p.d_dirent_count ∷ [])) same.0
      ∙ ap (λ (n : ℕ). view dir ++ (entry n ∷ [])) same.1

  put_here : (d : ℕ → Dirent) (n : ℕ) (e : Dirent) → (put d n e n).id ≡ e.id
  put_here d n e = ground arith

  pub added_id :
      (id : ℕ) (s : List ℕ) (dir : Dir)
      → HasRoom io_unit dir
      → ((add_dirent io_unit first more id s dir).dirents dir.d_dirent_count).id ≡ id
  unfolding add_dirent append_dirent
  added_id id s dir r =
      let p = prepare io_unit first more dir in
      ap (λ (n : ℕ). ((append_dirent io_unit first more id s p).dirents n).id)
        (sym (prepare-view dir r).1)
      ∙ put_here p.dirents p.d_dirent_count _

  -- What lookup finds for the new name.
  lookup_new :
      (id : ℕ) (s : List ℕ) (dir : Dir)
      → HasRoom io_unit dir
      → spdkfs_dir_lookup dir s ≡ none
      → spdkfs_dir_lookup (add_dirent io_unit first more id s dir) s
        ≡ (if str_eq (copy_name s (old_name dir)) 0 s then some dir.d_dirent_count else none)
  unfolding view
  lookup_new id s dir r absent =
      let e : Dirent = record { name = copy_name s (old_name dir); id = id } in
      let before : find_name 0 s (view dir) ≡ none = sym (lookup-view dir s) ∙ absent in
      let count : 0 + length (view dir) ≡ dir.d_dirent_count =
        omega (arith, length-entries dir.d_dirent_count 0 dir.dirents) in
      lookup-view (add_dirent io_unit first more id s dir) s
      ∙ ap (find_name 0 s) (view-add_dirent id s dir r)
      ∙ find_name-append 0 s (view dir) e before
      ∙ ap (λ (n : ℕ). if str_eq e.name 0 s then some n else none) count

  -- With an io unit of at least 520 bytes and room for the entries, a name without NUL bytes,
  -- below 512 bytes and not in the directory, and a 0 byte behind the name's place in memory: once
  -- the entry is added, a lookup of the name gives the position that was the count.
  pub lookup_added :
      (id : ℕ) (s : List ℕ) (dir : Dir)
      → HasRoom io_unit dir
      → IsString s
      → length s < 512
      → old_name dir (length s) ≡ 0
      → spdkfs_dir_lookup dir s ≡ none
      → spdkfs_dir_lookup (add_dirent io_unit first more id s dir) s ≡ some dir.d_dirent_count
  lookup_added id s dir r str short ended absent = ground (
    arith,
    lookup_new id s dir r absent,
    (copy_name-str_eq s s (old_name dir) str str short ended).1 refl,
  )

  -- With an io unit of at least 520 bytes and room for the entries, a name below 512 bytes and not
  -- in the directory, and a byte other than 0 behind the name's place in memory: once the entry is
  -- added, a lookup of the name still finds nothing.
  lookup_added_stale :
      (id : ℕ) (s : List ℕ) (dir : Dir)
      → HasRoom io_unit dir
      → length s < 512
      → old_name dir (length s) ≢ 0
      → spdkfs_dir_lookup dir s ≡ none
      → spdkfs_dir_lookup (add_dirent io_unit first more id s dir) s ≡ none
  lookup_added_stale id s dir r short stale absent =
      ground (arith, lookup_new id s dir r absent, copy_name_stale s (old_name dir) short stale)
