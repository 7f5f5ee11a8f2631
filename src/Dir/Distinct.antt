-- ===== src/Dir/Distinct.antt =====
-- A directory as a map from names to the ids of blobs: what `add_dirent`, the removal in
-- `monopoly_unlink` and the lookup do to it (simple_fs/monopoly_ops.c, simple_fs/dir.c).
use spdk_blob_top_fs.Prelude.{
  ℕ, zero, suc, ◌+◌, ◌≤◌, ◌≡◌, ◌≢◌, refl, ap, ◌∙◌, true, false, Option, none, some, List, [], ◌∷◌,
  ◌++◌, arith, if◌then◌else◌, Bool-cases, inl, inr,
}
use mathlib.Core.Path.{ap₂}
use spdk_blob_top_fs.Dir.{Dirent, Dir, str_eq, lookup_from, spdkfs_dir_lookup}
use spdk_blob_top_fs.Dir.Name.{IsString}
use spdk_blob_top_fs.Dir.View.{view, entries, erase, find_name}

-- The id of the first entry with a name.
unfoldable pub find_id : List ℕ → List Dirent → Option ℕ
find_id t [] = none
find_id t (e ∷ l) = if str_eq e.name 0 t then some e.id else find_id t l

abbrev pub id_at : (ℕ → Dirent) → Option ℕ → Option ℕ
id_at dirents none = none
id_at dirents (some k) = some (dirents k).id

-- The blob that a name leads to.
abbrev pub id_of : Dir → List ℕ → Option ℕ
id_of dir t = id_at dir.dirents (spdkfs_dir_lookup dir t)

-- No entry has a name of a later one.
abbrev pub IsDistinctList : List Dirent → Type 0
IsDistinctList [] = Unit
IsDistinctList (e ∷ l) =
    ((t : List ℕ) → IsString t → str_eq e.name 0 t ≡ true → find_id t l ≡ none) × IsDistinctList l

abbrev pub IsDistinct : Dir → Type 0
IsDistinct dir = IsDistinctList (view dir)

-- Two strings at the same place are the same.
str_eq_unique :
    (bytes : ℕ → ℕ) (i : ℕ) (s t : List ℕ)
    → IsString s
    → IsString t
    → str_eq bytes i s ≡ true
    → str_eq bytes i t ≡ true
    → s ≡ t
unfolding str_eq
str_eq_unique bytes i [] [] hs ht es et = refl
str_eq_unique bytes i [] (d ∷ t) hs ht es et = absurd (ground (arith, ht.0))
str_eq_unique bytes i (c ∷ s) [] hs ht es et = absurd (ground (arith, hs.0))
str_eq_unique bytes i (c ∷ s) (d ∷ t) hs ht es et =
    ap₂ (λ (x : ℕ) (l : List ℕ). x ∷ l) (ground arith)
      (str_eq_unique bytes (suc i) s t hs.1 ht.1 (ground arith) (ground arith))

find_id-entries :
    (n i : ℕ) (d : ℕ → Dirent) (t : List ℕ)
    → id_at d (lookup_from n i d t) ≡ find_id t (entries n i d)
unfolding lookup_from find_id entries
find_id-entries zero i d t = refl
find_id-entries (suc n) i d t = elim (Bool-cases (str_eq (d i).name 0 t)) [
  | inl here ↦ rw (here) refl
  | inr later ↦ rw (later) (find_id-entries n (suc i) d t)
]

pub id_of-view : (dir : Dir) (t : List ℕ) → id_of dir t ≡ find_id t (view dir)
unfolding spdkfs_dir_lookup view
id_of-view dir t = find_id-entries dir.d_dirent_count 0 dir.dirents t

pub find_id-found :
    (t : List ℕ) (l : List Dirent) (e : Dirent) (x : ℕ)
    → find_id t l ≡ some x
    → find_id t (l ++ (e ∷ [])) ≡ some x
unfolding find_id
find_id-found t [] e x h = absurd cc
find_id-found t (y ∷ l) e x h = ground (arith, find_id-found t l e x)

pub find_id-absent :
    (t : List ℕ) (l : List Dirent) (e : Dirent)
    → find_id t l ≡ none
    → find_id t (l ++ (e ∷ [])) ≡ (if str_eq e.name 0 t then some e.id else none)
unfolding find_id
find_id-absent t [] e h = refl
find_id-absent t (y ∷ l) e h = ground (arith, find_id-absent t l e)

pub find_id-erase-none :
    (t : List ℕ) (k : ℕ) (l : List Dirent) → find_id t l ≡ none → find_id t (erase k l) ≡ none
unfolding find_id erase
find_id-erase-none t k [] h = refl
find_id-erase-none t zero (e ∷ l) h = ground arith
find_id-erase-none t (suc k) (e ∷ l) h = ground (arith, find_id-erase-none t k l)

find_name-first :
    (i k : ℕ) (s : List ℕ) (e : Dirent) (l : List Dirent)
    → find_name i s (e ∷ l) ≡ some k
    → str_eq e.name 0 s ≡ true
    → i ≡ k
unfolding find_name
find_name-first i k s e l h here = ground arith

find_name-next :
    (i k : ℕ) (s : List ℕ) (e : Dirent) (l : List Dirent)
    → find_name i s (e ∷ l) ≡ some k
    → str_eq e.name 0 s ≡ false
    → find_name (suc i) s l ≡ some k
unfolding find_name
find_name-next i k s e l h later = ground arith

find_name-after : (i k : ℕ) (s : List ℕ) (l : List Dirent) → find_name i s l ≡ some k → i ≤ k
unfolding find_name
find_name-after i k s [] h = absurd cc
find_name-after i k s (e ∷ l) h = elim (Bool-cases (str_eq e.name 0 s)) [
  | inl here ↦ omega (arith, find_name-first i k s e l h here)
  | inr later ↦ omega (arith, find_name-after (suc i) k s l (find_name-next i k s e l h later))
]

-- The list without the first entry that has the name `s`, at position `k`.
module _ (s : List ℕ) (hs : IsString s) where
  pub find_id-erased :
      (i k : ℕ) (l : List Dirent)
      → IsDistinctList l
      → find_name i s l ≡ some (i + k)
      → find_id s (erase k l) ≡ none
  unfolding find_name find_id erase
  find_id-erased i k [] d h = absurd cc
  find_id-erased i zero (e ∷ l) d h = elim (Bool-cases (str_eq e.name 0 s)) [
    | inl here ↦ d.0 s hs here
    | inr later ↦ absurd (
        omega (arith, find_name-after (suc i) (i + 0) s l (find_name-next i (i + 0) s e l h later)))
  ]
  find_id-erased i (suc k) (e ∷ l) d h = elim (Bool-cases (str_eq e.name 0 s)) [
    | inl here ↦ absurd (omega (arith, find_name-first i (i + suc k) s e l h here))
    | inr later ↦ rw (later) (
        find_id-erased (suc i) k l d.1
          (find_name-next i (i + suc k) s e l h later ∙ ap some (omega arith)))
  ]

  pub find_id-kept :
      (t : List ℕ)
      → IsString t
      → t ≢ s
      → (i k : ℕ) (l : List Dirent) → find_name i s l ≡ some (i + k)
      → find_id t (erase k l) ≡ find_id t l
  unfolding find_name find_id erase
  find_id-kept t ht ne i k [] h = refl
  find_id-kept t ht ne i zero (e ∷ l) h = elim (Bool-cases (str_eq e.name 0 s)) [
    | inl here ↦ elim (Bool-cases (str_eq e.name 0 t)) [
      | inl both ↦ absurd (ne (str_eq_unique e.name 0 t s ht hs both here))
      | inr other ↦ rw (other) refl
    ]
    | inr later ↦ absurd (
        omega (arith, find_name-after (suc i) (i + 0) s l (find_name-next i (i + 0) s e l h later)))
  ]
  find_id-kept t ht ne i (suc k) (e ∷ l) h = elim (Bool-cases (str_eq e.name 0 s)) [
    | inl here ↦ absurd (omega (arith, find_name-first i (i + suc k) s e l h here))
    | inr later ↦
        ap (λ (r : Option ℕ). if str_eq e.name 0 t then some e.id else r)
          (find_id-kept t ht ne (suc i) k l
            (find_name-next i (i + suc k) s e l h later ∙ ap some (omega arith)))
  ]
