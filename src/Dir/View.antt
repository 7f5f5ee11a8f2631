-- ===== src/Dir/View.antt =====
-- A directory seen as the list of its entries: adding appends, removing erases, and lookup finds
-- the first entry with the name.
use spdk_blob_top_fs.Prelude.{
  ℕ, zero, suc, ◌+◌, ◌-◌, ◌≤◌, ◌<◌, ◌≡◌, refl, sym, ap, ◌∙◌, Option, none, some, List, [], ◌∷◌,
  ◌++◌, arith, ltb, leb, if◌then◌else◌,
}
use spdk_blob_top_fs.Dir.{
  Dirent, Dir, str_eq, lookup_from, spdkfs_dir_lookup, put, shift_loop, remove_dirent,
}

-- The entries from `i` on, as many as `n`.
unfoldable pub entries : (n i : ℕ) → (ℕ → Dirent) → List Dirent
entries zero i d = []
entries (suc n) i d = d i ∷ entries n (suc i) d

unfoldable pub view : Dir → List Dirent
view dir = entries dir.d_dirent_count 0 dir.dirents

-- The list without the entry at a position.
unfoldable pub erase : ℕ → List Dirent → List Dirent
erase i [] = []
erase zero (e ∷ l) = l
erase (suc i) (e ∷ l) = e ∷ erase i l

-- The position of the first entry with a name.
unfoldable pub find_name : ℕ → List ℕ → List Dirent → Option ℕ
find_name i s [] = none
find_name i s (e ∷ l) = if str_eq e.name 0 s then some i else find_name (suc i) s l

lookup_from-find_name :
    (n i : ℕ) (d : ℕ → Dirent) (s : List ℕ) → lookup_from n i d s ≡ find_name i s (entries n i d)
unfolding lookup_from find_name entries
lookup_from-find_name zero i d s = refl
lookup_from-find_name (suc n) i d s = ground (arith, lookup_from-find_name n (suc i) d s)

pub lookup-view : (dir : Dir) (s : List ℕ) → spdkfs_dir_lookup dir s ≡ find_name 0 s (view dir)
unfolding spdkfs_dir_lookup view
lookup-view dir s = lookup_from-find_name dir.d_dirent_count 0 dir.dirents s

pub entries-same :
    (n i : ℕ) (d e : ℕ → Dirent)
    → ((j : ℕ) → i ≤ j → j < i + n → d j ≡ e j)
    → entries n i d ≡ entries n i e
unfolding entries
entries-same zero i d e same = refl
entries-same (suc n) i d e same =
    ground (arith, same i, entries-same n (suc i) d e (λ j a b. same j (omega arith) (omega arith)))

entries-snoc : (n i : ℕ) (d : ℕ → Dirent) → entries (suc n) i d ≡ entries n i d ++ (d (i + n) ∷ [])
unfolding entries
entries-snoc zero i d = ap (λ (e : Dirent). e ∷ []) (ap d (omega arith))
entries-snoc (suc n) i d =
    ap (λ (l : List Dirent). d i ∷ l)
      (entries-snoc n (suc i) d
        ∙ ap (λ (e : Dirent). entries n (suc i) d ++ (e ∷ [])) (ap d (omega arith)))

-- What the removal loop leaves.
shift_loop-get :
    (rounds i j : ℕ) (d : ℕ → Dirent)
    → shift_loop rounds i d j
      ≡ (if leb i j then (if ltb j (i + rounds) then d (suc j) else d j) else d j)
unfolding shift_loop
shift_loop-get zero i j d = ground arith
shift_loop-get (suc rounds) i j d =
    ground (arith, shift_loop-get rounds (suc i) j (put d i (d (suc i))))

entries-shifted :
    (n i : ℕ) (d e : ℕ → Dirent)
    → ((j : ℕ) → i ≤ j → j < i + n → e j ≡ d (suc j))
    → entries n i e ≡ entries n (suc i) d
unfolding entries
entries-shifted zero i d e same = refl
entries-shifted (suc n) i d e same =
    ground
      (arith, same i, entries-shifted n (suc i) d e (λ j a b. same j (omega arith) (omega arith)))

entries-erase :
    (k n i : ℕ) (d e : ℕ → Dirent)
    → k ≤ n
    → ((j : ℕ) → i ≤ j → j < i + n → e j ≡ (if leb (i + k) j then d (suc j) else d j))
    → entries n i e ≡ erase k (entries (suc n) i d)
unfolding entries erase
entries-erase zero n i d e le same = entries-shifted n i d e (λ j a b. same j a b ∙ ground arith)
entries-erase (suc k) zero i d e le same = absurd (omega arith)
entries-erase (suc k) (suc n) i d e le same =
    let rest =
      entries-erase k n (suc i) d e (omega arith)
        (λ j a b. same j (omega arith) (omega arith) ∙ ground arith) in
    ground (arith, same i, rest)

-- Seen as the list of its entries, a directory from which the entry at a position below the count
-- is removed is the list without the element at that position.
pub view-remove :
    (idx : ℕ) (dir : Dir)
    → idx < dir.d_dirent_count
    → view (remove_dirent idx dir) ≡ erase idx (view dir)
unfolding view remove_dirent
view-remove idx dir lt =
    let n = dir.d_dirent_count - 1 in
    let count : dir.d_dirent_count ≡ suc n = omega arith in
    let moved = shift_loop (n - idx) idx dir.dirents in
    entries-erase idx n 0 dir.dirents moved (omega arith)
      (λ j a b. shift_loop-get (n - idx) idx j dir.dirents ∙ ground arith)
    ∙ ap (λ (t : ℕ). erase idx (entries t 0 dir.dirents)) (sym count)

pub put_above :
    (n : ℕ) (d : ℕ → Dirent) (e : Dirent)
    → entries (suc n) 0 (put d n e) ≡ entries n 0 d ++ (e ∷ [])
put_above n d e =
    let here : put d n e (0 + n) ≡ e = ground arith in
    entries-snoc n 0 (put d n e)
    ∙ ap (λ (x : Dirent). entries n 0 (put d n e) ++ (x ∷ [])) here
    ∙ ap (λ (l : List Dirent). l ++ (e ∷ []))
        (entries-same n 0 (put d n e) d (λ j a b. ground arith))
