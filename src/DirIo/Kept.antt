-- ===== src/DirIo/Kept.antt =====
-- A directory that is closed and loaded again (simple_fs/dir.c, simple_fs/super.c).
use spdk_blob_top_fs.Prelude.{
  ℕ, zero, suc, ◌+◌, ◌-◌, ◌*◌, ◌/◌, ◌%◌, ◌^◌, ◌≤◌, ◌<◌, ◌≡◌, refl, sym, ap, ◌∙◌, Bool, true, false,
  some, arith, ltb, ◌==◌, if◌then◌else◌, Bool-cases, inl, inr,
}
use spdk_blob_top_fs.Dir.{Dirent, Dir, remove_dirent}
use spdk_blob_top_fs.Dir.View.{view, entries-same}
use spdk_blob_top_fs.Dir.Room.{HasRoom, entries_fit}
use spdk_blob_top_fs.DirIo.{
  DirPersist, DirStore, upper_div64, persist_of, read_dirents, simple_dir_read, read_found,
  write_dirents, fit_blob, simple_dir_close, simple_dir_create, load_root,
}
use native.Mathlib.Nat.{suc-mul, mul-add-div_right, div-eq_of_lt, div-add-mod', mod-lt}

-- What the code relies on: within the clusters, what was written is read again; a resize gives the
-- clusters; an attribute is found again, and changes neither the entries nor the clusters.
pub record DirDisk (S : DirStore) : Type 0 where
  pub read_write :
      (b : S.Blob) (n : ℕ) (e : ℕ → Dirent) (i : ℕ)
      → n * S.io_unit ≤ S.num_clusters b * S.cluster_size
      → (i + 1) * 520 ≤ n * S.io_unit
      → (S.read (S.write b n e).1 n).1 i ≡ e i
  pub write_clusters :
      (b : S.Blob) (n : ℕ) (e : ℕ → Dirent) → S.num_clusters (S.write b n e).1 ≡ S.num_clusters b
  pub resize_clusters : (b : S.Blob) (n : ℕ) → S.num_clusters (S.resize b n).1 ≡ n
  pub get_set_xattr : (b : S.Blob) (p : DirPersist) → S.get_xattr (S.set_xattr b p) ≡ some p
  pub read_set_xattr :
      (b : S.Blob) (p : DirPersist) (n : ℕ) → S.read (S.set_xattr b p) n ≡ S.read b n
  pub xattr_clusters :
      (b : S.Blob) (p : DirPersist) → S.num_clusters (S.set_xattr b p) ≡ S.num_clusters b

units_of : (q c : ℕ) → 0 < c → 0 < q * c → q * c < 2 ^ 64 → upper_div64 (q * c) c ≡ q
units_of zero c pos some_size small = absurd (omega arith)
units_of (suc p) c pos some_size small =
    let less : (suc p * c + 2 ^ 64 - 1) % 2 ^ 64 ≡ p * c + (c - 1) = omega (arith, suc-mul p c) in
    rw (less, mul-add-div_right {m = c} pos p (c - 1), div-eq_of_lt (c-1-lt c pos)) (omega arith)
  where
    c-1-lt : (c : ℕ) → 0 < c → c - 1 < c
    c-1-lt c pos = omega arith

covered64 : (size c : ℕ) → 0 < c → 0 < size → size < 2 ^ 64 → size ≤ upper_div64 size c * c
covered64 size c pos some_size small =
    let less : (size + 2 ^ 64 - 1) % 2 ^ 64 ≡ size - 1 = omega arith in
    let q = (size - 1) / c in
    rw (less) (omega (arith, suc-mul q c, div-add-mod' (size - 1) c, mod-lt (size - 1) pos))

factor_pos : (a b : ℕ) → 0 < a * b → 0 < a
factor_pos zero b h = absurd (omega arith)
factor_pos (suc a) b h = omega arith

mod_above : (a b : ℕ) → ltb (a % 2 ^ 64) b ≡ false → b ≤ a
mod_above a b h = ground arith

module _ {S : DirStore} (K : DirDisk S) (large : 520 ≤ S.io_unit) (pos : 0 < S.cluster_size) where
  open S use {Blob, io_unit, cluster_size}

  fit_blob-capacity :
      (blob : S.Blob) (dir : Dir)
      → 0 < dir.d_size
      → dir.d_size < 2 ^ 64
      → dir.d_size ≤ S.num_clusters (fit_blob S blob dir) * cluster_size
  unfolding fit_blob
  fit_blob-capacity blob dir some_size small =
      elim (Bool-cases (ltb (S.num_clusters blob * cluster_size % 2 ^ 64) dir.d_size)) [
        | inl h ↦
            rw (h, K.resize_clusters blob _) (covered64 dir.d_size cluster_size pos some_size small)
        | inr h ↦ rw (h) (mod_above _ _ h)
      ]

  -- The blob of a dirty directory, once it is closed.
  abbrev closed_blob : S.Blob → Dir → S.Blob
  closed_blob blob dir = S.set_xattr (write_dirents S (fit_blob S blob dir) dir) (persist_of dir)

  close-dirty :
      (blob : S.Blob) (dir : Dir)
      → dir.dirty ≡ true
      → simple_dir_close S blob dir ≡ closed_blob blob dir
  unfolding simple_dir_close
  close-dirty blob dir dirty = ap (λ (b : Bool). if b then closed_blob blob dir else blob) dirty

  read-closed :
      (blob : S.Blob) (dir : Dir)
      → simple_dir_read S (closed_blob blob dir)
        ≡ some (read_dirents S (closed_blob blob dir) (persist_of dir))
  unfolding simple_dir_read
  read-closed blob dir = ap (read_found S (closed_blob blob dir)) (K.get_set_xattr _ _)

  closed_clusters :
      (blob : S.Blob) (dir : Dir)
      → S.num_clusters (closed_blob blob dir) ≡ S.num_clusters (fit_blob S blob dir)
  unfolding write_dirents
  closed_clusters blob dir = K.xattr_clusters _ _ ∙ K.write_clusters _ _ _

  closed_product :
      (blob : S.Blob) (dir : Dir)
      → S.num_clusters (closed_blob blob dir) * cluster_size
        ≡ S.num_clusters (fit_blob S blob dir) * cluster_size
  closed_product blob dir = ap (λ (n : ℕ). n * cluster_size) (closed_clusters blob dir)

  load-closed :
      (blob : S.Blob) (dir : Dir) (stale : ℕ → Dirent)
      → 0 < S.num_clusters (closed_blob blob dir)
      → load_root S (closed_blob blob dir) stale ≡ simple_dir_read S (closed_blob blob dir)
  unfolding load_root
  load-closed blob dir stale some_clusters =
      let used : (S.num_clusters (closed_blob blob dir) == 0) ≡ false = ground arith in
      ap
        (λ (b : Bool).
          if b
          then some (simple_dir_create S (closed_blob blob dir) stale).1
          else simple_dir_read S (closed_blob blob dir))
        used

  -- The entries that a read of the closed blob gives.
  view-closed :
      (blob : S.Blob) (dir : Dir)
      → HasRoom io_unit dir
      → 0 < dir.d_size
      → dir.d_size < 2 ^ 64
      → view (read_dirents S (closed_blob blob dir) (persist_of dir)) ≡ view dir
  unfolding view read_dirents write_dirents
  view-closed blob dir room some_size small =
      let n = upper_div64 dir.d_size io_unit in
      let fitted = fit_blob S blob dir in
      let exact : n * io_unit ≡ dir.d_size =
        ap (λ (d : ℕ). upper_div64 d io_unit * io_unit) room.size
        ∙ ap (λ (q : ℕ). q * io_unit)
            (units_of room.units io_unit (omega arith) (omega (arith, room.size))
              (omega (arith, room.size)))
        ∙ sym room.size in
      entries-same dir.d_dirent_count 0 _ dir.dirents (λ j ge lt.
        ap (λ (r : Bool × (ℕ → Dirent)). r.1 j) (K.read_set_xattr _ _ n)
        ∙ K.read_write fitted n dir.dirents j
            (omega (arith, exact, fit_blob-capacity blob dir some_size small))
            (omega (arith, exact, entries_fit io_unit dir large room)))

  -- On a store that reads what was written within the clusters and resizes blobs, with an io unit
  -- of at least 520 bytes and a cluster size above 0: a dirty directory with an entry, room for
  -- its entries and a buffer below 2^64 bytes, closed and loaded again as the root, is the same
  -- list of entries in a buffer of the same size, and is not dirty.
  pub load-close :
      (blob : S.Blob) (dir : Dir) (stale : ℕ → Dirent)
      → HasRoom io_unit dir
      → dir.dirty ≡ true
      → 0 < dir.d_dirent_count
      → dir.d_size < 2 ^ 64
      → (dir' : Dir) × (load_root S (simple_dir_close S blob dir) stale ≡ some dir')
        × (view dir' ≡ view dir)
        × (dir'.d_size ≡ dir.d_size)
        × (dir'.dirty ≡ false)
  unfolding read_dirents
  load-close blob dir stale room dirty filled small =
      let some_size : 0 < dir.d_size = omega (arith, entries_fit io_unit dir large room) in
      let capacity = fit_blob-capacity blob dir some_size small in
      let some_clusters : 0 < S.num_clusters (closed_blob blob dir) =
        factor_pos _ cluster_size (omega (arith, closed_product blob dir, capacity)) in
      (
        read_dirents S (closed_blob blob dir) (persist_of dir),
        ap (λ (b : S.Blob). load_root S b stale) (close-dirty blob dir dirty)
            ∙ load-closed blob dir stale some_clusters
            ∙ read-closed blob dir,
        view-closed blob dir room some_size small,
        refl,
        refl,
      )

-- When an entry is removed from a directory that is not dirty and the directory is closed, the
-- root loads as it did before.
pub removed_unsaved :
    (S : DirStore) (blob : S.Blob) (idx : ℕ) (dir : Dir) (stale : ℕ → Dirent)
    → dir.dirty ≡ false
    → load_root S (simple_dir_close S blob (remove_dirent idx dir)) stale ≡ load_root S blob stale
unfolding simple_dir_close remove_dirent
removed_unsaved S blob idx dir stale clean = rw (clean) refl
