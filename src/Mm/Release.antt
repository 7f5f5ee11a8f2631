-- ===== src/Mm/Release.antt =====
-- `spdkfs_free`, `spdkfs_realloc` and `spdkfs_mm_free` of spdk_fs/io_mm.c.
use spdk_blob_top_fs.Prelude.{
  ℕ, zero, suc, ◌-◌, ◌^◌, ◌<◌, ◌≡◌, refl, true, false, not, ◌&&◌, arith, Option, none, some, [],
  ◌∷◌, ◌==◌, if◌then◌else◌, Option-cases, inl, inr,
}
use spdk_blob_top_fs.Prelude.Map.{KeyTable}
use spdk_blob_top_fs.Mm.{
  MmEntry, u_free, spdk_free, spdk_realloc, done, Mm, spdkfs_mm_find, untrack, spdkfs_free,
  spdkfs_realloc, spdkfs_mm_free, free_loop,
}
use spdk_blob_top_fs.Mm.Consistent.{IsConsistent, untrack-IsConsistent, find-lookup}

free_loop-zero : (rounds i : ℕ) (table : ℕ → MmEntry) → free_loop rounds i 0 table ≡ ([], 0)
unfolding free_loop
free_loop-zero zero i table = refl
free_loop-zero (suc rounds) i table = refl

module _ (T : KeyTable ℕ) where
  open T use {Table, lookup, insert, delete}

  -- A tracked buffer goes back to SPDK, and its key and its entry are given up.
  pub record IsReleased (s : Mm T) (p : ℕ) (s' : Mm T) : Type 0 where
    pub phase : s'.initialized ≡ s.initialized
    pub consistent : IsConsistent T s'
    pub found :
        (q : ℕ) → q < 2 ^ 64 → spdkfs_mm_find T s' q ≡ (not (p == q) && spdkfs_mm_find T s q)
    pub entry : (e : ℕ) × (e < 4096) × ((s.mm_table e).used ≡ true) × ((s'.mm_table e).used ≡ false)

  untrack-root : (s : Mm T) (p : Option ℕ × Table) → (untrack T s p).spdk_mem_root ≡ p.1
  unfolding untrack
  untrack-root s (none, root) = refl
  untrack-root s (some v, root) = refl

  untrack-initialized :
      (s : Mm T) (p : Option ℕ × Table) → (untrack T s p).initialized ≡ s.initialized
  unfolding untrack
  untrack-initialized s (none, root) = refl
  untrack-initialized s (some v, root) = refl

  untrack-entry :
      (s : Mm T) (p : Option ℕ × Table) (v e : ℕ)
      → p.0 ≡ some v
      → ((untrack T s p).mm_table e).used ≡ (if v - 996 == e then false else (s.mm_table e).used)
  unfolding untrack
  untrack-entry s (none, root) v e got = cc
  untrack-entry s (some w, root) v e got = ground arith

  free-tracked :
      (s : Mm T) (p : ℕ)
      → spdkfs_mm_find T s p ≡ true
      → spdkfs_free T s p ≡ (spdk_free p ∷ [], untrack T s (delete s.spdk_mem_root p))
  unfolding spdkfs_free
  free-tracked s p tracked = rw tracked

  module _ (s : Mm T) (p : ℕ) (c : IsConsistent T s) (small : p < 2 ^ 64) where
    untrack-IsReleased :
        (v : ℕ)
        → lookup s.spdk_mem_root p ≡ some v
        → IsReleased s p (untrack T s (delete s.spdk_mem_root p))
    untrack-IsReleased v at =
        let c' = untrack-IsConsistent T s c p small v at in
        let here = c.entry_of p v small at in
        record {
          phase = untrack-initialized s (delete s.spdk_mem_root p);
          consistent = c';
          found = λ q hq. ground (
            arith,
            find-lookup T s q c hq,
            find-lookup T (untrack T s (delete s.spdk_mem_root p)) q c' hq,
            untrack-root s (delete s.spdk_mem_root p),
            T.lookup-delete s.spdk_mem_root p q small hq c.valid,
          );
          entry = (
            v - 996,
            here.1,
            here.2,
            ground (
              arith,
              untrack-entry s (delete s.spdk_mem_root p) v (v - 996),
              T.delete_lem s.spdk_mem_root p small c.valid,
            ),
          );
        }

    -- In a consistent state, `spdkfs_free` of a tracked buffer below 2^64 gives it to SPDK, gives
    -- up its entry, leaves exactly the other buffers tracked, in a consistent state.
    pub free-IsReleased :
        spdkfs_mm_find T s p ≡ true
        → (s' : Mm T) × (spdkfs_free T s p ≡ (spdk_free p ∷ [], s')) × IsReleased s p s'
    free-IsReleased tracked = elim (Option-cases (lookup s.spdk_mem_root p)) [
      | inl e ↦ absurd (ground (arith, find-lookup T s p c small))
      | inr (v, e) ↦
          (untrack T s (delete s.spdk_mem_root p), free-tracked s p tracked, untrack-IsReleased v e)
    ]

  -- Any other buffer goes back to the program's own allocator.
  pub free_user :
      (s : Mm T) (p : ℕ) → spdkfs_mm_find T s p ≡ false → spdkfs_free T s p ≡ (u_free p ∷ [], s)
  unfolding spdkfs_free
  free_user s p untracked = rw untracked

  -- A buffer that SPDK moved is not tracked under its new address, and still is under the old one.
  realloc_moved :
      (user mem p size : ℕ) (s : Mm T)
      → spdkfs_mm_find T s p ≡ true
      → spdkfs_mm_find T s mem ≡ false
      → (s' : Mm T) × (spdkfs_realloc T user mem s p size ≡ done mem (spdk_realloc p size ∷ []) s')
        × (spdkfs_free T s' mem ≡ (u_free mem ∷ [], s'))
        × (spdkfs_mm_find T s' p ≡ true)
  unfolding spdkfs_realloc
  realloc_moved user mem p size s tracked moved = (s, ground arith, free_user s mem moved, tracked)

  -- Since nothing raises `mm_table_count`, the release at exit gives nothing back.
  mm_free_nothing : (s : Mm T) → IsConsistent T s → spdkfs_mm_free T s ≡ ([], s)
  unfolding spdkfs_mm_free
  mm_free_nothing s c = ground (arith, c.uncounted, free_loop-zero 4097 0 s.mm_table)
