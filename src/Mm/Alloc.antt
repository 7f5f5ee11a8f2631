-- ===== src/Mm/Alloc.antt =====
-- `spdkfs_malloc` of spdk_fs/io_mm.c.
use spdk_blob_top_fs.Prelude.{
  ℕ, ◌+◌, ◌%◌, ◌^◌, ◌<◌, ◌≡◌, refl, ◌≢◌, ◌⊎◌, true, false, ◌||◌, arith, none, [], ◌∷◌, ◌==◌,
  Option-cases, inl, inr,
}
use spdk_blob_top_fs.Prelude.Map.{KeyTable}
use spdk_blob_top_fs.Mm.{
  u_malloc, spdk_malloc, done, abort, Mm, find_next_entry, spdkfs_mm_find, track, spdkfs_malloc,
}
use spdk_blob_top_fs.Mm.Search.{find_next_entry-some, find_next_entry-none}
use spdk_blob_top_fs.Mm.Consistent.{IsConsistent, track-IsConsistent, find-lookup}

module _ (T : KeyTable ℕ) where
  open T use {Table, lookup, insert, delete}

  -- An SPDK buffer was handed out and is tracked, and nothing else is.
  pub record IsTracked (s : Mm T) (mem : ℕ) (s' : Mm T) : Type 0 where
    pub phase : s'.initialized ≡ s.initialized
    pub consistent : IsConsistent T s'
    pub found : (p : ℕ) → p < 2 ^ 64 → spdkfs_mm_find T s' p ≡ ((mem == p) || spdkfs_mm_find T s p)

  track-IsTracked :
      (s : Mm T) (mem ent : ℕ)
      → IsConsistent T s
      → mem < 2 ^ 64
      → ent < 4095
      → (s.mm_table ent).used ≡ false
      → lookup s.spdk_mem_root mem ≡ none
      → IsTracked s mem (track T s mem ent)
  unfolding track
  track-IsTracked s mem ent c small lt free fresh =
      let c' = track-IsConsistent T s c mem small ent lt free fresh in
      record {
        phase = refl;
        consistent = c';
        found = λ p hp. ground (
          arith,
          find-lookup T s p c hp,
          find-lookup T (track T s mem ent) p c' hp,
          T.lookup-insert s.spdk_mem_root mem p (ent + 996) small hp c.valid fresh,
        );
      }

  -- In a consistent state, `spdkfs_malloc` on a size that is a multiple of 4096, where SPDK
  -- returns a buffer (not NULL, below 2^64, not tracked yet), either ends the program because the
  -- entries below 4095 are all in use, or returns that buffer, with exactly this buffer tracked in
  -- addition, in a consistent state.
  pub malloc-IsTracked :
      (user mem size : ℕ) (s : Mm T)
      → IsConsistent T s
      → size % 4096 ≡ 0
      → mem ≢ 0
      → mem < 2 ^ 64
      → lookup s.spdk_mem_root mem ≡ none
      → ((spdkfs_malloc T user mem s size ≡ abort)
          × ((e : ℕ) → e < 4095 → (s.mm_table e).used ≡ true))
        ⊎ ((s' : Mm T) × (spdkfs_malloc T user mem s size ≡ done mem (spdk_malloc size ∷ []) s')
            × IsTracked s mem s')
  unfolding spdkfs_malloc
  malloc-IsTracked user mem size s c whole ne small fresh =
      elim (Option-cases (find_next_entry 0 s.mm_table)) [
        | inl full ↦
            inl (ground (arith, c.uncounted), λ e he. find_next_entry-none s.mm_table e full he)
        | inr (ent, at) ↦
            let free = find_next_entry-some s.mm_table ent at in
            inr (
              track T s mem ent,
              ground (arith, c.uncounted),
              track-IsTracked s mem ent c small free.0 free.1 fresh,
            )
      ]

  -- Any other size, and SPDK out of memory: the program's own allocator serves, nothing is tracked.
  pub malloc_user :
      (user mem size : ℕ) (s : Mm T)
      → user ≢ 0
      → (size % 4096 ≢ 0) ⊎ (mem ≡ 0)
      → (spdkfs_malloc T user mem s size ≡ done user (u_malloc size ∷ []) s)
        ⊎ (spdkfs_malloc T user mem s size ≡ done user (spdk_malloc size ∷ u_malloc size ∷ []) s)
  unfolding spdkfs_malloc
  malloc_user user mem size s ne why = ground arith
