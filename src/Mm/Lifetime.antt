-- ===== src/Mm/Lifetime.antt =====
-- A buffer of spdk_fs/io_mm.c from `spdkfs_malloc` to `spdkfs_free`.
use spdk_blob_top_fs.Prelude.{
  ℕ, ◌%◌, ◌^◌, ◌<◌, ◌≡◌, sym, subst, ◌∙◌, ◌≢◌, false, arith, none, List, [], ◌∷◌, inl, inr,
}
use spdk_blob_top_fs.Prelude.Map.{KeyTable}
use spdk_blob_top_fs.Mm.{
  Call, spdk_malloc, spdk_free, done, abort, Mm, spdkfs_mm_find, spdkfs_malloc, spdkfs_free,
}
use spdk_blob_top_fs.Mm.Consistent.{IsConsistent, find-lookup}
use spdk_blob_top_fs.Mm.Alloc.{IsTracked, malloc-IsTracked}
use spdk_blob_top_fs.Mm.Release.{free-IsReleased}

done≢abort : {S : Type 0} {r : ℕ} {cs : List Call} {s : S} → done r cs s ≢ abort
done≢abort e = cc

done-injective : {S : Type 0} {r : ℕ} {cs : List Call} {s t : S} → done r cs s ≡ done r cs t → s ≡ t
done-injective e = cc

module _ (T : KeyTable ℕ) where
  open T use {Table, lookup, insert, delete}

  released :
      (s s1 : Mm T) (mem : ℕ)
      → IsConsistent T s
      → mem < 2 ^ 64
      → lookup s.spdk_mem_root mem ≡ none
      → IsTracked T s mem s1
      → (s2 : Mm T) × (spdkfs_free T s1 mem ≡ (spdk_free mem ∷ [], s2))
        × IsConsistent T s2
        × ((q : ℕ) → q < 2 ^ 64 → spdkfs_mm_find T s2 q ≡ spdkfs_mm_find T s q)
  released s s1 mem c small fresh t =
      let before : spdkfs_mm_find T s mem ≡ false = ground (arith, find-lookup T s mem c small) in
      let (s2, freed, r) =
        free-IsReleased T s1 mem t.consistent small (ground (arith, t.found mem small)) in
      (s2, freed, r.consistent, λ q hq. ground (arith, r.found q hq, t.found q hq))

  -- In a consistent state, a buffer that `spdkfs_malloc` took from SPDK (not NULL, below 2^64, not
  -- tracked before) goes back to SPDK in `spdkfs_free`, in a consistent state with the same
  -- buffers tracked as before both calls.
  malloc-free :
      (user mem size : ℕ) (s s1 : Mm T)
      → IsConsistent T s
      → size % 4096 ≡ 0
      → mem ≢ 0
      → mem < 2 ^ 64
      → lookup s.spdk_mem_root mem ≡ none
      → spdkfs_malloc T user mem s size ≡ done mem (spdk_malloc size ∷ []) s1
      → (s2 : Mm T) × (spdkfs_free T s1 mem ≡ (spdk_free mem ∷ [], s2))
        × IsConsistent T s2
        × ((q : ℕ) → q < 2 ^ 64 → spdkfs_mm_find T s2 q ≡ spdkfs_mm_find T s q)
  malloc-free user mem size s s1 c whole ne small fresh got =
      elim (malloc-IsTracked T user mem size s c whole ne small fresh) [
        | inl (e, _) ↦ absurd (done≢abort (sym got ∙ e))
        | inr (t, e, tracked) ↦
            let same : t ≡ s1 = done-injective (sym e ∙ got) in
            released s s1 mem c small fresh (subst (IsTracked T s mem) same tracked)
      ]
