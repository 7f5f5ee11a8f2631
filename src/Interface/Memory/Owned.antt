-- ===== src/Interface/Memory/Owned.antt =====
-- Which allocator a block comes from and which one it goes back to, over `__spdk_malloc` and
-- `__spdk_free` of simple_fs/interface.c and the memory manager of spdk_fs/io_mm.c.
use spdk_blob_top_fs.Prelude.{
  ℕ, ◌^◌, ◌<◌, ◌≡◌, ◌⊎◌, refl, ap, ◌∙◌, true, false, Option, none, some, List, [], ◌∷◌, arith, ◌==◌,
  if◌then◌else◌, Bool-cases, inl, inr,
}
use spdk_blob_top_fs.Prelude.Map.{KeyTable}
use spdk_blob_top_fs.Mm.{Call, u_free, Mm, boot, spdkfs_mm_init, spdkfs_mm_find, spdkfs_free}
use spdk_blob_top_fs.Mm.Consistent.{
  IsConsistent, boot-IsConsistent, init-IsConsistent, find-boot, find-init,
}
use spdk_blob_top_fs.Mm.Release.{free-IsReleased, free_user}
use spdk_blob_top_fs.Interface.Memory.{free}
use spdk_blob_top_fs.Interface.Memory.World.{
  Owner, program, spdk, owner_of, free_of, is_spdk, own, World, IsNew, Reachable, start, init,
  alloc, release, IsOwned,
}
use spdk_blob_top_fs.Interface.Memory.Allocated.{
  Allocated, from_program, from_spdk, malloc-Allocated,
}

module _ (T : KeyTable ℕ) where
  start-IsOwned : IsOwned T (record { mm = boot T; owner = λ p. none })
  start-IsOwned = record {
    consistent = boot-IsConsistent T;
    tracked = find-boot T;
    late = λ p _ e. cc;
  }

  init-IsOwned :
      (w : World T) → IsOwned T w → IsOwned T (record w { mm = (spdkfs_mm_init T w.mm).1 })
  unfolding spdkfs_mm_init
  init-IsOwned w v = record {
    consistent = init-IsConsistent T w.mm v.consistent;
    tracked = λ p small. find-init T w.mm p ∙ v.tracked p small;
    late = λ p _ _. refl;
  }

  -- The owner of one block is changed.
  changed-IsOwned :
      (w : World T) (mm : Mm T) (p : ℕ) (o : Option Owner)
      → IsOwned T w
      → IsConsistent T mm
      → ((q : ℕ)
          → q < 2 ^ 64
          → spdkfs_mm_find T mm q ≡ (if p == q then is_spdk o else spdkfs_mm_find T w.mm q))
      → (is_spdk o ≡ true → w.mm.initialized ≡ true)
      → mm.initialized ≡ w.mm.initialized
      → IsOwned T (record { mm = mm; owner = own w.owner p o })
  changed-IsOwned w mm p o v consistent found late phase = record {
    consistent = consistent;
    tracked = λ q small. ground (arith, found q small, v.tracked q small);
    late = λ q small e. ground (arith, late, v.late q small);
  }

  alloc-IsOwned :
      (w : World T) (user mem p : ℕ) (calls : List Call) (mm : Mm T)
      → IsOwned T w
      → IsNew T w user
      → (mem ≡ 0) ⊎ IsNew T w mem
      → Allocated T w.mm user mem p calls mm
      → IsOwned T (record { mm = mm; owner = own w.owner p (some (owner_of calls)) })
  alloc-IsOwned w user mem p calls mm v new _ (from_program at o same) =
      rw (same, at, o)
        (changed-IsOwned w w.mm user (some program) v v.consistent
          (λ q small. ground (arith, v.tracked q small, new.not_owned)) (λ e. cc) refl)
  alloc-IsOwned w user mem p calls mm v _ (inl zero_mem) (from_spdk at o ne late t) =
      absurd (ne zero_mem)
  alloc-IsOwned w user mem p calls mm v _ (inr new) (from_spdk at o ne late t) =
      rw (at, o)
        (changed-IsOwned w mm mem (some spdk) v t.consistent
          (λ q small. ground (arith, t.found q small)) (λ _. late) t.phase)

  free_late : (s : Mm T) (p : ℕ) → s.initialized ≡ true → free T s p ≡ spdkfs_free T s p
  unfolding free
  free_late s p late = rw late refl

  free_program : (s : Mm T) (p : ℕ) → spdkfs_mm_find T s p ≡ false → free T s p ≡ (u_free p ∷ [], s)
  unfolding free
  free_program s p untracked = elim (Bool-cases s.initialized) [
    | inl late ↦ free_late s p late ∙ free_user T s p untracked
    | inr early ↦ rw early refl
  ]

  -- A block that is given back goes to its allocator.
  abbrev IsReturned : World T → ℕ → Owner → Type 0
  IsReturned w p o =
      ((free T w.mm p).0 ≡ free_of o p ∷ [])
      × IsOwned T (record { mm = (free T w.mm p).1; owner = own w.owner p none })

  release-IsReturned :
      (w : World T) (p : ℕ) (o : Owner)
      → IsOwned T w
      → p < 2 ^ 64
      → w.owner p ≡ some o
      → IsReturned w p o
  release-IsReturned w p program v small e =
      let untracked = v.tracked p small ∙ ap is_spdk e in
      rw (free_program w.mm p untracked) (
        refl,
        changed-IsOwned w w.mm p none v v.consistent
            (λ q hq. ground (arith, v.tracked q hq, v.tracked p small)) (λ e. cc) refl,
      )
  release-IsReturned w p spdk v small e =
      let tracked = v.tracked p small ∙ ap is_spdk e in
      let late = v.late p small (ap is_spdk e) in
      let (mm, freed, r) = free-IsReleased T w.mm p v.consistent small tracked in
      rw (free_late w.mm p late ∙ freed) (
        refl,
        changed-IsOwned w mm p none v r.consistent (λ q hq. ground (arith, r.found q hq)) (λ e. cc)
            r.phase,
      )

  Reachable-IsOwned : {w : World T} → Reachable T w → IsOwned T w
  Reachable-IsOwned start = start-IsOwned
  Reachable-IsOwned (init {w} r) = init-IsOwned w (Reachable-IsOwned r)
  Reachable-IsOwned (alloc {w} user mem size p calls mm r user_new mem_new got) =
      let v = Reachable-IsOwned r in
      alloc-IsOwned w user mem p calls mm v user_new mem_new
        (malloc-Allocated T w user mem size p calls mm v user_new.not_null got mem_new)
  Reachable-IsOwned (release {w} p o r small e) =
      (release-IsReturned w p o (Reachable-IsOwned r) small e).1

  -- In every state that the start of the program, the initialisation of the memory manager,
  -- allocations by `__spdk_malloc` and releases by `__spdk_free` lead to, in any order, where the
  -- allocators hand out blocks below 2^64 that are not NULL and that the program does not have, or
  -- SPDK none: `__spdk_free` of a block of the program gives it back to the allocator that it came
  -- from, and makes no other call.
  pub free-owner :
      (w : World T) (p : ℕ) (o : Owner)
      → Reachable T w
      → p < 2 ^ 64
      → w.owner p ≡ some o
      → (free T w.mm p).0 ≡ free_of o p ∷ []
  free-owner w p o r small e = (release-IsReturned w p o (Reachable-IsOwned r) small e).0
