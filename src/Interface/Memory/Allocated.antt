-- ===== src/Interface/Memory/Allocated.antt =====
-- What `__spdk_malloc` of simple_fs/interface.c comes to, by the state of the memory manager.
use spdk_blob_top_fs.Prelude.{
  ℕ, ◌%◌, ◌≡◌, ◌≢◌, ◌⊎◌, refl, sym, ap, subst, ◌∙◌, true, false, List, [], ◌∷◌, arith, ◌==◌,
  Bool-cases, inl, inr,
}
use spdk_blob_top_fs.Prelude.Map.{KeyTable}
use spdk_blob_top_fs.Mm.{Call, u_malloc, spdk_malloc, done, abort, Mm, spdkfs_malloc}
use spdk_blob_top_fs.Mm.Consistent.{lookup-none}
use spdk_blob_top_fs.Mm.Alloc.{IsTracked, malloc-IsTracked, malloc_user}
use spdk_blob_top_fs.Interface.Memory.{malloc}
use spdk_blob_top_fs.Interface.Memory.World.{
  program, spdk, owner_of, is_spdk, World, IsNew, IsOwned,
}

module _ (T : KeyTable ℕ) where
  -- What an allocation comes to.
  not_done : {r : ℕ} {cs : List Call} {s : Mm T} → done r cs s ≢ abort
  not_done e = cc

  pub data Allocated (s : Mm T) (user mem p : ℕ) (calls : List Call) (mm : Mm T) : Type 0 where
    from_program : p ≡ user → owner_of calls ≡ program → mm ≡ s → Allocated s user mem p calls mm
    from_spdk :
        p ≡ mem
        → owner_of calls ≡ spdk
        → mem ≢ 0
        → s.initialized ≡ true
        → IsTracked T s mem mm
        → Allocated s user mem p calls mm

  done-Allocated :
      (s : Mm T) (user mem size p : ℕ) (calls calls' : List Call) (mm : Mm T)
      → malloc T user mem s size ≡ done user calls' s
      → owner_of calls' ≡ program
      → malloc T user mem s size ≡ done p calls mm
      → Allocated s user mem p calls mm
  done-Allocated s user mem size p calls calls' mm e o got =
      from_program (cc) (let same : calls ≡ calls' = cc in ap owner_of same ∙ o) (cc)

  tracked-Allocated :
      (s t : Mm T) (user mem size p : ℕ) (calls : List Call) (mm : Mm T)
      → malloc T user mem s size ≡ done mem (spdk_malloc size ∷ []) t
      → mem ≢ 0
      → s.initialized ≡ true
      → IsTracked T s mem t
      → malloc T user mem s size ≡ done p calls mm
      → Allocated s user mem p calls mm
  tracked-Allocated s t user mem size p calls mm e ne late tracked got =
      let same : calls ≡ spdk_malloc size ∷ [] = cc in
      let there : t ≡ mm = cc in
      from_spdk (cc) (ap owner_of same) ne late (subst (IsTracked T s mem) there tracked)

  malloc_early :
      (s : Mm T) (user mem size : ℕ)
      → s.initialized ≡ false
      → malloc T user mem s size ≡ done user (u_malloc size ∷ []) s
  unfolding malloc
  malloc_early s user mem size e = rw e refl

  malloc_late :
      (s : Mm T) (user mem size : ℕ)
      → s.initialized ≡ true
      → malloc T user mem s size ≡ spdkfs_malloc T user mem s size
  unfolding malloc
  malloc_late s user mem size e = rw e refl

  user-Allocated :
      (s : Mm T) (user mem size p : ℕ) (calls : List Call) (mm : Mm T)
      → user ≢ 0
      → s.initialized ≡ true
      → (size % 4096 ≢ 0) ⊎ (mem ≡ 0)
      → malloc T user mem s size ≡ done p calls mm
      → Allocated s user mem p calls mm
  user-Allocated s user mem size p calls mm ne late why got =
      elim (malloc_user T user mem size s ne why) [
        | inl e ↦
            done-Allocated s user mem size p calls (u_malloc size ∷ []) mm
              (malloc_late s user mem size late ∙ e) refl got
        | inr e ↦
            done-Allocated s user mem size p calls (spdk_malloc size ∷ u_malloc size ∷ []) mm
              (malloc_late s user mem size late ∙ e) refl got
      ]

  module _ (w : World T) (user mem size p : ℕ) (calls : List Call) (mm : Mm T) (v : IsOwned T w)
      (ne : user ≢ 0) (got : malloc T user mem w.mm size ≡ done p calls mm) where
    whole-Allocated :
        size % 4096 ≡ 0
        → w.mm.initialized ≡ true
        → (mem ≡ 0) ⊎ IsNew T w mem
        → Allocated w.mm user mem p calls mm
    whole-Allocated whole late (inl zero_mem) =
        user-Allocated w.mm user mem size p calls mm ne late (inr zero_mem) got
    whole-Allocated whole late (inr new) =
        let untracked = v.tracked mem new.word ∙ ap is_spdk new.not_owned in
        let fresh = lookup-none T w.mm mem v.consistent new.word untracked in
        elim (malloc-IsTracked T user mem size w.mm v.consistent whole new.not_null new.word
          fresh) [
            | inl (e, _) ↦ absurd (not_done (sym got ∙ malloc_late w.mm user mem size late ∙ e))
            | inr (t, e, tracked) ↦
                tracked-Allocated w.mm t user mem size p calls mm
                  (malloc_late w.mm user mem size late ∙ e) new.not_null late tracked got
          ]

    pub malloc-Allocated : (mem ≡ 0) ⊎ IsNew T w mem → Allocated w.mm user mem p calls mm
    malloc-Allocated new = elim (Bool-cases w.mm.initialized) [
      | inl late ↦ elim (Bool-cases (size % 4096 == 0)) [
        | inl whole ↦ whole-Allocated (ground arith) late new
        | inr other ↦
            user-Allocated w.mm user mem size p calls mm ne late (inl (λ e. absurd (ground arith)))
              got
      ]
      | inr early ↦
          done-Allocated w.mm user mem size p calls (u_malloc size ∷ []) mm
            (malloc_early w.mm user mem size early) refl got
    ]
