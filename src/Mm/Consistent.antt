-- ===== src/Mm/Consistent.antt =====
-- The table and the tree of spdk_fs/io_mm.c agree: a buffer has a key exactly if an entry is used
-- for it.
use spdk_blob_top_fs.Prelude.{
  ℕ, ◌+◌, ◌-◌, ◌^◌, ◌≤◌, ◌<◌, ◌≡◌, refl, ap, ◌∙◌, Bool, true, false, arith, Option, none, some,
  ◌==◌, if◌then◌else◌, Option-cases, inl, inr,
}
use spdk_blob_top_fs.Prelude.Map.{KeyTable}
use spdk_blob_top_fs.Mm.{Mm, boot, spdkfs_mm_find, track, untrack, spdkfs_mm_init}

abbrev pub is_some {ℓ} : {A : Type ℓ} → Option A → Bool
is_some none = false
is_some (some v) = true

module _ (T : KeyTable ℕ) where
  open T use {Table, lookup, insert, delete}

  pub record IsConsistent (s : Mm T) : Type 0 where
    pub valid : T.IsValid s.spdk_mem_root
    pub uncounted : s.mm_table_count ≡ 0
    pub entry_of :
        (p v : ℕ)
        → p < 2 ^ 64
        → lookup s.spdk_mem_root p ≡ some v
        → (996 ≤ v)
          × (v - 996 < 4096)
          × ((s.mm_table (v - 996)).used ≡ true)
          × ((s.mm_table (v - 996)).ptr ≡ p)
    pub key_of :
        (e : ℕ)
        → e < 4096
        → (s.mm_table e).used ≡ true
        → ((s.mm_table e).ptr < 2 ^ 64)
          × (lookup s.spdk_mem_root (s.mm_table e).ptr ≡ some (e + 996))

  pub boot-IsConsistent : IsConsistent (boot T)
  unfolding boot
  boot-IsConsistent = record {
    valid = T.empty-IsValid;
    uncounted = refl;
    entry_of = λ p v lt e. ground (arith, T.lookup-empty p);
    key_of = λ e lt u. cc;
  }

  module _ (s : Mm T) (c : IsConsistent s) (mem : ℕ) (small : mem < 2 ^ 64) where
    pub track-IsConsistent :
        (ent : ℕ)
        → ent < 4095
        → (s.mm_table ent).used ≡ false
        → lookup s.spdk_mem_root mem ≡ none
        → IsConsistent (track T s mem ent)
    unfolding track
    track-IsConsistent ent lt free fresh = record {
      valid = T.insert-IsValid s.spdk_mem_root mem (ent + 996) small c.valid;
      uncounted = c.uncounted;
      entry_of = λ p v hp e. ground (
        arith,
        T.lookup-insert s.spdk_mem_root mem p (ent + 996) small hp c.valid fresh,
        c.entry_of p v hp,
      );
      key_of = λ e he u. ground (
        arith,
        T.lookup-insert s.spdk_mem_root mem (s.mm_table e).ptr (ent + 996) small,
        c.key_of e he,
        T.lookup-insert s.spdk_mem_root mem mem (ent + 996) small small c.valid fresh,
      );
    }

    -- A table without the key `mem`, next to what a deletion returned.
    untrack_pair :
        (p : Option ℕ × Table) (ent : ℕ)
        → p.0 ≡ some ent
        → lookup s.spdk_mem_root mem ≡ some ent
        → T.IsValid p.1
        → ((j : ℕ)
            → j < 2 ^ 64
            → lookup p.1 j ≡ (if mem == j then none else lookup s.spdk_mem_root j))
        → IsConsistent (untrack T s p)
    unfolding untrack
    untrack_pair (none, root) ent got found v law = cc
    untrack_pair (some ent', root) ent got found v law = record {
      valid = v;
      uncounted = c.uncounted;
      entry_of =
          λ p v hp e. ground (arith, law p hp, c.entry_of p v hp, c.entry_of mem ent small found);
      key_of = λ e he u.
          ground (arith, law (s.mm_table e).ptr, c.key_of e he, c.entry_of mem ent small found);
    }

    pub untrack-IsConsistent :
        (ent : ℕ)
        → lookup s.spdk_mem_root mem ≡ some ent
        → IsConsistent (untrack T s (delete s.spdk_mem_root mem))
    untrack-IsConsistent ent found =
        untrack_pair (delete s.spdk_mem_root mem) ent
          (T.delete_lem s.spdk_mem_root mem small c.valid ∙ found) found
          (T.delete-IsValid s.spdk_mem_root mem small c.valid)
          (λ j hj. T.lookup-delete s.spdk_mem_root mem j small hj c.valid)

  -- In a consistent state no key holds the value 0.
  pub find-lookup :
      (s : Mm T) (p : ℕ)
      → IsConsistent s
      → p < 2 ^ 64
      → spdkfs_mm_find T s p ≡ is_some (lookup s.spdk_mem_root p)
  unfolding spdkfs_mm_find
  find-lookup s p c small = elim (Option-cases (lookup s.spdk_mem_root p)) [
    | inl e ↦ ground arith
    | inr (v, e) ↦ ground (arith, c.entry_of p v small e)
  ]

  -- A buffer that is not tracked has no key.
  pub lookup-none :
      (s : Mm T) (p : ℕ)
      → IsConsistent s
      → p < 2 ^ 64
      → spdkfs_mm_find T s p ≡ false
      → lookup s.spdk_mem_root p ≡ none
  lookup-none s p c small untracked = elim (Option-cases (lookup s.spdk_mem_root p)) [
    | inl e ↦ e
    | inr (v, e) ↦ absurd (ground (arith, find-lookup s p c small))
  ]

  pub find-boot : (p : ℕ) → p < 2 ^ 64 → spdkfs_mm_find T (boot T) p ≡ false
  unfolding boot
  find-boot p small = find-lookup (boot T) p boot-IsConsistent small ∙ ap is_some (T.lookup-empty p)

  pub find-init :
      (s : Mm T) (p : ℕ) → spdkfs_mm_find T (spdkfs_mm_init T s).1 p ≡ spdkfs_mm_find T s p
  unfolding spdkfs_mm_find spdkfs_mm_init
  find-init s p = refl

  pub init-IsConsistent : (s : Mm T) → IsConsistent s → IsConsistent (spdkfs_mm_init T s).1
  unfolding spdkfs_mm_init
  init-IsConsistent s c = record {
    valid = c.valid;
    uncounted = c.uncounted;
    entry_of = c.entry_of;
    key_of = c.key_of;
  }
