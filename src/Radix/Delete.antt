-- ===== src/Radix/Delete.antt =====
-- `radix_tree_delete` of spdk_fs/radix_tree.c against lookup.
use spdk_blob_top_fs.Prelude.{
  ℕ, ◌*◌, ◌^◌, ◌<◌, ◌≡◌, refl, sym, ◌∙◌, inl, inr, true, false, arith, Option, none, some, ltb,
  ◌==◌, if◌then◌else◌, Bool-cases,
}
use spdk_blob_top_fs.Radix.{
  Slot, null, Root, is_null, delete_slot, radix_tree_lookup, radix_tree_delete, reset_height,
  finish_delete,
}
use spdk_blob_top_fs.Radix.Count.{IsCounted}
use spdk_blob_top_fs.Radix.Height.{lookup_root, lookup-null}
use spdk_blob_top_fs.Radix.Slots.{lookup_slot-delete, delete_slot_lem, delete_slot-IsCounted}
use spdk_blob_top_fs.Radix.Word.{agree, agree_lem, radix_tree_maxindex, lt-maxindex}
use spdk_blob_top_fs.Radix.Room.{IsValid, seen_in_range}

module _ {A : Type 0} where
  reset_height-IsValid : (h : ℕ) (s : Slot A h) → h < 12 → IsCounted s → IsValid (reset_height h s)
  reset_height-IsValid h s lt v = elim (Bool-cases (is_null s)) [
    | inl gone ↦ rw gone (record { below = omega arith; counted = tt })
    | inr kept ↦ rw kept (record { below = lt; counted = v })
  ]

  lookup-reset_height :
      (h j : ℕ) (s : Slot A h)
      → radix_tree_lookup (reset_height h s) j
        ≡ radix_tree_lookup (record { height = h; rnode = s }) j
  lookup-reset_height h j s = elim (Bool-cases (is_null s)) [
    | inl gone ↦ rw gone (lookup-null 0 j null refl ∙ sym (lookup-null h j s gone))
    | inr kept ↦ rw kept
  ]

  -- The end of `radix_tree_delete`, by what the walk returned.
  kept_or_reset :
      (P : Root A → Type 0) (root : Root A) (p : Option A × Slot A root.height)
      → (p.0 ≡ none → P root)
      → P (reset_height root.height p.1)
      → P (finish_delete root p).1
  kept_or_reset P root (none, s) kept reset = kept refl
  kept_or_reset P root (some a, s) kept reset = reset

  module _ (root : Root A) (k : ℕ) (small : k < 2 ^ 64) (v : IsValid root) where
    pub delete_lem : (radix_tree_delete root k).0 ≡ radix_tree_lookup root k
    unfolding radix_tree_delete radix_tree_lookup
    delete_lem = ground (arith, delete_slot_lem root.height k root.rnode)

    -- The deletion of a key below 2^64 from a valid tree leaves a valid tree.
    pub delete-IsValid : IsValid (radix_tree_delete root k).1
    unfolding radix_tree_delete
    delete-IsValid = elim (Bool-cases (ltb (radix_tree_maxindex root.height) k)) [
      | inl over ↦ rw over v
      | inr fits ↦ rw fits (
          kept_or_reset IsValid root (delete_slot root.height k root.rnode) (λ _. v)
            (reset_height-IsValid root.height (delete_slot root.height k root.rnode).1 v.below
              (delete_slot-IsCounted root.height k root.rnode v.counted)))
    ]

    absent : ltb (radix_tree_maxindex root.height) k ≡ true → radix_tree_lookup root k ≡ none
    unfolding radix_tree_lookup
    absent over = rw over

    gone :
        ltb (radix_tree_maxindex root.height) k ≡ false
        → (delete_slot root.height k root.rnode).0 ≡ none
        → radix_tree_lookup root k ≡ none
    unfolding radix_tree_lookup
    gone fits e = rw fits (sym (delete_slot_lem root.height k root.rnode) ∙ e)

    lookup-walk :
        ltb (radix_tree_maxindex root.height) k ≡ false
        → (j : ℕ) → j < 2 ^ 64
        → radix_tree_lookup
            (record { height = root.height; rnode = (delete_slot root.height k root.rnode).1 })
            j
          ≡ (if k == j then none else radix_tree_lookup root j)
    lookup-walk fits j hj =
        let h = root.height in
        rw
          (lookup_root (record { height = h; rnode = (delete_slot h k root.rnode).1 }) j v.below hj)
          (seen_in_range (2 ^ (h * 6)) k j (agree h k j) _ _ _ none
            (ground (arith, lt-maxindex h k v.below small)) (agree_lem h k j)
            (lookup_slot-delete h k j root.rnode v.counted) (sym (lookup_root root j v.below hj)))

    -- In a valid tree, after the deletion of a key below 2^64, a lookup of that key gives nothing,
    -- and a lookup of any other key below 2^64 gives what it gave before.
    pub lookup-delete :
        (j : ℕ)
        → j < 2 ^ 64
        → radix_tree_lookup (radix_tree_delete root k).1 j
          ≡ (if k == j then none else radix_tree_lookup root j)
    unfolding radix_tree_delete
    lookup-delete j hj = elim (Bool-cases (ltb (radix_tree_maxindex root.height) k)) [
      | inl over ↦ rw over (ground (arith, absent over))
      | inr fits ↦ rw fits (
          kept_or_reset
            (λ r. radix_tree_lookup r j ≡ (if k == j then none else radix_tree_lookup root j)) root
            (delete_slot root.height k root.rnode) (λ e. ground (arith, delete_lem, gone fits e))
            (lookup-reset_height root.height j _ ∙ lookup-walk fits j hj))
    ]
