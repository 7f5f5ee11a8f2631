-- ===== src/Radix/Gang/Whole.antt =====
-- `radix_tree_gang_lookup` of spdk_fs/radix_tree.c against `radix_tree_lookup`, in the trees of
-- height 0 to 6: from height 7 on the code shifts a 1 of type int by more than 30.
use native.Mathlib.Nat.{one-le-pow}
use spdk_blob_top_fs.Prelude.{
  ℕ, zero, suc, ◌+◌, ◌-◌, ◌*◌, ◌^◌, ◌≤◌, ◌<◌, ◌≡◌, refl, sym, ap, ◌∙◌, inl, inr, true, false, arith,
  Option, some, [], ◌∷◌, ltb, lt→ltb, ◌==◌, if◌then◌else◌, Bool-cases,
}
use spdk_blob_top_fs.Radix.{Slot, null, item, Root, is_null, lookup_slot, radix_tree_lookup}
use spdk_blob_top_fs.Radix.Gang.{gang_loop, radix_tree_gang_lookup}
use spdk_blob_top_fs.Radix.Height.{lookup_root, lookup-null}
use spdk_blob_top_fs.Radix.Listing.{stored, stored_zero, stored_one, take, take_all, stored_none}
use spdk_blob_top_fs.Radix.Word.{radix_tree_maxindex, maxindex_lem, pow-level}
use spdk_blob_top_fs.Radix.Gang.Parts.{small_power, wanted, gang_loop_lem}

module _ {A : Type 0} where
  wanted_past :
      (f : ℕ → Option A) (first limit max_items : ℕ)
      → limit ≤ first
      → wanted f first limit max_items ≡ []
  wanted_past f first limit max_items le =
      let nothing : limit - first ≡ 0 = omega arith in
      rw (nothing, stored_zero f first) (take_all max_items [] (omega arith))

  wanted_root :
      (f : ℕ → Option A) (a : A) (max_items : ℕ)
      → f 0 ≡ some a
      → wanted f 0 1 max_items ≡ (if ltb 0 max_items then a ∷ [] else [])
  wanted_root f a zero e = refl
  wanted_root f a (suc n) e =
      rw (stored_one f 0, e, lt→ltb 0 (suc n) (omega arith))
        (ap (λ t. a ∷ t) (take_all n [] (omega arith)))

  gang_lookup_low :
      (beyond : ℕ → ℕ) (slot : Slot A 0) (first_index max_items : ℕ)
      → is_null slot ≡ false
      → first_index < 2 ^ 64
      → radix_tree_gang_lookup beyond (record { height = 0; rnode = slot }) first_index max_items
        ≡ some (
            wanted
              (radix_tree_lookup (record { height = 0; rnode = slot }))
              first_index
              1
              max_items)
  unfolding radix_tree_gang_lookup radix_tree_lookup lookup_slot
  gang_lookup_low beyond null first_index max_items full small = cc
  gang_lookup_low beyond (item a) first_index max_items full small =
      let f = radix_tree_lookup (record { height = 0; rnode = item a }) in
      let low : radix_tree_maxindex 0 ≡ 0 = omega (arith, maxindex_lem 0 (omega arith)) in
      elim (Bool-cases (first_index == 0)) [
        | inl root ↦
            let zero_key : first_index ≡ 0 = ground arith in
            rw (low, zero_key) (ap some (sym (wanted_root f a max_items (rw low refl))))
        | inr other ↦
            rw (low, other) (ap some (sym (wanted_past f first_index 1 max_items (ground arith))))
      ]

  gang_loop_past :
      (beyond : ℕ → ℕ) (fuel max_items cur_index : ℕ) (root : Root A)
      → ltb (radix_tree_maxindex root.height) cur_index ≡ true
      → 0 < fuel
      → gang_loop beyond fuel max_items cur_index root [] ≡ some []
  unfolding gang_loop
  gang_loop_past beyond zero max_items cur_index root past pos = absurd (omega arith)
  gang_loop_past beyond (suc fuel) max_items cur_index root past pos = ground arith

  gang_lookup_high :
      (beyond : ℕ → ℕ) (h : ℕ) (slot : Slot A (suc h)) (first_index max_items : ℕ)
      → h < 6
      → is_null slot ≡ false
      → first_index < 2 ^ 64
      → radix_tree_gang_lookup beyond
          (record { height = suc h; rnode = slot })
          first_index
          max_items
        ≡ some (
            wanted
              (radix_tree_lookup (record { height = suc h; rnode = slot }))
              first_index
              (2 ^ (suc h * 6))
              max_items)
  unfolding radix_tree_gang_lookup
  gang_lookup_high beyond h slot first_index max_items low full small =
      let root : Root A = record { height = suc h; rnode = slot } in
      let f = radix_tree_lookup root in
      let limit = 2 ^ (suc h * 6) in
      let fits = small_power h low in
      let top : radix_tree_maxindex (suc h) + 1 ≡ limit =
        omega (arith, maxindex_lem (suc h) (omega arith), fits) in
      let many : (radix_tree_maxindex (suc h) == 0) ≡ false =
        ground (arith, top, pow-level h, one-le-pow (h * 6) 2 (omega arith)) in
      rw (full, many)
        (elim (Bool-cases (ltb first_index limit)) [
          | inl on ↦
              gang_loop_lem f first_index limit max_items beyond h slot
                (radix_tree_maxindex (suc h) + 2) first_index [] low refl full
                (λ k lt. ground (arith, lookup_root root k (omega arith) (omega (arith, fits))))
                (omega (arith, top))
                (record {
                  count = 0;
                  reached = omega arith;
                  within = ground arith;
                  listed = sym (stored_zero f first_index);
                  bounded = omega arith;
                })
          | inr off ↦
              gang_loop_past beyond (radix_tree_maxindex (suc h) + 2) max_items first_index root
                (ground (arith, top)) (omega arith)
              ∙ ap some (sym (wanted_past f first_index limit max_items (ground arith)))
        ])

  gang_lookup_full :
      (beyond : ℕ → ℕ) (h : ℕ) (slot : Slot A h) (first_index max_items : ℕ)
      → h < 7
      → is_null slot ≡ false
      → first_index < 2 ^ 64
      → radix_tree_gang_lookup beyond (record { height = h; rnode = slot }) first_index max_items
        ≡ some (
            wanted
              (radix_tree_lookup (record { height = h; rnode = slot }))
              first_index
              (2 ^ (h * 6))
              max_items)
  gang_lookup_full beyond zero slot first_index max_items low full small =
      gang_lookup_low beyond slot first_index max_items full small
  gang_lookup_full beyond (suc h) slot first_index max_items low full small =
      gang_lookup_high beyond h slot first_index max_items (omega arith) full small

  -- In any tree of height below 7, from a first key below 2^64, `radix_tree_gang_lookup` returns,
  -- and what it returns is the first `max_items` of the items that `radix_tree_lookup` finds at
  -- the keys from the first one to the last one of the tree, in ascending order of keys.
  pub gang_lookup-take :
      (beyond : ℕ → ℕ) (root : Root A) (first_index max_items : ℕ)
      → root.height < 7
      → first_index < 2 ^ 64
      → radix_tree_gang_lookup beyond root first_index max_items
        ≡ some (
            take max_items
              (stored (radix_tree_lookup root) first_index (2 ^ (root.height * 6) - first_index)))
  unfolding radix_tree_gang_lookup
  gang_lookup-take beyond root first_index max_items low small =
      elim (Bool-cases (is_null root.rnode)) [
        | inl empty ↦ rw empty (
            ap some (
              sym (
                ap (take max_items) (
                  stored_none (radix_tree_lookup root) first_index
                    (2 ^ (root.height * 6) - first_index)
                    (λ k a b. lookup-null root.height k root.rnode empty))
                ∙ take_all max_items [] (omega arith))))
        | inr full ↦
            gang_lookup_full beyond root.height root.rnode first_index max_items low full small
      ]
