-- ===== src/Radix/Memory.antt =====
-- A tree of spdk_fs/radix_tree.c holds no node without a key below it.
use mathlib.Core.Logic.{◌≢◌}
use native.Mathlib.Nat.{pow-le-pow_right}
use spdk_blob_top_fs.Prelude.{
  ℕ, zero, suc, ◌+◌, ◌*◌, ◌^◌, ◌≤◌, ◌<◌, ◌≡◌, refl, sym, ◌∙◌, inl, inr, true, false, arith, none,
  Bool-cases,
}
use spdk_blob_top_fs.Radix.{Slot, null, item, node, Root, is_null, lookup_slot, radix_tree_lookup}
use spdk_blob_top_fs.Radix.Count.{IsCounted, filled_witness}
use spdk_blob_top_fs.Radix.Height.{lookup_root}
use spdk_blob_top_fs.Radix.Room.{IsValid}
use spdk_blob_top_fs.Radix.Word.{slot_index, agree, key-join}

module _ {A : Type 0} where
  lookup_slot-agree :
      (h i j : ℕ) (s : Slot A h) → agree h i j ≡ true → lookup_slot h i s ≡ lookup_slot h j s
  unfolding lookup_slot
  lookup_slot-agree zero i j null e = refl
  lookup_slot-agree zero i j (item a) e = refl
  lookup_slot-agree (suc h) i j null e = refl
  lookup_slot-agree (suc h) i j (node c s) e =
      ground (arith, lookup_slot-agree h i j (s (slot_index i h)))

  -- The key of some item below a slot that is not NULL.
  held_key :
      (h : ℕ) (s : Slot A h)
      → IsCounted s
      → is_null s ≡ false
      → (j : ℕ) × (j < 2 ^ (h * 6)) × (lookup_slot h j s ≢ none)
  unfolding lookup_slot
  held_key zero null v e = cc
  held_key zero (item a) v e = (0, omega arith, λ f. cc)
  held_key (suc h) null v e = cc
  held_key (suc h) (node c s) v e =
      let (i, lt, full) = filled_witness s 64 (omega (arith, v.0, v.1)) in
      let (j, small, found) = held_key h (s i) (v.2 i) full in
      let joined = key-join h i j lt small in
      (
        i * 2 ^ (h * 6) + j,
        joined.0,
        rw joined.1 (λ f. found (sym (lookup_slot-agree h _ j (s i) joined.2) ∙ f)),
      )

  -- A valid tree of height at most 10 in which no key below 2^64 is stored has no node.
  rnode-null :
      (root : Root A)
      → IsValid root
      → root.height < 11
      → ((j : ℕ) → j < 2 ^ 64 → radix_tree_lookup root j ≡ none)
      → is_null root.rnode ≡ true
  rnode-null root v lt empty = elim (Bool-cases (is_null root.rnode)) [
    | inl gone ↦ gone
    | inr full ↦
        let h = root.height in
        let (j, small, found) = held_key h root.rnode v.counted full in
        let power : 2 ^ (h * 6) ≤ 2 ^ 60 =
          pow-le-pow_right {n = 2} (omega arith) {i = h * 6} {j = 60} (omega arith) in
        let key : j < 2 ^ 64 = omega arith in
        absurd (found (ground (arith, empty j key, lookup_root root j v.below key)))
  ]
