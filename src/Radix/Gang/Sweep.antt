-- ===== src/Radix/Gang/Sweep.antt =====
-- What the loops of `__lookup` of spdk_fs/radix_tree.c collect below a slot.
use native.Mathlib.Nat.{one-le-pow}
use spdk_blob_top_fs.Prelude.{
  ℕ, zero, suc, ◌+◌, ◌-◌, ◌*◌, ◌/◌, ◌%◌, ◌^◌, ◌≤◌, ◌<◌, ◌≡◌, refl, sym, ap, ◌∙◌, subst, inl, inr,
  true, false, arith, Option, none, List, ◌==◌, Bool-cases,
}
use spdk_blob_top_fs.Radix.{Slot, null, item, node, is_null, lookup_slot}
use spdk_blob_top_fs.Radix.Count.{eq_null}
use spdk_blob_top_fs.Radix.Gang.{
  one_shl, next_block, first_slot, take_slot, grab, descend, lookup_from,
}
use spdk_blob_top_fs.Radix.Listing.{
  IsSweep, IsSweep-none, IsSweep-skip, IsSweep-item, IsSweep-one, IsSweep-congr,
}
use spdk_blob_top_fs.Radix.Slots.{lookup_slot-null}
use spdk_blob_top_fs.Radix.Word.{slot_index, slot_index-lt}
use spdk_blob_top_fs.Radix.Gang.Blocks.{
  div_bounds, same_block, next_block_lem, multiple-IsNext, level_limit, block_base, level_limit-suc,
  slot_index_of_block, block_of_slot_index, one_shl_lem,
}

module _ {A : Type 0} where
  -- `f` is what is found below the node: at the keys of one of its slots, what is in that slot.
  module _ {h : ℕ} (slots : ℕ → Slot A h) (f : ℕ → Option A) (p base limit room : ℕ) (pos : 0 < p)
      (end : limit ≡ (base + 64) * p) (small : limit ≤ 2 ^ 36)
      (empty : (k i : ℕ) → i < 64 → k / p ≡ base + i → is_null (slots i) ≡ true → f k ≡ none) where
    pub IsSweep-first_slot :
        (go : ℕ → ℕ → List A × ℕ)
        → ((i index : ℕ)
            → i < 64
            → index / p ≡ base + i
            → is_null (slots i) ≡ false
            → IsSweep f index limit room (go i index))
        → (rounds i index : ℕ) → i + rounds ≡ 64
        → (rounds ≡ 0 → index ≡ limit)
        → (0 < rounds → index / p ≡ base + i)
        → IsSweep f index limit room (descend (first_slot rounds p i index slots) go)
    unfolding first_slot
    IsSweep-first_slot go found zero i index e last at =
        rw (last refl)
          (IsSweep-none f limit limit room (omega arith) (λ k a b. absurd (omega arith)))
    IsSweep-first_slot go found (suc rounds) i index e last at =
        elim (Bool-cases (is_null (slots i))) [
          | inl gone ↦
              let slot : index / p ≡ base + i = at (omega arith) in
              let next = (base + i) * p + p in
              let step =
                multiple-IsNext p (base + i) rounds index limit pos slot
                  (end ∙ ap (λ (t : ℕ). t * p) (omega arith)) in
              let whole : index / p * p + p ≡ next = ap (λ (t : ℕ). t * p + p) slot in
              let moves : next_block p index ≡ next =
                next_block_lem p index pos (omega (arith, step.under, whole)) ∙ whole in
              let more : (next == 0) ≡ false = ground arith in
              let rest =
                IsSweep-first_slot go found rounds (i + 1) next (omega arith) step.last
                  (λ left. step.at left ∙ omega arith) in
              rw (gone, moves, more)
                (IsSweep-skip f index limit room next _ step.later
                  (λ k a b. empty k i (omega arith) (step.block k a b) gone) rest)
          | inr full ↦ rw full (found i index (omega arith) (at (omega arith)) full)
        ]

  IsSweep-take_slot :
      (f : ℕ → Option A) (index limit room nr left : ℕ) (slot : Slot A zero) (rest : ℕ → List A × ℕ)
      → index < limit
      → f index ≡ lookup_slot zero index slot
      → nr + suc left ≡ room
      → ((n l : ℕ) → n + suc l ≡ room → IsSweep f (index + 1) limit (suc l) (rest n))
      → IsSweep f index limit (suc left) (take_slot nr room (index + 1) slot rest)
  unfolding lookup_slot
  IsSweep-take_slot f index limit room nr left null rest lt found fits sweep =
      IsSweep-skip f index limit (suc left) (index + 1) (rest nr) (omega arith)
        (λ k a b. (let here : k ≡ index = omega arith in ap f here ∙ found)) (sweep nr left fits)
  IsSweep-take_slot f index limit room nr left (item a) rest lt found fits sweep =
      elim (Bool-cases (nr + 1 == room)) [
        | inl last ↦ rw last (IsSweep-one f index limit left a found lt)
        | inr more ↦
            let one_less : left ≡ suc (left - 1) = ground arith in
            rw more (
              IsSweep-item f index limit left a (rest (nr + 1)) found (
                subst (λ t. IsSweep f (index + 1) limit t (rest (nr + 1))) (sym one_less)
                  (sweep (nr + 1) (left - 1) (omega arith))))
      ]

  -- The bottom level.
  module _ (slots : ℕ → Slot A zero) (f : ℕ → Option A) (base limit room : ℕ)
      (end : limit ≡ base + 64) (small : limit ≤ 2 ^ 36)
      (at : (k i : ℕ) → i < 64 → k ≡ base + i → f k ≡ lookup_slot zero k (slots i)) where
    IsSweep-grab :
        (rounds j index nr left : ℕ)
        → j + rounds ≡ 64
        → index ≡ base + j
        → nr + suc left ≡ room
        → IsSweep f index limit (suc left) (grab rounds j index nr room slots)
    unfolding grab lookup_slot
    IsSweep-grab zero j index nr left e same fits =
        let stop : index ≡ limit = omega arith in
        rw stop
          (IsSweep-none f limit limit (suc left) (omega arith) (λ k a b. absurd (omega arith)))
    IsSweep-grab (suc rounds) j index nr left e same fits =
        let step : (index + 1) % 2 ^ 64 ≡ index + 1 = omega arith in
        rw step (
          IsSweep-take_slot f index limit room nr left (slots j) _ (omega arith)
            (at index j (omega arith) same) fits
            (λ n l fit.
              IsSweep-grab rounds (j + 1) (index + 1) n l (omega arith) (omega arith) fit))

  -- At the keys of one slot of a node: what is in that slot.
  lookup_slot-node :
      (h index k i c : ℕ) (s : ℕ → Slot A h)
      → i < 64
      → k / 2 ^ (h * 6) ≡ block_base h index + i
      → lookup_slot (suc h) k (node c s) ≡ lookup_slot h k (s i)
  unfolding lookup_slot
  lookup_slot-node h index k i c s lt same =
      ap (λ t. lookup_slot h k (s t)) (slot_index_of_block h index k i lt same)

  -- What the code of a level does with a node, given what it does with a slot.
  IsSweep-node :
      (beyond : ℕ → ℕ) (room h index c : ℕ) (s : ℕ → Slot A h) (go : ℕ → ℕ → List A × ℕ)
      → h < 6
      → level_limit (suc h) index ≤ 2 ^ 36
      → ((i k : ℕ)
          → i < 64
          → k / 2 ^ (h * 6) ≡ block_base h index + i
          → is_null (s i) ≡ false
          → IsSweep
              (λ k. lookup_slot (suc h) k (node c s))
              k
              (level_limit (suc h) index)
              room
              (go i k))
      → IsSweep
          (λ k. lookup_slot (suc h) k (node c s))
          index
          (level_limit (suc h) index)
          room
          (descend
            (first_slot
              (64 - slot_index index h)
              (one_shl beyond (h * 6))
              (slot_index index h)
              index
              s)
            go)
  IsSweep-node beyond room h index c s go low small found =
      let pos : 0 < 2 ^ (h * 6) = one-le-pow (h * 6) 2 (omega arith) in
      let lt = slot_index-lt index h in
      rw (one_shl_lem beyond h low) (
        IsSweep-first_slot s (λ k. lookup_slot (suc h) k (node c s)) (2 ^ (h * 6))
          (block_base h index) (level_limit (suc h) index) room pos (level_limit-suc h index) small
          (λ k i lt same gone.
            (lookup_slot-node h index k i c s lt same
              ∙ ap (lookup_slot h k) (eq_null (s i) gone)
              ∙ lookup_slot-null h k))
          go found (64 - slot_index index h) (slot_index index h) index (omega arith)
          (λ e. absurd (omega arith)) (λ _. block_of_slot_index h index))

  pub lookup_from-IsSweep :
      (beyond : ℕ → ℕ) (left h index : ℕ) (slot : Slot A (suc h))
      → h < 6
      → is_null slot ≡ false
      → level_limit (suc h) index ≤ 2 ^ 36
      → IsSweep
          (λ k. lookup_slot (suc h) k slot)
          index
          (level_limit (suc h) index)
          (suc left)
          (lookup_from beyond (suc left) (suc h) index slot)
  unfolding lookup_from
  lookup_from-IsSweep beyond left h index null low full small = cc
  lookup_from-IsSweep beyond left zero index (node c s) low full small =
      IsSweep-node beyond (suc left) 0 index c s _ low small (λ i k lt same there.
        IsSweep-grab s (λ k. lookup_slot 1 k (node c s)) (block_base 0 index) (level_limit 1 index)
          (suc left) (level_limit-suc 0 index ∙ omega arith) small
          (λ k i lt same. lookup_slot-node 0 index k i c s lt (omega (arith, same))) (64 - k % 64)
          (k % 64) k 0 left (omega arith) (omega (arith, same)) (omega arith))
  lookup_from-IsSweep beyond left (suc h) index (node c s) low full small =
      IsSweep-node beyond (suc left) (suc h) index c s _ low small (λ i k lt same there.
        let pos : 0 < 2 ^ (suc h * 6) = one-le-pow (suc h * 6) 2 (omega arith) in
        let bounds = div_bounds (2 ^ (suc h * 6)) k pos in
        let narrow : level_limit (suc h) k ≤ level_limit (suc (suc h)) index =
          rw (level_limit-suc (suc h) index, same) (grind arith) in
        IsSweep-congr (λ k. lookup_slot (suc h) k (s i)) k (level_limit (suc h) k) (suc left)
          (λ k. lookup_slot (suc (suc h)) k (node c s)) (level_limit (suc (suc h)) index) _ narrow
          (grind (arith, bounds))
          (λ j a b. sym (
            lookup_slot-node (suc h) index j i c s lt
              (same_block (2 ^ (suc h * 6)) k j pos a b ∙ same)))
          (lookup_from-IsSweep beyond left h k (s i) (omega arith) there (omega (arith, narrow))))
