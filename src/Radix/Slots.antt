-- ===== src/Radix/Slots.antt =====
-- The loops of spdk_fs/radix_tree.c below a slot: what lookup finds after insert and delete.
use spdk_blob_top_fs.Prelude.{
  ℕ, zero, suc, ◌<◌, ◌≡◌, refl, sym, ◌≢◌, true, false, arith, Option, none, some, ◌==◌,
  if◌then◌else◌, Bool-cases, inl, inr,
}
use spdk_blob_top_fs.Prelude.Map.{ok, eexist}
use spdk_blob_top_fs.Radix.{
  Slot, null, item, node, dec, is_null, insert_slot, lookup_slot, delete_slot, delete_child,
}
use spdk_blob_top_fs.Radix.Count.{
  filled, IsCounted, filled-le, filled_one, filled-null, fill-IsCounted, replace-IsCounted,
  clear-IsCounted, eq_null,
}
use spdk_blob_top_fs.Radix.Word.{slot_index, slot_index-lt, agree}

module _ {A : Type 0} where
  pub lookup_slot-null : (h j : ℕ) → lookup_slot {A = A} h j null ≡ none
  unfolding lookup_slot
  lookup_slot-null zero j = refl
  lookup_slot-null (suc h) j = refl

  -- A new key.
  pub lookup_slot-insert :
      (h i j : ℕ) (a : A) (s : Slot A h)
      → lookup_slot h i s ≡ none
      → lookup_slot h j (insert_slot h i a s).1
        ≡ (if agree h i j then some a else lookup_slot h j s)
  unfolding lookup_slot insert_slot
  lookup_slot-insert zero i j a null e = refl
  lookup_slot-insert zero i j a (item b) e = cc
  lookup_slot-insert (suc h) i j a null e =
      ground (arith, lookup_slot-insert h i j a null, lookup_slot-null h i, lookup_slot-null h j)
  lookup_slot-insert (suc h) i j a (node c s) e =
      ground (arith, lookup_slot-insert h i j a (s (slot_index i h)))

  -- A key that is there.
  pub lookup_slot-insert_old :
      (h i j : ℕ) (a b : A) (s : Slot A h)
      → lookup_slot h i s ≡ some b
      → ((insert_slot h i a s).0 ≡ eexist)
        × (lookup_slot h j (insert_slot h i a s).1 ≡ lookup_slot h j s)
  unfolding lookup_slot insert_slot
  lookup_slot-insert_old zero i j a b null e = cc
  lookup_slot-insert_old zero i j a b (item c) e = (refl, refl)
  lookup_slot-insert_old (suc h) i j a b null e = cc
  lookup_slot-insert_old (suc h) i j a b (node c s) e =
      ground (arith, lookup_slot-insert_old h i j a b (s (slot_index i h)))

  pub insert_slot-ok :
      (h i : ℕ) (a : A) (s : Slot A h) → lookup_slot h i s ≡ none → (insert_slot h i a s).0 ≡ ok
  unfolding lookup_slot insert_slot
  insert_slot-ok zero i a null e = refl
  insert_slot-ok zero i a (item b) e = cc
  insert_slot-ok (suc h) i a null e =
      ground (arith, insert_slot-ok h i a null, lookup_slot-null h i)
  insert_slot-ok (suc h) i a (node c s) e =
      ground (arith, insert_slot-ok h i a (s (slot_index i h)))

  insert_slot-full : (h i : ℕ) (a : A) (s : Slot A h) → is_null (insert_slot h i a s).1 ≡ false
  unfolding insert_slot
  insert_slot-full zero i a null = refl
  insert_slot-full zero i a (item b) = refl
  insert_slot-full (suc h) i a null = refl
  insert_slot-full (suc h) i a (node c s) = refl

  pub insert_slot-IsCounted :
      (h i : ℕ) (a : A) (s : Slot A h) → IsCounted s → IsCounted (insert_slot h i a s).1
  unfolding insert_slot
  insert_slot-IsCounted zero i a null v = tt
  insert_slot-IsCounted zero i a (item b) v = tt
  insert_slot-IsCounted (suc h) i a null v =
      fill-IsCounted 0 (λ j. null) (slot_index i h) _ (slot_index-lt i h) (sym (filled-null A h 64))
        (λ j. tt) (insert_slot-IsCounted h i a null tt) (insert_slot-full h i a null)
  insert_slot-IsCounted (suc h) i a (node c s) v =
      let j = slot_index i h in
      fill-IsCounted c s j _ (slot_index-lt i h) v.0 v.2 (insert_slot-IsCounted h i a (s j) (v.2 j))
        (insert_slot-full h i a (s j))

  -- `delete` returns what was there.
  pub delete_slot_lem : (h i : ℕ) (s : Slot A h) → (delete_slot h i s).0 ≡ lookup_slot h i s
  unfolding delete_slot lookup_slot
  delete_slot_lem zero i null = refl
  delete_slot_lem zero i (item a) = refl
  delete_slot_lem (suc h) i null = refl
  delete_slot_lem (suc h) i (node c s) = ground (arith, delete_slot_lem h i (s (slot_index i h)))

  delete_slot-absent :
      (h i : ℕ) (s : Slot A h) → (delete_slot h i s).0 ≡ none → (delete_slot h i s).1 ≡ s
  unfolding delete_slot
  delete_slot-absent zero i null e = refl
  delete_slot-absent zero i (item a) e = cc
  delete_slot-absent (suc h) i null e = refl
  delete_slot-absent (suc h) i (node c s) e =
      ground (arith, delete_slot-absent h i (s (slot_index i h)))

  delete_slot-full : (h i : ℕ) (s : Slot A h) → (delete_slot h i s).0 ≢ none → is_null s ≡ false
  unfolding delete_slot
  delete_slot-full zero i null e = absurd (e refl)
  delete_slot-full zero i (item b) e = refl
  delete_slot-full (suc h) i null e = absurd (e refl)
  delete_slot-full (suc h) i (node c s) e = refl

  -- A node whose count falls to zero has no other child.
  other_null :
      {h : ℕ} (c : ℕ) (s : ℕ → Slot A h) (i j : ℕ)
      → c ≡ filled s 64
      → i < 64
      → j < 64
      → is_null (s i) ≡ false
      → (dec c == 0) ≡ true
      → i ≢ j
      → s j ≡ null
  other_null c s i j count hi hj full last ne =
      eq_null (s j) (filled_one s 64 i j hi hj ne (ground (arith, filled-le s 64)) full)

  -- What lookup finds below a node after its child was deleted from.
  lookup-delete_child :
      (h i j c : ℕ) (s : ℕ → Slot A h) (p : Option A × Slot A h)
      → c ≡ filled s 64
      → (p.0 ≡ none → p.1 ≡ s (slot_index i h))
      → (p.0 ≢ none → is_null (s (slot_index i h)) ≡ false)
      → lookup_slot h j p.1 ≡ (if agree h i j then none else lookup_slot h j (s (slot_index i h)))
      → lookup_slot (suc h) j (delete_child c s (slot_index i h) p).1
        ≡ (if agree (suc h) i j then none else lookup_slot h j (s (slot_index j h)))
  unfolding lookup_slot
  lookup-delete_child h i j c s (none, child) count same full e = ground arith
  lookup-delete_child h i j c s (some a, child) count same full e = ground (
    arith,
    lookup_slot-null h j,
    eq_null child,
    other_null c s (slot_index i h) (slot_index j h),
    slot_index-lt i h,
    slot_index-lt j h,
  )

  -- A deleted slot that is NULL had nothing else below it.
  pub lookup_slot-delete :
      (h i j : ℕ) (s : Slot A h)
      → IsCounted s
      → lookup_slot h j (delete_slot h i s).1 ≡ (if agree h i j then none else lookup_slot h j s)
  unfolding lookup_slot delete_slot
  lookup_slot-delete zero i j null v = refl
  lookup_slot-delete zero i j (item a) v = refl
  lookup_slot-delete (suc h) i j null v = ground arith
  lookup_slot-delete (suc h) i j (node c s) v =
      let k = slot_index i h in
      lookup-delete_child h i j c s (delete_slot h i (s k)) v.0 (delete_slot-absent h i (s k))
        (delete_slot-full h i (s k)) (lookup_slot-delete h i j (s k) (v.2 k))

  delete_child-IsCounted :
      {h : ℕ} (c k : ℕ) (s : ℕ → Slot A h) (p : Option A × Slot A h)
      → k < 64
      → IsCounted (node c s)
      → (p.0 ≢ none → is_null (s k) ≡ false)
      → IsCounted p.1
      → IsCounted (delete_child c s k p).1
  delete_child-IsCounted c k s (none, child) lt v full kid = v
  delete_child-IsCounted c k s (some a, null) lt v full kid = elim (Bool-cases (dec c == 0)) [
    | inl last ↦ rw last tt
    | inr more ↦ rw more (clear-IsCounted c s k lt v (full (λ e. cc)) more)
  ]
  delete_child-IsCounted c k s (some a, item b) lt v full kid =
      replace-IsCounted c s k lt v (full (λ e. cc)) (item b) kid refl
  delete_child-IsCounted c k s (some a, node c' s') lt v full kid =
      replace-IsCounted c s k lt v (full (λ e. cc)) (node c' s') kid refl

  pub delete_slot-IsCounted :
      (h i : ℕ) (s : Slot A h) → IsCounted s → IsCounted (delete_slot h i s).1
  unfolding delete_slot
  delete_slot-IsCounted zero i null v = tt
  delete_slot-IsCounted zero i (item b) v = tt
  delete_slot-IsCounted (suc h) i null v = tt
  delete_slot-IsCounted (suc h) i (node c s) v =
      let k = slot_index i h in
      delete_child-IsCounted c k s (delete_slot h i (s k)) (slot_index-lt i h) v
        (delete_slot-full h i (s k)) (delete_slot-IsCounted h i (s k) (v.2 k))
