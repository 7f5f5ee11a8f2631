-- ===== src/Radix/Height.antt =====
-- How the tree of spdk_fs/radix_tree.c grows: `radix_tree_extend`.
use spdk_blob_top_fs.Prelude.{
  ℕ, zero, suc, ◌+◌, ◌*◌, ◌^◌, ◌≤◌, ◌<◌, ◌≡◌, refl, sym, ◌∙◌, inl, inr, true, false, arith, none,
  ltb, ltb→lt, ◌==◌, if◌then◌else◌, Bool-cases,
}
use spdk_blob_top_fs.Radix.{
  Slot, null, item, node, Root, write, is_null, grow, height_for, radix_tree_extend, lookup_slot,
  radix_tree_lookup,
}
use spdk_blob_top_fs.Radix.Count.{IsCounted, filled-null, fill-IsCounted}
use spdk_blob_top_fs.Radix.Slots.{lookup_slot-null}
use spdk_blob_top_fs.Radix.Word.{
  radix_tree_maxindex, lt-maxindex, maxindex_top, slot_index-eq-zero, pow-level_mono,
}

-- The height that the loop stops at: large enough, and the first that is.
pub record IsHeightFor (low index h : ℕ) : Type 0 where
  pub from : low ≤ h
  pub below : h < 12
  pub fits : ltb (radix_tree_maxindex h) index ≡ false
  pub first : (k : ℕ) → low ≤ k → k < h → ltb (radix_tree_maxindex k) index ≡ true

IsHeightFor-lower :
    {low index h : ℕ}
    → ltb (radix_tree_maxindex low) index ≡ true
    → IsHeightFor (low + 1) index h
    → IsHeightFor low index h
IsHeightFor-lower {low} {index} more f = record {
  from = omega (arith, f.from);
  below = f.below;
  fits = f.fits;
  first = λ k a b. elim (Bool-cases (k == low)) [
    | inl same ↦ ground arith
    | inr other ↦ f.first k (ground arith) b
  ];
}

pub height_for-IsHeightFor :
    (rounds low index : ℕ)
    → index < 2 ^ 64
    → low < 12
    → 12 ≤ low + rounds
    → IsHeightFor low index (height_for rounds low index)
unfolding height_for
height_for-IsHeightFor zero low index small lt fuel = absurd (omega arith)
height_for-IsHeightFor (suc rounds) low index small lt fuel =
    let below : ltb (radix_tree_maxindex low) index ≡ true → low + 1 < 12 =
      λ e. ground (arith, maxindex_top index small, lt) in
    elim (Bool-cases (ltb (radix_tree_maxindex low) index)) [
      | inl more ↦ rw more (
          IsHeightFor-lower more
            (height_for-IsHeightFor rounds (low + 1) index small (below more) (omega arith)))
      | inr done ↦ rw done (record {
        from = omega arith;
        below = lt;
        fits = done;
        first = λ k a b. absurd (omega arith);
      })
    ]

module _ {A : Type 0} where
  pub lookup_root :
      (root : Root A) (j : ℕ)
      → root.height < 12
      → j < 2 ^ 64
      → radix_tree_lookup root j
        ≡ (if ltb j (2 ^ (root.height * 6)) then lookup_slot root.height j root.rnode else none)
  unfolding radix_tree_lookup
  lookup_root root j lt small = ground (arith, lt-maxindex root.height j lt small)

  abbrev pub raise : Root A → Root A
  raise root = record { height = suc root.height; rnode = node 1 (write (λ i. null) 0 root.rnode) }

  lookup-raise :
      (root : Root A) (j : ℕ)
      → suc root.height < 12
      → j < 2 ^ 64
      → radix_tree_lookup (raise root) j ≡ radix_tree_lookup root j
  unfolding lookup_slot
  lookup-raise root j lt small =
      let h = root.height in
      rw (lookup_root (raise root) j lt small, lookup_root root j (omega arith) small)
        (ground (arith, slot_index-eq-zero h j, lookup_slot-null {A = A} h j, pow-level_mono h))

  raise-IsCounted :
      (root : Root A)
      → IsCounted root.rnode
      → is_null root.rnode ≡ false
      → IsCounted (raise root).rnode
  raise-IsCounted root v full =
      fill-IsCounted 0 (λ i. null) 0 root.rnode (omega arith) (sym (filled-null A root.height 64))
        (λ j. tt) v full

  -- The root after an extension: of a height that the table has, well counted, with the same keys.
  pub record IsTaller (root : Root A) (height : ℕ) (root' : Root A) : Type 0 where
    pub tall : root'.height ≡ height
    pub counted : IsCounted root'.rnode
    pub same : (j : ℕ) → j < 2 ^ 64 → radix_tree_lookup root' j ≡ radix_tree_lookup root j

  grow-IsTaller :
      (rounds height : ℕ) (root : Root A)
      → height < 12
      → root.height < height
      → height ≤ root.height + rounds
      → IsCounted root.rnode
      → is_null root.rnode ≡ false
      → IsTaller root height (grow rounds height root)
  unfolding grow
  grow-IsTaller zero height root lt low fuel v full = absurd (omega arith)
  grow-IsTaller (suc rounds) height root lt low fuel v full =
      elim (Bool-cases (ltb (suc root.height) height)) [
        | inl more ↦
            let rest =
              grow-IsTaller rounds height (raise root) lt (ltb→lt _ _ more) (omega arith)
                (raise-IsCounted root v full) refl in
            rw more (record {
              tall = rest.tall;
              counted = rest.counted;
              same = λ j small. rest.same j small ∙ lookup-raise root j (omega arith) small;
            })
        | inr last ↦ rw last (record {
          tall = ground arith;
          counted = raise-IsCounted root v full;
          same = λ j small. lookup-raise root j (omega arith) small;
        })
      ]

  pub lookup-null :
      (h j : ℕ) (s : Slot A h)
      → is_null s ≡ true
      → radix_tree_lookup (record { height = h; rnode = s }) j ≡ none
  unfolding radix_tree_lookup
  lookup-null h j null e = ground (arith, lookup_slot-null {A = A} h j)
  lookup-null h j (item a) e = cc
  lookup-null h j (node c s) e = cc

  pub extend-IsTaller :
      (root : Root A) (index : ℕ)
      → index < 2 ^ 64
      → root.height < 12
      → IsCounted root.rnode
      → ltb (radix_tree_maxindex root.height) index ≡ true
      → IsTaller root (height_for 12 (root.height + 1) index) (radix_tree_extend root index)
  unfolding radix_tree_extend
  extend-IsTaller root index small lt v more =
      let room : root.height + 1 < 12 = ground (arith, maxindex_top index small) in
      let stop = height_for-IsHeightFor 12 (root.height + 1) index small room (omega arith) in
      elim (Bool-cases (is_null root.rnode)) [
        | inl empty ↦ rw empty (record {
          tall = refl;
          counted = tt;
          same =
              λ j _. lookup-null _ j null refl ∙ sym (lookup-null root.height j root.rnode empty);
        })
        | inr full ↦ rw full (
            grow-IsTaller 12 _ root stop.below (omega (arith, stop.from))
              (omega (arith, stop.below)) v full)
      ]
