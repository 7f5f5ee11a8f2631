-- ===== src/Radix/Room.antt =====
-- Validity of a tree of spdk_fs/radix_tree.c, and the tree that insertion works on.
use spdk_blob_top_fs.Prelude.{
  ℕ, ◌+◌, ◌*◌, ◌^◌, ◌<◌, ◌≡◌, refl, inl, inr, Bool, true, arith, Option, none, ltb, ◌==◌,
  if◌then◌else◌, Bool-cases, ltb→lt,
}
use spdk_blob_top_fs.Radix.{Root, make_room, radix_tree_lookup}
use spdk_blob_top_fs.Radix.Count.{IsCounted}
use spdk_blob_top_fs.Radix.Height.{extend-IsTaller, height_for-IsHeightFor}
use spdk_blob_top_fs.Radix.Word.{radix_tree_maxindex, lt-maxindex, maxindex_top}

-- A write at `k`, below the bound `n`, that is seen at `j`.
pub seen_in_range :
    {A : Type 0} (n k j : ℕ) (b : Bool) (x l r o : Option A)
    → ltb k n ≡ true
    → (k < n → j < n → b ≡ (k == j))
    → x ≡ (if b then o else l)
    → (if ltb j n then l else none) ≡ r
    → (if ltb j n then x else none) ≡ (if k == j then o else r)
seen_in_range n k j b x l r o hk same e f = elim (Bool-cases (ltb j n)) [
  | inl hj ↦ ground (arith, same (ltb→lt k n hk) (ltb→lt j n hj))
  | inr hj ↦ ground arith
]

module _ {A : Type 0} where
  -- The table of the largest keys covers the height, and each node counts its children.
  pub record IsValid (root : Root A) : Type 0 where
    pub below : root.height < 12
    pub counted : IsCounted root.rnode

  pub record IsRoomy (root : Root A) (index : ℕ) (root' : Root A) : Type 0 where
    pub below : root'.height < 12
    pub counted : IsCounted root'.rnode
    pub room : ltb index (2 ^ (root'.height * 6)) ≡ true
    pub same : (j : ℕ) → j < 2 ^ 64 → radix_tree_lookup root' j ≡ radix_tree_lookup root j

  pub make_room-IsRoomy :
      (root : Root A) (index : ℕ)
      → index < 2 ^ 64
      → IsValid root
      → IsRoomy root index (make_room root index)
  unfolding make_room
  make_room-IsRoomy root index small v =
      elim (Bool-cases (ltb (radix_tree_maxindex root.height) index)) [
        | inl more ↦
            let room : root.height + 1 < 12 = ground (arith, maxindex_top index small) in
            let stop = height_for-IsHeightFor 12 (root.height + 1) index small room (omega arith) in
            let taller = extend-IsTaller root index small v.below v.counted more in
            rw more (record {
              below = omega (arith, stop.below, taller.tall);
              counted = taller.counted;
              room =
                  rw taller.tall (ground (arith, lt-maxindex _ index stop.below small, stop.fits));
              same = taller.same;
            })
        | inr fits ↦ rw fits (record {
          below = v.below;
          counted = v.counted;
          room = ground (arith, lt-maxindex root.height index v.below small);
          same = λ j _. refl;
        })
      ]
