-- ===== src/Radix/Insert.antt =====
-- `radix_tree_insert` of spdk_fs/radix_tree.c against lookup.
use spdk_blob_top_fs.Prelude.{
  ℕ, ◌*◌, ◌^◌, ◌<◌, ◌≡◌, sym, ◌∙◌, arith, Option, none, some, ltb, ◌==◌, if◌then◌else◌,
}
use spdk_blob_top_fs.Prelude.Map.{ok, eexist}
use spdk_blob_top_fs.Radix.{Root, make_room, lookup_slot, radix_tree_lookup, radix_tree_insert}
use spdk_blob_top_fs.Radix.Height.{lookup_root}
use spdk_blob_top_fs.Radix.Slots.{
  lookup_slot-insert, lookup_slot-insert_old, insert_slot-ok, insert_slot-IsCounted,
}
use spdk_blob_top_fs.Radix.Word.{agree, agree_lem}
use spdk_blob_top_fs.Radix.Room.{IsValid, IsRoomy, make_room-IsRoomy, seen_in_range}

module _ {A : Type 0} where
  module _ (root : Root A) (k : ℕ) (small : k < 2 ^ 64) (v : IsValid root) where
    abbrev tall : Root A
    tall = make_room root k

    tall-IsRoomy : IsRoomy root k tall
    tall-IsRoomy = make_room-IsRoomy root k small v

    -- The insertion of a key below 2^64 into a valid tree leaves a valid tree: the height is below
    -- 12, and each node counts its children.
    pub insert-IsValid : (a : A) → IsValid (radix_tree_insert root k a).1
    unfolding radix_tree_insert
    insert-IsValid a = record {
      below = tall-IsRoomy.below;
      counted = insert_slot-IsCounted tall.height k a tall.rnode tall-IsRoomy.counted;
    }

    -- What lookup finds in the tree that insertion works on.
    lookup-tall :
        (j : ℕ)
        → j < 2 ^ 64
        → (if ltb j (2 ^ (tall.height * 6)) then lookup_slot tall.height j tall.rnode else none)
          ≡ radix_tree_lookup root j
    lookup-tall j hj = sym (lookup_root tall j tall-IsRoomy.below hj) ∙ tall-IsRoomy.same j hj

    found_tall :
        (o : Option A) → radix_tree_lookup root k ≡ o → lookup_slot tall.height k tall.rnode ≡ o
    found_tall o e = ground (arith, lookup-tall k small, tall-IsRoomy.room)

    pub insert-ok : (a : A) → radix_tree_lookup root k ≡ none → (radix_tree_insert root k a).0 ≡ ok
    unfolding radix_tree_insert
    insert-ok a new = insert_slot-ok tall.height k a tall.rnode (found_tall none new)

    pub insert-eexist :
        (a b : A) → radix_tree_lookup root k ≡ some b → (radix_tree_insert root k a).0 ≡ eexist
    unfolding radix_tree_insert
    insert-eexist a b old =
        (lookup_slot-insert_old tall.height k k a b tall.rnode (found_tall (some b) old)).0

    -- In a valid tree, after a key below 2^64 that was not stored is inserted, a lookup of that
    -- key gives the item, and a lookup of any other key below 2^64 gives what it gave before.
    pub lookup-insert :
        (j : ℕ) (a : A)
        → j < 2 ^ 64
        → radix_tree_lookup root k ≡ none
        → radix_tree_lookup (radix_tree_insert root k a).1 j
          ≡ (if k == j then some a else radix_tree_lookup root j)
    unfolding radix_tree_insert
    lookup-insert j a hj new =
        rw (lookup_root (radix_tree_insert root k a).1 j tall-IsRoomy.below hj) (
          seen_in_range (2 ^ (tall.height * 6)) k j (agree tall.height k j) _ _ _ (some a)
            tall-IsRoomy.room (agree_lem tall.height k j)
            (lookup_slot-insert tall.height k j a tall.rnode (found_tall none new))
            (lookup-tall j hj))

    -- In a valid tree, the insertion of a key below 2^64 that is stored changes the result of no
    -- lookup of a key below 2^64.
    pub lookup-insert_old :
        (j : ℕ) (a b : A)
        → j < 2 ^ 64
        → radix_tree_lookup root k ≡ some b
        → radix_tree_lookup (radix_tree_insert root k a).1 j ≡ radix_tree_lookup root j
    unfolding radix_tree_insert
    lookup-insert_old j a b hj old =
        rw (lookup_root (radix_tree_insert root k a).1 j tall-IsRoomy.below hj) (
          ground (
            arith,
            lookup-tall j hj,
            lookup_slot-insert_old tall.height k j a b tall.rnode (found_tall (some b) old),
          ))
