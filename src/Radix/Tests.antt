-- ===== src/Radix/Tests.antt =====
-- Trees of spdk_fs/radix_tree.c at concrete keys, and the theorems there.
use spdk_blob_top_fs.Radix.Gang.{radix_tree_gang_lookup}
use spdk_blob_top_fs.Radix.Gang.Whole.{gang_lookup-take}
use spdk_blob_top_fs.Radix.Listing.{stored, take}
use spdk_blob_top_fs.Prelude.{
  [], ◌∷◌, ℕ, ◌≡◌, refl, true, none, some, ◌==◌, if◌then◌else◌, arith, ltb, ◌^◌, ◌*◌, ◌-◌, ◌<◌,
  subst, sym,
}
use spdk_blob_top_fs.Radix.{
  Root, radix_tree_root_init, radix_tree_insert, radix_tree_lookup, radix_tree_delete,
}
use spdk_blob_top_fs.Radix.Room.{IsValid}
use spdk_blob_top_fs.Radix.Insert.{insert-IsValid, lookup-insert, lookup-insert_old}
use spdk_blob_top_fs.Radix.Delete.{delete-IsValid, lookup-delete}
use spdk_blob_top_fs.Radix.Table.{empty-IsValid}
use spdk_blob_top_fs.Radix.Word.{slot_index, radix_tree_maxindex}

abbrev empty : Root ℕ
empty = radix_tree_root_init

-- Key 5 holds item 7.
abbrev one : Root ℕ
one = (radix_tree_insert empty 5 7).1

-- Key 300 too, which makes the tree two levels high.
abbrev two : Root ℕ
two = (radix_tree_insert one 300 8).1

two_height : two.height ≡ 2
unfolding radix_tree_insert slot_index radix_tree_maxindex
two_height = refl

two_found :
    (radix_tree_lookup two 5 ≡ some 7)
    × (radix_tree_lookup two 300 ≡ some 8)
    × (radix_tree_lookup two 301 ≡ none)
unfolding radix_tree_insert radix_tree_lookup slot_index radix_tree_maxindex
two_found = (refl, refl, refl)

two_emptied : radix_tree_delete (radix_tree_delete two 300).1 5 ≡ (some 7, empty)
unfolding radix_tree_insert radix_tree_delete slot_index radix_tree_maxindex
two_emptied = refl

one-IsValid : IsValid one
one-IsValid = insert-IsValid empty 5 (omega arith) empty-IsValid 7

one_absent : radix_tree_lookup one 300 ≡ none
unfolding radix_tree_insert radix_tree_lookup slot_index radix_tree_maxindex
one_absent = refl

one_present : radix_tree_lookup one 5 ≡ some 7
unfolding radix_tree_insert radix_tree_lookup slot_index radix_tree_maxindex
one_present = refl

two-IsValid : IsValid two
two-IsValid = insert-IsValid one 300 (omega arith) one-IsValid 8

insert-IsValid_example : IsValid (radix_tree_insert one 300 8).1
insert-IsValid_example = insert-IsValid one 300 (omega arith) one-IsValid 8

lookup-insert_example :
    radix_tree_lookup (radix_tree_insert one 300 8).1 5
    ≡ (if 300 == 5 then some 8 else radix_tree_lookup one 5)
lookup-insert_example = lookup-insert one 300 (omega arith) one-IsValid 5 8 (omega arith) one_absent

lookup-insert_old_example :
    radix_tree_lookup (radix_tree_insert one 5 9).1 5 ≡ radix_tree_lookup one 5
lookup-insert_old_example =
    lookup-insert_old one 5 (omega arith) one-IsValid 5 9 7 (omega arith) one_present

delete-IsValid_example : IsValid (radix_tree_delete two 300).1
delete-IsValid_example = delete-IsValid two 300 (omega arith) two-IsValid

lookup-delete_example :
    radix_tree_lookup (radix_tree_delete two 300).1 5
    ≡ (if 300 == 5 then none else radix_tree_lookup two 5)
lookup-delete_example = lookup-delete two 300 (omega arith) two-IsValid 5 (omega arith)

one_too_low : ltb (radix_tree_maxindex one.height) 300 ≡ true
unfolding radix_tree_insert radix_tree_maxindex
one_too_low = refl

gang_two :
    (radix_tree_gang_lookup (λ s. 0) two 0 9 ≡ some (7 ∷ 8 ∷ []))
    × (radix_tree_gang_lookup (λ s. 0) two 6 9 ≡ some (8 ∷ []))
    × (radix_tree_gang_lookup (λ s. 0) two 0 1 ≡ some (7 ∷ []))
unfolding radix_tree_insert radix_tree_gang_lookup slot_index radix_tree_maxindex
gang_two = (refl, refl, refl)

two_low : two.height < 7
two_low = subst (λ (h : ℕ). h < 7) (sym two_height) (omega arith)

gang_lookup-take_example :
    radix_tree_gang_lookup (λ s. 0) two 6 9
    ≡ some (take 9 (stored (radix_tree_lookup two) 6 (2 ^ (two.height * 6) - 6)))
gang_lookup-take_example = gang_lookup-take (λ s. 0) two 6 9 two_low (omega arith)
