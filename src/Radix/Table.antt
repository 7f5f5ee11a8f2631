-- ===== src/Radix/Table.antt =====
-- The operations of spdk_fs/radix_tree.h fill the interface that the memory manager uses.
use spdk_blob_top_fs.Prelude.{ℕ, ◌≡◌, refl, arith, none}
use spdk_blob_top_fs.Prelude.Map.{KeyTable}
use spdk_blob_top_fs.Radix.{
  null, Root, radix_tree_lookup, radix_tree_insert, radix_tree_delete, radix_tree_root_init,
}
use spdk_blob_top_fs.Radix.Height.{lookup-null}
use spdk_blob_top_fs.Radix.Room.{IsValid}
use spdk_blob_top_fs.Radix.Insert.{
  insert-IsValid, insert-ok, insert-eexist, lookup-insert, lookup-insert_old,
}
use spdk_blob_top_fs.Radix.Delete.{delete_lem, delete-IsValid, lookup-delete}

module _ {A : Type 0} where
  pub empty-IsValid : IsValid {A = A} radix_tree_root_init
  empty-IsValid = record { below = omega arith; counted = tt }

  pub lookup-empty : (k : ℕ) → radix_tree_lookup (radix_tree_root_init {A = A}) k ≡ none
  lookup-empty k = lookup-null 0 k null refl

unfoldable pub radix_table : (A : Type 0) → KeyTable A
radix_table A = record {
  Table = Root A;
  IsValid = IsValid;
  empty = radix_tree_root_init;
  insert = radix_tree_insert;
  lookup = radix_tree_lookup;
  delete = radix_tree_delete;
  empty-IsValid = empty-IsValid;
  insert-IsValid = λ t k a small v. insert-IsValid t k small v a;
  delete-IsValid = delete-IsValid;
  lookup-empty = lookup-empty;
  insert-new = λ t k a small v. insert-ok t k small v a;
  insert-old = λ t k a b small v. insert-eexist t k small v a b;
  lookup-insert = λ t k j a small hj v. lookup-insert t k small v j a hj;
  lookup-insert_old = λ t k j a b small hj v. lookup-insert_old t k small v j a b hj;
  delete_lem = delete_lem;
  lookup-delete = λ t k j small hj v. lookup-delete t k small v j hj;
}
