-- ===== src/Prelude/Map.antt =====
-- What `io_mm.c` needs of a table from 64-bit keys to items: the operations of
-- `spdk_fs/radix_tree.h`, a validity predicate, and the laws that a client may use.
use Prim.Native.Nat.{ℕ, ◌^◌, ◌<◌}
use mathlib.Core.Path.{◌≡◌}
use mathlib.Core.Option.{Option, none, some}
use spdk_blob_top_fs.Prelude.Tests.{◌==◌, if◌then◌else◌}

pub data Error : Type 0 where
  ok eexist : Error

pub record KeyTable (A : Type 0) : Type 1 where
  pub Table : Type 0
  pub IsValid : Table → Type 0
  pub empty : Table
  pub insert : Table → ℕ → A → Error × Table
  pub lookup : Table → ℕ → Option A
  pub delete : Table → ℕ → Option A × Table
  pub empty-IsValid : IsValid empty
  pub insert-IsValid :
      (t : Table) (k : ℕ) (a : A) → k < 2 ^ 64 → IsValid t → IsValid (insert t k a).1
  pub delete-IsValid : (t : Table) (k : ℕ) → k < 2 ^ 64 → IsValid t → IsValid (delete t k).1
  pub lookup-empty : (k : ℕ) → lookup empty k ≡ none
  pub insert-new :
      (t : Table) (k : ℕ) (a : A)
      → k < 2 ^ 64
      → IsValid t
      → lookup t k ≡ none
      → (insert t k a).0 ≡ ok
  pub insert-old :
      (t : Table) (k : ℕ) (a b : A)
      → k < 2 ^ 64
      → IsValid t
      → lookup t k ≡ some b
      → (insert t k a).0 ≡ eexist
  pub lookup-insert :
      (t : Table) (k j : ℕ) (a : A)
      → k < 2 ^ 64
      → j < 2 ^ 64
      → IsValid t
      → lookup t k ≡ none
      → lookup (insert t k a).1 j ≡ (if k == j then some a else lookup t j)
  pub lookup-insert_old :
      (t : Table) (k j : ℕ) (a b : A)
      → k < 2 ^ 64
      → j < 2 ^ 64
      → IsValid t
      → lookup t k ≡ some b
      → lookup (insert t k a).1 j ≡ lookup t j
  pub delete_lem : (t : Table) (k : ℕ) → k < 2 ^ 64 → IsValid t → (delete t k).0 ≡ lookup t k
  pub lookup-delete :
      (t : Table) (k j : ℕ)
      → k < 2 ^ 64
      → j < 2 ^ 64
      → IsValid t
      → lookup (delete t k).1 j ≡ (if k == j then none else lookup t j)
