-- ===== src/Radix.antt =====
-- spdk_fs/radix_tree.c and radix_tree.h: a tree of 64-way nodes that maps unsigned long keys to
-- pointers. A `void *` slot is read by the level it stands at: at level 0 it is an item, above it
-- a node. Nodes are linked once and never shared, so a slot holds its node as a value.
pub mod Word
pub mod Count
pub mod Height
pub mod Room
pub mod Insert
pub mod Delete
pub mod Memory
pub mod Table
pub mod Gang
pub mod Listing
mod Tests
pub mod Slots
use spdk_blob_top_fs.Prelude.{
  ℕ, zero, suc, ◌+◌, ◌-◌, ◌*◌, ◌%◌, ◌^◌, Bool, true, false, Option, none, some, ltb, ◌==◌,
  if◌then◌else◌,
}
use spdk_blob_top_fs.Prelude.Map.{Error, ok, eexist}
use Word.{slot_index, radix_tree_maxindex}

-- What a slot at a level holds. `node` is `struct radix_tree_node`: the number of slots in use, and
-- the slots, of which those below 64 exist.
pub data Slot {ℓ} (A : Type ℓ) : ℕ → Type ℓ where
  null : {h : ℕ} → Slot A h
  item : A → Slot A zero
  node : {h : ℕ} → (count : ℕ) → (slots : ℕ → Slot A h) → Slot A (suc h)

-- `struct radix_tree_root`
pub record Root {ℓ} (A : Type ℓ) : Type ℓ where
  pub height : ℕ
  pub rnode : Slot A height

-- An unsigned int wraps.
abbrev pub inc : ℕ → ℕ
inc n = (n + 1) % 2 ^ 32

abbrev pub dec : ℕ → ℕ
dec n = (n + 2 ^ 32 - 1) % 2 ^ 32

abbrev pub write {ℓ} : {S : Type ℓ} → (ℕ → S) → ℕ → S → ℕ → S
write f i s j = if i == j then s else f j

-- `while (index > radix_tree_maxindex(height)) height++;`, with a bound on the rounds.
pub height_for : (rounds height index : ℕ) → ℕ
height_for zero height index = height
height_for (suc rounds) height index =
    let rest = height_for rounds (height + 1) index in
    if ltb (radix_tree_maxindex height) index then rest else height

module _ {ℓ} {A : Type ℓ} where
  abbrev pub is_null : {h : ℕ} → Slot A h → Bool
  is_null null = true
  is_null (item a) = false
  is_null (node count slots) = false

  -- RADIX_TREE_INIT
  abbrev pub radix_tree_root_init : Root A
  radix_tree_root_init = record { height = 0; rnode = null }

  -- `do { push the root one level down } while (height > root->height)`, with a bound on the rounds.
  pub grow : (rounds : ℕ) → ℕ → Root A → Root A
  grow zero height root = root
  grow (suc rounds) height root =
      let root' : Root A = record {
        height = suc root.height;
        rnode = node 1 (write (λ i. null) 0 root.rnode);
      } in
      let rest = grow rounds height root' in if ltb (suc root.height) height then rest else root'

  pub radix_tree_extend : Root A → ℕ → Root A
  unfolding grow height_for
  radix_tree_extend root index =
      let height = height_for 12 (root.height + 1) index in
      if is_null root.rnode then record { height = height; rnode = null } else grow 12 height root

  -- One step of the descent of `radix_tree_insert`, with the recursive call on the slot that the
  -- key selects. A slot that is NULL is filled on the way, and is counted by its node.
  abbrev pub insert_child :
      {h : ℕ}
      → (count : ℕ) → (slots : ℕ → Slot A h) → (i : ℕ) → Error × Slot A h
      → Error × Slot A (suc h)
  insert_child count slots i (error, child) =
      (error, node (if is_null (slots i) then inc count else count) (write slots i child))

  -- `radix_tree_node_alloc` is `calloc`, which zeroes the count and the slots; it aborts rather
  -- than fail.
  pub insert_slot : (h index : ℕ) → A → Slot A h → Error × Slot A h
  insert_slot zero index a null = (ok, item a)
  insert_slot zero index a (item old) = (eexist, item old)
  insert_slot (suc h) index a null =
      insert_child 0 (λ i. null) (slot_index index h) (insert_slot h index a null)
  insert_slot (suc h) index a (node count slots) =
      let i = slot_index index h in insert_child count slots i (insert_slot h index a (slots i))

  -- "Make sure the tree is high enough."
  pub make_room : Root A → ℕ → Root A
  unfolding radix_tree_extend
  make_room root index =
      if ltb (radix_tree_maxindex root.height) index then radix_tree_extend root index else root

  unfoldable pub radix_tree_insert : Root A → ℕ → A → Error × Root A
  unfolding make_room insert_slot
  radix_tree_insert root index a =
      let tall = make_room root index in
      let (error, slot) = insert_slot tall.height index a tall.rnode in
      (error, record { height = tall.height; rnode = slot })

  pub lookup_slot : (h index : ℕ) → Slot A h → Option A
  lookup_slot zero index null = none
  lookup_slot zero index (item a) = some a
  lookup_slot (suc h) index null = none
  lookup_slot (suc h) index (node count slots) = lookup_slot h index (slots (slot_index index h))

  unfoldable pub radix_tree_lookup : Root A → ℕ → Option A
  unfolding lookup_slot
  radix_tree_lookup root index =
      if ltb (radix_tree_maxindex root.height) index
      then none
      else lookup_slot root.height index root.rnode

  -- One turn of `while (pathp[0].node && --pathp[0].node->count == 0)`, on the way back up. Where
  -- the child became NULL, the node loses one, and is freed with its own slot set to NULL at zero;
  -- where it did not, the loop stopped further down.
  abbrev pub delete_child :
      {h : ℕ}
      → (count : ℕ) → (slots : ℕ → Slot A h) → (i : ℕ) → Option A × Slot A h
      → Option A × Slot A (suc h)
  delete_child count slots i (none, child) = (none, node count slots)
  delete_child count slots i (some a, child) = (
    some a,
    if is_null child
        then (if dec count == 0 then null else node (dec count) (write slots i null))
        else node count (write slots i child),
  )

  pub delete_slot : (h index : ℕ) → Slot A h → Option A × Slot A h
  delete_slot zero index null = (none, null)
  delete_slot zero index (item a) = (some a, null)
  delete_slot (suc h) index null = (none, null)
  delete_slot (suc h) index (node count slots) =
      let i = slot_index index h in delete_child count slots i (delete_slot h index (slots i))

  -- `if (root->rnode == NULL) root->height = 0;`
  abbrev pub reset_height : (h : ℕ) → Slot A h → Root A
  reset_height h slot =
      if is_null slot then radix_tree_root_init else record { height = h; rnode = slot }

  -- Nothing changes where nothing was found.
  abbrev pub finish_delete : (root : Root A) → Option A × Slot A root.height → Option A × Root A
  finish_delete root (none, slot) = (none, root)
  finish_delete root (some a, slot) = (some a, reset_height root.height slot)

  unfoldable pub radix_tree_delete : Root A → ℕ → Option A × Root A
  unfolding delete_slot
  radix_tree_delete root index =
      if ltb (radix_tree_maxindex root.height) index
      then (none, root)
      else finish_delete root (delete_slot root.height index root.rnode)
