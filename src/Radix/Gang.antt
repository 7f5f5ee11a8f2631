-- ===== src/Radix/Gang.antt =====
-- `__lookup` and `radix_tree_gang_lookup` of spdk_fs/radix_tree.c: the scan of a tree in ascending
-- order of keys. The items are returned as a list, in the order in which they are stored at
-- `results`, so that the count that the code returns is its length.
mod Blocks
mod Sweep
mod Parts
pub mod Whole
use spdk_blob_top_fs.Prelude.{
  ℕ, zero, suc, ◌+◌, ◌-◌, ◌*◌, ◌/◌, ◌%◌, ◌^◌, Bool, true, false, not, ◌&&◌, Option, none, some,
  List, [], ◌∷◌, ◌++◌, ltb, ◌==◌, if◌then◌else◌, length,
}
use spdk_blob_top_fs.Radix.{Slot, null, item, node, Root, is_null}
use spdk_blob_top_fs.Radix.Word.{
  slot_index, radix_tree_map_shift, radix_tree_map_size, radix_tree_maxindex,
}

-- `1 << shift`, of type int. C does not say what it is from bit 31 on: `beyond` does.
abbrev pub one_shl : (beyond : ℕ → ℕ) → ℕ → ℕ
one_shl beyond shift = if ltb shift 31 then 2 ^ shift else beyond shift

-- `index &= ~(one - 1); index += one;` on an unsigned long, where `one` is a power of 2.
abbrev pub next_block : ℕ → ℕ → ℕ
next_block one index = (index - index % one + one) % 2 ^ 64

module _ {ℓ} {A : Type ℓ} where
  -- `for (; i < RADIX_TREE_MAP_SIZE; i++)`, with the rounds that are left: the first slot that is not
  -- NULL, if the loop stops at one, and `index`.
  pub first_slot : (rounds one i index : ℕ) {h : ℕ} → (ℕ → Slot A h) → Option ℕ × ℕ
  first_slot zero one i index slots = (none, index)
  first_slot (suc rounds) one i index slots =
      let index' = next_block one index in
      let rest = first_slot rounds one (i + 1) index' slots in
      let skipped = if index' == 0 then (none, index') else rest in
      if is_null (slots i) then skipped else (some i, index)

  -- The item is stored, and `nr_found == max_items` ends the loop.
  abbrev pub take_item : (nr_found max_items index : ℕ) → A → List A × ℕ → List A × ℕ
  take_item nr_found max_items index a (items, last) =
      if nr_found + 1 == max_items then (a ∷ [], index) else (a ∷ items, last)

  abbrev pub take_slot :
      (nr_found max_items index : ℕ) → Slot A zero → (ℕ → List A × ℕ) → List A × ℕ
  take_slot nr_found max_items index null rest = rest nr_found
  take_slot nr_found max_items index (item a) rest =
      take_item nr_found max_items index a (rest (nr_found + 1))

  -- "Bottom level: grab some items": `for (; j < RADIX_TREE_MAP_SIZE; j++)`, with the rounds that are
  -- left.
  pub grab : (rounds j index nr_found max_items : ℕ) → (ℕ → Slot A zero) → List A × ℕ
  grab zero j index nr_found max_items slots = ([], index)
  grab (suc rounds) j index nr_found max_items slots =
      let index' = (index + 1) % 2 ^ 64 in
      take_slot nr_found max_items index' (slots j)
        (λ nr. grab rounds (j + 1) index' nr max_items slots)

  -- After the loop over the slots of a node: `goto out`, or the slot that was found.
  abbrev pub descend : Option ℕ × ℕ → (ℕ → ℕ → List A × ℕ) → List A × ℕ
  descend (none, index) go = ([], index)
  descend (some i, index) go = go i index

  -- `while (height > 0)` from a slot: the items, and `*next_index`. The slot is a node wherever the
  -- loop reads one.
  pub lookup_from : (beyond : ℕ → ℕ) (max_items h index : ℕ) → Slot A h → List A × ℕ
  lookup_from beyond max_items zero index slot = ([], index)
  lookup_from beyond max_items (suc h) index null = ([], index)
  lookup_from beyond max_items (suc zero) index (node count slots) =
      let i = slot_index index 0 in
      descend (first_slot (radix_tree_map_size - i) (one_shl beyond 0) i index slots) (λ i index.
        let j = index % radix_tree_map_size in
        grab (radix_tree_map_size - j) j index 0 max_items slots)
  lookup_from beyond max_items (suc (suc h)) index (node count slots) =
      let i = slot_index index (suc h) in
      let one = one_shl beyond (suc h * radix_tree_map_shift) in
      descend (first_slot (radix_tree_map_size - i) one i index slots)
        (λ i index. lookup_from beyond max_items (suc h) index (slots i))

  -- `while (ret < max_items)`, with a bound on the rounds and the items so far. `none` is a run that
  -- uses up the bound.
  pub gang_loop :
      (beyond : ℕ → ℕ) (fuel max_items cur_index : ℕ) → Root A → List A → Option (List A)
  gang_loop beyond zero max_items cur_index root items = none
  gang_loop beyond (suc fuel) max_items cur_index root items =
      let room = max_items - length items in
      let more = lookup_from beyond room root.height cur_index root.rnode in
      let items' = items ++ more.0 in
      let rest = gang_loop beyond fuel max_items more.1 root items' in
      if not (ltb (length items) max_items)
      then some items
      else if ltb (radix_tree_maxindex root.height) cur_index
      then some items
      else if more.1 == 0
      then some items'
      else rest

  -- `*results = root->rnode` in a tree of height 0, whose root is an item.
  abbrev pub item_of : {h : ℕ} → Slot A h → List A
  item_of null = []
  item_of (item a) = a ∷ []
  item_of (node count slots) = []

  unfoldable pub radix_tree_gang_lookup :
      (beyond : ℕ → ℕ) → Root A → (first_index max_items : ℕ) → Option (List A)
  unfolding gang_loop lookup_from grab first_slot
  radix_tree_gang_lookup beyond root first_index max_items =
      let max_index = radix_tree_maxindex root.height in
      if is_null root.rnode
      then some []
      else if max_index == 0
      then some (if (first_index == 0) && ltb 0 max_items then item_of root.rnode else [])
      else gang_loop beyond (max_index + 2) max_items first_index root []
