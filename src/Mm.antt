-- ===== src/Mm.antt =====
-- spdk_fs/io_mm.c: which buffers come from SPDK's memory and which from the program's own
-- allocator. The radix tree is the section's parameter. What an allocator returns is an argument
-- (0 is NULL), and its calls are recorded in the result.
pub mod Search
pub mod Consistent
pub mod Alloc
pub mod Release
pub mod Lifetime
mod Tests
use spdk_blob_top_fs.Prelude.{
  ℕ, zero, suc, ◌+◌, ◌-◌, ◌%◌, Bool, true, false, not, Option, none, some, List, [], ◌∷◌, leb, ◌==◌,
  if◌then◌else◌,
}
use spdk_blob_top_fs.Prelude.Map.{KeyTable}

abbrev pub spdk_mm_ent_offset : ℕ
spdk_mm_ent_offset = 996

abbrev pub max_io_ptr_num : ℕ
max_io_ptr_num = 4096

-- `struct mm_entry`
pub record MmEntry : Type 0 where
  pub ptr : ℕ
  pub used : Bool

-- The calls of the allocators.
pub data Call : Type 0 where
  u_malloc spdk_malloc : (size : ℕ) → Call
  u_free spdk_free : (ptr : ℕ) → Call
  u_realloc spdk_realloc : (ptr size : ℕ) → Call

-- An `assert` that fails ends the program.
pub data Outcome (S : Type 0) : Type 0 where
  done : (ret : ℕ) → List Call → S → Outcome S
  abort : Outcome S

abbrev pub put : (ℕ → MmEntry) → ℕ → MmEntry → ℕ → MmEntry
put table i e j = if i == j then e else table j

-- `for (i = mm_table_count; i != stop; i = (i + 1) % MAX_IO_PTR_NUM)`; none is -1.
pub find_free : (rounds i stop : ℕ) → (ℕ → MmEntry) → Option ℕ
find_free zero i stop table = none
find_free (suc rounds) i stop table =
    let rest = find_free rounds ((i + 1) % max_io_ptr_num) stop table in
    if i == stop then none else if not (table i).used then some i else rest

-- At most `MAX_IO_PTR_NUM` turns, after which `i` is back where it began.
unfoldable pub find_next_entry : ℕ → (ℕ → MmEntry) → Option ℕ
unfolding find_free
find_next_entry count table =
    if leb max_io_ptr_num count
    then none
    else find_free max_io_ptr_num count ((count + max_io_ptr_num - 1) % max_io_ptr_num) table

-- `for (i = 0; i <= MAX_IO_PTR_NUM; ++i)`, which stops once nothing is counted.
pub free_loop : (rounds i count : ℕ) → (ℕ → MmEntry) → List Call × ℕ
free_loop zero i count table = ([], count)
free_loop (suc rounds) i count table =
    let rest = free_loop rounds (i + 1) count table in
    let freed = free_loop rounds (i + 1) (count - 1) table in
    if count == 0
    then ([], count)
    else if (table i).used
    then (spdk_free (table i).ptr ∷ freed.0, freed.1)
    else rest

module _ (T : KeyTable ℕ) where
  open T use {Table, lookup, insert, delete}

  -- The static variables.
  pub record Mm : Type 0 where
    pub initialized : Bool
    pub spdk_mem_root : Table
    pub mm_table : ℕ → MmEntry
    pub mm_table_count : ℕ

  unfoldable pub boot : Mm
  boot = record {
    initialized = false;
    spdk_mem_root = T.empty;
    mm_table = λ i. record { ptr = 0; used = false };
    mm_table_count = 0;
  }

  unfoldable pub spdkfs_mm_init : Mm → Bool × Mm
  spdkfs_mm_init s = (true, record s { initialized = true })

  pub spdkfs_mm_find : Mm → ℕ → Bool
  spdkfs_mm_find s ptr = elim (lookup s.spdk_mem_root ptr) [
    | none ↦ false
    | some ent ↦ not (ent == 0)
  ]

  -- A buffer from `spdk_malloc` takes an entry of the table and a key of the tree.
  pub track : Mm → (mem ent : ℕ) → Mm
  track s mem ent = record s {
    spdk_mem_root = (insert s.spdk_mem_root mem (ent + spdk_mm_ent_offset)).1;
    mm_table = put s.mm_table ent (record { ptr = mem; used = true });
  }

  unfoldable pub spdkfs_malloc : (user_mem spdk_mem : ℕ) → Mm → ℕ → Outcome Mm
  spdkfs_malloc user_mem spdk_mem s size =
      if not (size % 4096 == 0)
      then (if user_mem == 0 then abort else done user_mem (u_malloc size ∷ []) s)
      else if spdk_mem == 0
      then done user_mem (spdk_malloc size ∷ u_malloc size ∷ []) s
      else elim (find_next_entry s.mm_table_count s.mm_table) [
        | none ↦ abort
        | some ent ↦ done spdk_mem (spdk_malloc size ∷ []) (track s spdk_mem ent)
      ]

  pub spdkfs_realloc : (user_mem spdk_mem : ℕ) → Mm → (buffer size : ℕ) → Outcome Mm
  spdkfs_realloc user_mem spdk_mem s buffer size =
      if spdkfs_mm_find s buffer
      then done spdk_mem (spdk_realloc buffer size ∷ []) s
      else done user_mem (u_realloc buffer size ∷ []) s

  -- The entry that the tree held for a buffer is given back. `spdkfs_free` comes here only after
  -- a lookup that found the buffer; a NULL from the tree would write before the table.
  pub untrack : Mm → Option ℕ × Table → Mm
  untrack s (none, root) = record s { spdk_mem_root = root }
  untrack s (some ent, root) =
      let i = ent - spdk_mm_ent_offset in
      record s {
        spdk_mem_root = root;
        mm_table = put s.mm_table i (record { ptr = (s.mm_table i).ptr; used = false });
      }

  pub spdkfs_free : Mm → ℕ → List Call × Mm
  spdkfs_free s ptr =
      if spdkfs_mm_find s ptr
      then (spdk_free ptr ∷ [], untrack s (delete s.spdk_mem_root ptr))
      else (u_free ptr ∷ [], s)

  pub spdkfs_mm_free : Mm → List Call × Mm
  spdkfs_mm_free s =
      let (calls, count) = free_loop (max_io_ptr_num + 1) 0 s.mm_table_count s.mm_table in
      (calls, record s { mm_table_count = count })
