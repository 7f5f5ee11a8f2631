-- ===== src/Mm/Search.antt =====
-- The search for a free entry of the table of spdk_fs/io_mm.c.
use spdk_blob_top_fs.Prelude.{
  ℕ, zero, suc, ◌+◌, ◌%◌, ◌≤◌, ◌<◌, ◌≡◌, refl, true, false, arith, none, some, ◌==◌, Bool-cases,
  inl, inr,
}
use spdk_blob_top_fs.Mm.{MmEntry, find_free, find_next_entry}

-- From `i` up to the last entry, which is where the search stops.
find_free-some :
    (rounds i e : ℕ) (table : ℕ → MmEntry)
    → i ≤ 4095
    → find_free rounds i 4095 table ≡ some e
    → (i ≤ e) × (e < 4095) × ((table e).used ≡ false)
unfolding find_free
find_free-some zero i e table le h = cc
find_free-some (suc rounds) i e table le h =
    ground (arith, find_free-some rounds ((i + 1) % 4096) e table)

find_free-none :
    (rounds i j : ℕ) (table : ℕ → MmEntry)
    → i ≤ 4095
    → 4095 ≤ i + rounds
    → find_free rounds i 4095 table ≡ none
    → i ≤ j
    → j < 4095
    → (table j).used ≡ true
unfolding find_free
find_free-none zero i j table le fuel h hi hj = absurd (omega arith)
find_free-none (suc rounds) i j table le fuel h hi hj = elim (Bool-cases (i == j)) [
  | inl here ↦ ground arith
  | inr later ↦ ground (arith, find_free-none rounds ((i + 1) % 4096) j table)
]

-- An entry that is found is free, and is not the last of the table.
pub find_next_entry-some :
    (table : ℕ → MmEntry) (e : ℕ)
    → find_next_entry 0 table ≡ some e
    → (e < 4095) × ((table e).used ≡ false)
unfolding find_next_entry
find_next_entry-some table e h =
    let found = find_free-some 4096 0 e table (omega arith) h in (found.1, found.2)

-- The search fails only when every entry but the last is in use.
pub find_next_entry-none :
    (table : ℕ → MmEntry) (j : ℕ)
    → find_next_entry 0 table ≡ none
    → j < 4095
    → (table j).used ≡ true
unfolding find_next_entry
find_next_entry-none table j h hj =
    find_free-none 4096 0 j table (omega arith) (omega arith) h (omega arith) hj

-- It does fail then, also with the last entry free.
find_free-full :
    (rounds i : ℕ) (table : ℕ → MmEntry)
    → i ≤ 4095
    → ((j : ℕ) → j < 4095 → (table j).used ≡ true)
    → find_free rounds i 4095 table ≡ none
unfolding find_free
find_free-full zero i table le all = refl
find_free-full (suc rounds) i table le all =
    ground (arith, all i, find_free-full rounds ((i + 1) % 4096) table)

find_next_entry-full :
    (table : ℕ → MmEntry)
    → ((j : ℕ) → j < 4095 → (table j).used ≡ true)
    → find_next_entry 0 table ≡ none
unfolding find_next_entry
find_next_entry-full table all = find_free-full 4096 0 table (omega arith) all
