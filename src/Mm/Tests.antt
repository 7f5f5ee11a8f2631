-- ===== src/Mm/Tests.antt =====
-- The memory manager over the radix tree at concrete states, and the theorems there.
use spdk_blob_top_fs.Prelude.{ℕ, ◌<◌, ◌≡◌, ◌⊎◌, refl, true, false, [], ◌∷◌, none, arith}
use spdk_blob_top_fs.Prelude.Map.{KeyTable}
use spdk_blob_top_fs.Radix.{radix_tree_insert, radix_tree_lookup}
use spdk_blob_top_fs.Radix.Word.{slot_index, radix_tree_maxindex}
use spdk_blob_top_fs.Radix.Table.{radix_table, lookup-empty}
use spdk_blob_top_fs.Mm.{
  spdk_malloc, spdk_free, abort, done, Mm, boot, track, spdkfs_mm_find, spdkfs_malloc, spdkfs_free,
  find_next_entry,
}
use spdk_blob_top_fs.Mm.Consistent.{IsConsistent, boot-IsConsistent, track-IsConsistent}
use spdk_blob_top_fs.Mm.Alloc.{IsTracked, malloc-IsTracked}
use spdk_blob_top_fs.Mm.Release.{IsReleased, free-IsReleased}

abbrev T : KeyTable ℕ
T = radix_table ℕ

abbrev start : Mm T
start = boot T

-- SPDK handed out the buffer at 0x2000, in the first entry.
abbrev held : Mm T
held = track T start 0x2000 0

start_absent : T.lookup start.spdk_mem_root 0x2000 ≡ none
unfolding boot radix_table
start_absent = lookup-empty 0x2000

held-IsConsistent : IsConsistent T held
unfolding boot
held-IsConsistent =
    track-IsConsistent T start (boot-IsConsistent T) 0x2000 (omega arith) 0 (omega arith) refl
      start_absent

held_found : spdkfs_mm_find T held 0x2000 ≡ true
unfolding boot radix_table track spdkfs_mm_find radix_tree_insert radix_tree_lookup slot_index
    radix_tree_maxindex
held_found = refl

held_other : spdkfs_mm_find T held 0x3000 ≡ false
unfolding boot radix_table track spdkfs_mm_find radix_tree_insert radix_tree_lookup slot_index
    radix_tree_maxindex
held_other = refl

start_malloc : spdkfs_malloc T 9 0x2000 start 4096 ≡ done 0x2000 (spdk_malloc 4096 ∷ []) held
unfolding boot spdkfs_malloc find_next_entry
start_malloc = refl

malloc-IsTracked_example :
    ((spdkfs_malloc T 9 0x2000 start 4096 ≡ abort)
      × ((e : ℕ) → e < 4095 → (start.mm_table e).used ≡ true))
    ⊎ ((s' : Mm T) × (spdkfs_malloc T 9 0x2000 start 4096 ≡ done 0x2000 (spdk_malloc 4096 ∷ []) s')
        × IsTracked T start 0x2000 s')
malloc-IsTracked_example =
    malloc-IsTracked T 9 0x2000 4096 start (boot-IsConsistent T) refl (λ e. absurd (omega arith))
      (omega arith) start_absent

free-IsReleased_example :
    (s' : Mm T) × (spdkfs_free T held 0x2000 ≡ (spdk_free 0x2000 ∷ [], s'))
    × IsReleased T held 0x2000 s'
free-IsReleased_example = free-IsReleased T held 0x2000 held-IsConsistent (omega arith) held_found
