-- ===== src/Interface/Tests.antt =====
-- Calls with given paths and descriptors.
use spdk_blob_top_fs.File.Ram.{blank_persist}
use spdk_blob_top_fs.Prelude.{
  ℕ, ◌≡◌, refl, true, false, arith, Option, none, some, inr, List, [], ◌∷◌,
}
use spdk_blob_top_fs.Fd.Count.{in_use}
use spdk_blob_top_fs.Dir.{Dirent, Dir}
use spdk_blob_top_fs.File.{Blobstore}
use spdk_blob_top_fs.File.Ram.{ram}
use spdk_blob_top_fs.Monopoly.{Sys}
use spdk_blob_top_fs.Monopoly.Sound.{IsSound}
use spdk_blob_top_fs.Monopoly.{monopoly_create, place}
use spdk_blob_top_fs.Dir.{spdkfs_dir_lookup, lookup_from}
use spdk_blob_top_fs.Fd.{get_fd_from_table, search_fd}
use spdk_blob_top_fs.Interface.{same_bytes, open_created, spdk_ptop_blobfile, descriptor, spdk_open}
use spdk_blob_top_fs.Interface.Transfer
use spdk_blob_top_fs.Interface.Transfer.{spdk_lseek}
use spdk_blob_top_fs.Monopoly.Descriptor.{lseek_fd}
use spdk_blob_top_fs.File.{monopoly_lseek}
use spdk_blob_top_fs.Interface.Trace
use spdk_blob_top_fs.Interface.Trace.{
  IsStart, next, open_step, lseek_step, IsOpenable, Reachable-IsOpenable,
}
use spdk_blob_top_fs.Prelude.Map.{KeyTable}
use spdk_blob_top_fs.Radix.Table.{radix_table}
use spdk_blob_top_fs.Mm.{
  spdk_malloc, done, Mm, boot, track, spdkfs_mm_init, spdkfs_malloc, find_next_entry,
}
use spdk_blob_top_fs.Interface.Memory.{malloc, free}
use spdk_blob_top_fs.Interface.Memory.World.{
  spdk, free_of, own, World, Reachable, start, init, alloc,
}
use spdk_blob_top_fs.Interface.Memory.Owned.{free-owner}

abbrev path_a : List ℕ
path_a = b's' ∷ b'p' ∷ b'd' ∷ b'k' ∷ b'f' ∷ b's' ∷ b'/' ∷ b'a' ∷ []

abbrev store : Blobstore
store = ram 4096 8192

abbrev blob : store.Blob
blob = record { clusters = 0; bytes = λ j. 0; attribute = none }

abbrev blank : ℕ → Dirent
blank i = record { name = λ j. 0; id = 0 }

abbrev sys_0 : Sys store
sys_0 = record {
  fds = record {
    file_count = 0;
    used = λ j. false;
    open_files = λ j. record { blob = blob; persist = blank_persist; f_pos = 0 };
  };
  workdir = record {
    initialized = true;
    dirty = false;
    d_dirent_count = 0;
    d_size = 0;
    dirents = blank;
  };
}

sys_0-IsSound : IsSound sys_0
unfolding in_use
sys_0-IsSound = record {
  fds = record { counted = refl };
  room = record { units = 0; size = refl; enough = omega arith };
}

abbrev T : KeyTable ℕ
T = radix_table ℕ

-- The manager is initialised, and then a page is asked for.
abbrev world : World T
world = record { mm = (spdkfs_mm_init T (boot T)).1; owner = λ p. none }

world_reached : Reachable T world
world_reached = init start

abbrev allocated : Mm T
allocated = track T world.mm 0x2000 0

page_allocated :
    malloc T 0x9000 0x2000 world.mm 4096 ≡ done 0x2000 (spdk_malloc 4096 ∷ []) allocated
unfolding malloc spdkfs_malloc find_next_entry spdkfs_mm_init boot
page_allocated = refl

abbrev world_page : World T
world_page = record { mm = allocated; owner = own (λ p. none) 0x2000 (some spdk) }

world_page_reached : Reachable T world_page
world_page_reached =
    alloc 0x9000 0x2000 4096 0x2000 (spdk_malloc 4096 ∷ []) allocated world_reached
      (record { word = omega arith; not_null = omega arith; not_owned = refl })
      (inr (record { word = omega arith; not_null = omega arith; not_owned = refl })) page_allocated

free-owner_example : (free T world_page.mm 0x2000).0 ≡ free_of spdk 0x2000 ∷ []
free-owner_example = free-owner T world_page 0x2000 spdk world_page_reached (omega arith) refl

-- A program that opens a file, writes to it and closes it, from a start.
abbrev find_none : List ℕ → Dir → Option ℕ
find_none path dir = none

sys_0-IsStart : IsStart blank blank (λ id. blob) find_none sys_0
sys_0-IsStart = record {
  none_open = refl;
  unused = λ fd. refl;
  room = record { units = 0; size = refl; enough = omega arith };
}

opened_a :
    (sys' : Sys store) × (spdk_open store blank blank
        (λ id. blob)
        sys_0
        path_a
        2
        blob
        blank_persist
        99
      ≡ some (descriptor 10086 sys'))
unfolding spdk_open spdk_ptop_blobfile same_bytes open_created monopoly_create place
    spdkfs_dir_lookup lookup_from get_fd_from_table search_fd
opened_a = (_, refl)

abbrev sys_a : Sys store
sys_a = opened_a.0

moved_a :
    (sys' : Sys store) × (spdk_lseek store sys_a 10086 8192 0 ≡ Transfer.by_us (some (8192, sys')))
unfolding spdk_lseek lseek_fd monopoly_lseek
moved_a = (_, refl)

abbrev sys_moved : Sys store
sys_moved = moved_a.0

sys_moved-Reachable : Trace.Reachable blank blank (λ id. blob) find_none sys_moved
sys_moved-Reachable =
    next
      (next (Trace.start sys_0-IsStart)
        (open_step path_a 2 blob blank_persist 99 10086 opened_a.0 opened_a.1))
      (lseek_step 10086 8192 0 8192 moved_a.0 moved_a.1)

Reachable-IsOpenable_example : IsOpenable blank blank (λ id. blob) find_none sys_moved
Reachable-IsOpenable_example =
    Reachable-IsOpenable blank blank (λ id. blob) find_none (omega arith) sys_moved-Reachable
