-- ===== src/Monopoly/Tests.antt =====
-- Files of a working directory on a blobstore in memory.
use spdk_blob_top_fs.Dir.Example.{tail, two_names, two_names_added, two_names-lookup}
use spdk_blob_top_fs.Monopoly.Unlinked.{IsUnlinked, unlink-IsUnlinked}
use spdk_blob_top_fs.File.Ram.{blank_persist}
use spdk_blob_top_fs.Prelude.{
  ℕ, ◌≡◌, refl, Bool, true, false, ltb, arith, none, Option, List, [], ◌∷◌,
}
use spdk_blob_top_fs.Fd.Count.{IsValid, in_use}
use spdk_blob_top_fs.Dir.{
  Dirent, Dir, spdkfs_dir_lookup, lookup_from, prepare, first_unit, next_unit,
}
use spdk_blob_top_fs.Dir.Room.{HasRoom}
use spdk_blob_top_fs.File.{Blobstore, OpenFile, simple_fs_create, simple_fs_open}
use spdk_blob_top_fs.File.Ram.{ram}
use spdk_blob_top_fs.Monopoly.{Sys, monopoly_create, monopoly_open, monopoly_unlink}
use spdk_blob_top_fs.Monopoly.Sound.{IsSound, Leaves, IsPlaced, create-Leaves}
use spdk_blob_top_fs.Monopoly.Created.{with_entry, create_new, open-create}

abbrev store : Blobstore
store = ram 4096 8192

abbrev blob : store.Blob
blob = record { clusters = 0; bytes = λ j. 0; attribute = none }

abbrev closed_file : OpenFile store
closed_file = record { blob = blob; persist = blank_persist; f_pos = 0 }

abbrev blank : ℕ → Dirent
blank i = record { name = λ j. 0; id = 0 }

abbrev sys_with : ℕ → (ℕ → Bool) → Sys store
sys_with count used = record {
  fds = record { file_count = count; used = used; open_files = λ j. closed_file };
  workdir = record {
    initialized = true;
    dirty = false;
    d_dirent_count = 0;
    d_size = 0;
    dirents = blank;
  };
}

abbrev name_a : List ℕ
name_a = b'a' ∷ []

-- Three files are open; all 256 are.
abbrev sys_3 : Sys store
sys_3 = sys_with 3 (λ j. ltb j 3)

abbrev sys_full : Sys store
sys_full = sys_with 256 (λ j. ltb j 256)

sys_3-IsValid : IsValid sys_3.fds
unfolding in_use
sys_3-IsValid = record { counted = refl }

sys_full-IsValid : IsValid sys_full.fds
unfolding in_use
sys_full-IsValid = record { counted = refl }

room_3 : HasRoom 4096 sys_3.workdir
room_3 = record { units = 0; size = refl; enough = omega arith }

sys_3-IsSound : IsSound sys_3
sys_3-IsSound = record { fds = sys_3-IsValid; room = room_3 }

abbrev file_a : OpenFile store
file_a = simple_fs_create store blob blank_persist 99

create-Leaves_example :
    Leaves true
      (true ≡ false)
      (monopoly_create store blank blank sys_3 name_a blob blank_persist 99)
create-Leaves_example =
    create-Leaves blank blank sys_3 name_a blob blank_persist 99 (omega arith) sys_3-IsSound

create_new_example :
    IsPlaced
      (with_entry blank blank sys_3 name_a file_a)
      file_a
      (monopoly_create store blank blank sys_3 name_a blob blank_persist 99)
unfolding spdkfs_dir_lookup lookup_from
create_new_example =
    create_new blank blank sys_3 name_a blob blank_persist 99 refl refl sys_3-IsValid

open-create_example :
    IsPlaced
      (with_entry blank blank sys_3 name_a file_a)
      file_a
      (monopoly_open store (λ id. file_a.blob) (with_entry blank blank sys_3 name_a file_a) name_a)
unfolding spdkfs_dir_lookup lookup_from prepare first_unit next_unit simple_fs_create simple_fs_open
open-create_example =
    open-create blank blank (omega arith) sys_3 name_a blob blank_persist 99 (λ id. file_a.blob)
      file_a room_3 (omega arith, tt) (omega arith) refl refl refl sys_3.fds sys_3-IsValid

-- Two names in the directory, and the search that the lookup does.
abbrev sys_names : Sys store
sys_names = record sys_3 { workdir = two_names }

abbrev find_dir : List ℕ → Dir → Option ℕ
find_dir path dir = spdkfs_dir_lookup dir path

unlink-IsUnlinked_example :
    IsUnlinked (λ id. file_a.blob) sys_names tail (monopoly_unlink store find_dir sys_names tail)
unlink-IsUnlinked_example =
    unlink-IsUnlinked (λ id. file_a.blob) find_dir sys_names tail 1 two_names-lookup
      two_names-lookup (omega arith, tt) two_names_added.2
