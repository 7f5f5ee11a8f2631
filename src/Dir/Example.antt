-- ===== src/Dir/Example.antt =====
-- Directories in memory, for the examples.
use spdk_blob_top_fs.Prelude.{ℕ, ◌≡◌, ◌≢◌, refl, true, false, some, List, [], ◌∷◌, arith}
use spdk_blob_top_fs.Dir.{
  Dirent, Dir, copy_name, spdkfs_dir_lookup, add_dirent, append_dirent, prepare, next_unit,
  first_unit, lookup_from, str_eq,
}
use spdk_blob_top_fs.Dir.Name.{IsString}
use spdk_blob_top_fs.Dir.View.{view, entries}
use spdk_blob_top_fs.Dir.Room.{HasRoom, add_dirent-HasRoom}
use spdk_blob_top_fs.Dir.Distinct.{id_of, IsDistinct}
use spdk_blob_top_fs.Dir.Names.{id_of-add_dirent}

abbrev pub name_ab : List ℕ
name_ab = b'a' ∷ b'b' ∷ []

abbrev pub blank : ℕ → Dirent
blank i = record { name = λ j. 0; id = 0 }

abbrev pub empty_dir : Dir
empty_dir = record {
  initialized = true;
  dirty = false;
  d_dirent_count = 0;
  d_size = 0;
  dirents = blank;
}

pub empty_room : HasRoom 4096 empty_dir
empty_room = record { units = 0; size = refl; enough = omega arith }

pub name_ab-IsString : IsString name_ab
name_ab-IsString = (omega arith, (omega arith, tt))

abbrev pub tail : List ℕ
tail = b'c' ∷ []

-- An entry "ab", and then one "c".
abbrev pub one_name : Dir
one_name = add_dirent 4096 blank blank 9 name_ab empty_dir

pub one_name_added :
    (id_of one_name name_ab ≡ some 9)
    × ((t : List ℕ) → IsString t → t ≢ name_ab → id_of one_name t ≡ id_of empty_dir t)
    × IsDistinct one_name
unfolding spdkfs_dir_lookup prepare next_unit first_unit lookup_from view entries
one_name_added =
    id_of-add_dirent 4096 (omega arith) blank blank 9 name_ab empty_dir empty_room name_ab-IsString
      (omega arith) refl refl tt

abbrev pub two_names : Dir
two_names = add_dirent 4096 blank blank 8 tail one_name

pub one_name_room : HasRoom 4096 one_name
one_name_room = add_dirent-HasRoom 4096 (omega arith) blank blank 9 name_ab empty_dir empty_room

pub two_names_added :
    (id_of two_names tail ≡ some 8)
    × ((t : List ℕ) → IsString t → t ≢ tail → id_of two_names t ≡ id_of one_name t)
    × IsDistinct two_names
unfolding spdkfs_dir_lookup add_dirent append_dirent prepare next_unit first_unit lookup_from str_eq
    copy_name
two_names_added =
    id_of-add_dirent 4096 (omega arith) blank blank 8 tail one_name one_name_room (omega arith, tt)
      (omega arith) refl refl one_name_added.2

pub two_names-lookup : spdkfs_dir_lookup two_names tail ≡ some 1
unfolding spdkfs_dir_lookup add_dirent append_dirent prepare next_unit first_unit lookup_from str_eq
    copy_name
two_names-lookup = refl
