-- ===== src/Dir/Tests.antt =====
-- Directories and paths at concrete inputs.
use spdk_blob_top_fs.Dir.Example.{
  name_ab, blank, empty_dir, tail, one_name, one_name_added, one_name_room,
}
use spdk_blob_top_fs.Prelude.{
  ℕ, ◌+◌, ◌≢◌, Option, ◌≡◌, refl, true, false, some, List, [], ◌∷◌, ◌++◌, arith,
}
use spdk_blob_top_fs.Dir.{
  Dir, get_next_part, copy_name, spdkfs_dir_lookup, add_dirent, append_dirent, prepare, next_unit,
  first_unit, lookup_from, skip_slashes, copy_part, str_eq,
}
use spdk_blob_top_fs.Dir.Name.{IsString}
use spdk_blob_top_fs.Dir.View.{view}
use spdk_blob_top_fs.Dir.Room.{HasRoom}
use spdk_blob_top_fs.Dir.Added.{old_name, view-add_dirent}
use spdk_blob_top_fs.Dir.Distinct.{id_of, IsDistinct}
use spdk_blob_top_fs.Dir.Names.{id_of-add_dirent}
use spdk_blob_top_fs.Dir.Walk.{found, not_found, out_of_fuel, path_loop, find_path, walk}
use spdk_blob_top_fs.Dir.Walk.Ends.{find_path-ends}
use spdk_blob_top_fs.Dir.Walk.Named.{join, find_path-walk}
use spdk_blob_top_fs.Dir.Path.{Outcome, get_next_part-Outcome}

abbrev path_ab : List ℕ
path_ab = b'/' ∷ b'a' ∷ b'b' ∷ b'/' ∷ b'c' ∷ []

-- An entry "ab" in a buffer of two units.
abbrev dir_ab : Dir
dir_ab = record {
  initialized = true;
  dirty = true;
  d_dirent_count = 1;
  d_size = 8192;
  dirents = λ i. record { name = copy_name name_ab (λ j. 0); id = 5 };
}

room_ab : HasRoom 4096 dir_ab
room_ab = record { units = 2; size = refl; enough = omega arith }

view-add_dirent_example :
    view (add_dirent 4096 blank blank 9 name_ab dir_ab)
    ≡ view dir_ab
      ++ (record {
        name = copy_name name_ab (old_name 4096 (omega arith) blank blank dir_ab);
        id = 9;
      }
          ∷ [])
view-add_dirent_example = view-add_dirent 4096 (omega arith) blank blank 9 name_ab dir_ab room_ab

id_of-add_dirent_example :
    (id_of (add_dirent 4096 blank blank 8 tail one_name) tail ≡ some 8)
    × ((t : List ℕ)
        → IsString t
        → t ≢ tail
        → id_of (add_dirent 4096 blank blank 8 tail one_name) t ≡ id_of one_name t)
    × IsDistinct (add_dirent 4096 blank blank 8 tail one_name)
unfolding spdkfs_dir_lookup add_dirent append_dirent prepare next_unit first_unit lookup_from str_eq
    copy_name
id_of-add_dirent_example =
    id_of-add_dirent 4096 (omega arith) blank blank 8 tail one_name one_name_room (omega arith, tt)
      (omega arith) refl refl one_name_added.2

get_next_part-Outcome_example : Outcome path_ab (get_next_part path_ab)
get_next_part-Outcome_example = get_next_part-Outcome path_ab

-- A disk that counts the closings, and where each blob is an empty directory.
abbrev close_dir : ℕ → Dir → ℕ
close_dir disk dir = disk + 1

abbrev open_dir : ℕ → Dir → ℕ → Option Dir × ℕ
open_dir disk dir blob_id = (some empty_dir, disk)

find_path-ends_example :
    (find_path close_dir open_dir true empty_dir dir_ab path_ab 0).0 ≢ out_of_fuel
find_path-ends_example = find_path-ends close_dir open_dir true empty_dir dir_ab path_ab 0

abbrev names : List (List ℕ)
names = name_ab ∷ []

-- By an absolute path from an object that is not the working directory, which is closed; and by a
-- path that is not there.
find_path_ab :
    (find_path close_dir open_dir false dir_ab empty_dir path_ab 0
      ≡ (found tail (some empty_dir), empty_dir, 1))
    × (find_path close_dir open_dir false empty_dir dir_ab path_ab 0 ≡ (not_found, empty_dir, 0))
unfolding find_path path_loop get_next_part spdkfs_dir_lookup lookup_from skip_slashes copy_part
    str_eq copy_name
find_path_ab = (refl, refl)

find_path-walk_example :
    (find_path close_dir open_dir true empty_dir dir_ab (join names tail) 0
      ≡ walk close_dir open_dir true dir_ab names tail 0)
    × (find_path close_dir open_dir true empty_dir dir_ab (b'/' ∷ join names tail) 0
        ≡ walk close_dir open_dir true empty_dir names tail 0)
find_path-walk_example =
    find_path-walk close_dir open_dir true empty_dir dir_ab names tail 0
      (
        (((λ e. absurd (omega (arith, e))), ((λ e. absurd (omega (arith, e))), tt)), omega arith),
        tt,
      )
      (((λ e. absurd (omega (arith, e))), tt), omega arith)
