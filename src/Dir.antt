-- ===== src/Dir.antt =====
-- A directory in memory: `struct spdkfs_dir` and `struct spdkfs_dirent` of spdk_fs/fs.h,
-- `spdkfs_dir_lookup` and `get_next_part` of simple_fs/dir.c, and `add_dirent` and the removal in
-- `monopoly_unlink` of simple_fs/monopoly_ops.c.
pub mod Name
pub mod View
pub mod Room
pub mod Added
pub mod Distinct
pub mod Names
pub mod Example
pub mod Path
pub mod Walk
mod Tests
use spdk_blob_top_fs.Prelude.{
  ℕ, zero, suc, ◌+◌, ◌-◌, ◌*◌, ◌/◌, ◌%◌, ◌^◌, Bool, true, false, ◌&&◌, Option, none, some, List, [],
  ◌∷◌, ltb, leb, ◌==◌, if◌then◌else◌, length, get_or, min,
}

abbrev pub spdk_max_name_count : ℕ
spdk_max_name_count = 512

-- `sizeof(struct spdkfs_dirent)`: 512 bytes of name and an 8-byte id.
abbrev pub dirent_size : ℕ
dirent_size = 520

-- The bytes of `_name`, by their offset, and the blob's id.
pub record Dirent : Type 0 where
  pub name : ℕ → ℕ
  pub id : ℕ

-- The fields of `struct spdkfs_dir` and of its `dir_persist` that change.
pub record Dir : Type 0 where
  pub initialized : Bool
  pub dirty : Bool
  pub d_dirent_count : ℕ
  pub d_size : ℕ
  pub dirents : ℕ → Dirent

-- `!strcmp(bytes + i, s)` for the string of the non-zero bytes `s`.
pub str_eq : (ℕ → ℕ) → ℕ → List ℕ → Bool
str_eq bytes i [] = bytes i == 0
str_eq bytes i (c ∷ s) = (bytes i == c) && str_eq bytes (suc i) s

-- `for (i = 0; i < d_dirent_count; ++i) if (!strcmp(...)) return i;`; none is -1.
unfoldable pub lookup_from : (rounds i : ℕ) → (ℕ → Dirent) → List ℕ → Option ℕ
lookup_from zero i dirents s = none
lookup_from (suc rounds) i dirents s =
    let rest = lookup_from rounds (suc i) dirents s in
    if str_eq (dirents i).name 0 s then some i else rest

unfoldable pub spdkfs_dir_lookup : Dir → List ℕ → Option ℕ
spdkfs_dir_lookup dir s = lookup_from dir.d_dirent_count 0 dir.dirents s

-- `memcpy(_name, filename, spdk_min(SPDK_MAX_NAME_COUNT, strlen(filename)))`: the other bytes
-- stay, and no terminator is written.
pub copy_name : List ℕ → (ℕ → ℕ) → ℕ → ℕ
copy_name s bytes i = if ltb i (min spdk_max_name_count (length s)) then get_or s i 0 else bytes i

-- `spdk_realloc` keeps the entries that lie in the old buffer; `fresh` is the rest of the new one.
abbrev pub realloc : ℕ → (ℕ → Dirent) → (ℕ → Dirent) → ℕ → Dirent
realloc size old fresh i = if leb ((i + 1) * dirent_size) size then old i else fresh i

abbrev pub put : (ℕ → Dirent) → ℕ → Dirent → ℕ → Dirent
put dirents i e j = if i == j then e else dirents j

-- "Add a dirent to the given dir": `first` and `more` are what the memory of `spdk_malloc` and
-- of `spdk_realloc` holds.
module _ (io_unit : ℕ) (first more : ℕ → Dirent) where
  -- `if (!d_size)`
  unfoldable pub first_unit : Dir → Dir
  first_unit dir = if dir.d_size == 0 then record dir { dirents = first; d_size = io_unit } else dir

  -- `if (d_size / io_unit <= d_dirent_count * sizeof(struct spdkfs_dirent))`
  unfoldable pub next_unit : Dir → Dir
  next_unit dir =
      if leb (dir.d_size / io_unit) (dir.d_dirent_count * dirent_size)
      then record dir {
        dirents = realloc dir.d_size dir.dirents more;
        d_size = dir.d_size + io_unit;
      }
      else dir

  -- The slot behind the last entry.
  pub append_dirent : ℕ → List ℕ → Dir → Dir
  append_dirent blob_id filename dir =
      let n = dir.d_dirent_count in
      record dir {
        dirents =
            put dir.dirents n
              (record { name = copy_name filename (dir.dirents n).name; id = blob_id });
        d_dirent_count = n + 1;
      }

  -- The directory that the new entry is written to.
  unfoldable pub prepare : Dir → Dir
  prepare dir = next_unit (first_unit (record dir { dirty = true }))

  pub add_dirent : ℕ → List ℕ → Dir → Dir
  add_dirent blob_id filename dir = append_dirent blob_id filename (prepare dir)

-- `for (i = dirent_idx; i < d_dirent_count - 1; ++i) dirents[i] = dirents[i+1];`
pub shift_loop : (rounds i : ℕ) → (ℕ → Dirent) → ℕ → Dirent
shift_loop zero i dirents = dirents
shift_loop (suc rounds) i dirents = shift_loop rounds (suc i) (put dirents i (dirents (suc i)))

-- The removal of the entry at `idx`, which is below the count. The directory is not marked dirty.
unfoldable pub remove_dirent : ℕ → Dir → Dir
remove_dirent idx dir = record dir {
  dirents = shift_loop (dir.d_dirent_count - 1 - idx) idx dir.dirents;
  d_dirent_count = dir.d_dirent_count - 1;
}

-- `get_next_part`: what it returns, 1 with the part and the rest of the path, 0 or -1.
pub data Part : Type 0 where
  part : (name rest : List ℕ) → Part
  end : Part
  too_long : Part

-- `while (*src == '/') src++;`
pub skip_slashes : List ℕ → List ℕ
skip_slashes [] = []
skip_slashes (c ∷ src) = if c == b'/' then skip_slashes src else c ∷ src

abbrev pub prepend : ℕ → Part → Part
prepend c (part name rest) = part (c ∷ name) rest
prepend c end = end
prepend c too_long = too_long

-- `while (*src != '/' && *src != '\0')`, with `room` left before `part + SPDK_MAX_NAME_COUNT`.
pub copy_part : (room : ℕ) → List ℕ → Part
copy_part room [] = part [] []
copy_part zero (c ∷ src) = if c == b'/' then part [] (c ∷ src) else too_long
copy_part (suc room) (c ∷ src) =
    if c == b'/' then part [] (c ∷ src) else prepend c (copy_part room src)

abbrev pub first_part : List ℕ → Part
first_part [] = end
first_part (c ∷ src) = copy_part spdk_max_name_count (c ∷ src)

pub get_next_part : List ℕ → Part
get_next_part src = first_part (skip_slashes src)
