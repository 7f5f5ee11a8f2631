-- ===== src/Fd.antt =====
-- The table of open files: `struct fdtable` of spdk_fs/fs.h, and `get_fd_from_table` and
-- `return_fd_to_table` of simple_fs/monopoly_ops.c.
pub mod Count
pub mod Search
pub mod Take
mod Tests
use spdk_blob_top_fs.Prelude.{
  ℕ, zero, suc, ◌+◌, ◌-◌, ◌%◌, ◌^◌, Bool, true, false, not, leb, ◌==◌, if◌then◌else◌,
}

abbrev pub spdk_max_file_cnt : ℕ
spdk_max_file_cnt = 256

-- `struct fdtable`. The slots below 256 exist; `open_files` of an unused one is stale.
pub record FdTable (F : Type 0) : Type 0 where
  pub file_count : ℕ
  pub used : ℕ → Bool
  pub open_files : ℕ → F

-- A descriptor, or -1. A search that has not ended is told apart from both.
pub data FdSearch : Type 0 where
  found : ℕ → FdSearch
  failed out_of_fuel : FdSearch

abbrev pub mark : (ℕ → Bool) → ℕ → Bool → ℕ → Bool
mark used fd b j = if fd == j then b else used j

-- `for (unsigned i = count; i != count - 1; ++i)`, with the wrap from 256 to 0 at the head of the
-- body.
unfoldable pub search_fd : (rounds i stop : ℕ) → (ℕ → Bool) → FdSearch
search_fd zero i stop used = out_of_fuel
search_fd (suc rounds) i stop used =
    let j = if i == spdk_max_file_cnt then 0 else i in
    let rest = search_fd rounds ((j + 1) % 2 ^ 32) stop used in
    if i == stop then failed else if not (used j) then found j else rest

-- No search of a valid table takes more than 258 turns.
abbrev pub search_rounds : ℕ
search_rounds = 258

module _ {F : Type 0} where
  abbrev pub take_fd : FdTable F → FdSearch → FdSearch × FdTable F
  take_fd t (found fd) =
      (found fd, record t { used = mark t.used fd true; file_count = (t.file_count + 1) % 2 ^ 32 })
  take_fd t failed = (failed, t)
  take_fd t out_of_fuel = (out_of_fuel, t)

  unfoldable pub get_fd_from_table : FdTable F → FdSearch × FdTable F
  get_fd_from_table t =
      if leb spdk_max_file_cnt t.file_count
      then (failed, t)
      else take_fd t
          (search_fd search_rounds t.file_count ((t.file_count + 2 ^ 32 - 1) % 2 ^ 32) t.used)

  -- After `assert(fd < SPDK_MAX_FILE_CNT)`.
  pub return_fd_to_table : FdTable F → ℕ → FdTable F
  return_fd_to_table t fd = record t {
    file_count = (t.file_count + 2 ^ 32 - 1) % 2 ^ 32;
    used = mark t.used fd false;
  }
