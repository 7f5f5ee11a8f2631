-- ===== src/Interface/Memory.antt =====
-- `__spdk_malloc`, `__spdk_free` and `__spdk_realloc` of simple_fs/interface.c, which take the
-- place of `malloc`, `free` and `realloc`: they go to the program's own allocator until the memory
-- manager of spdk_fs/io_mm.c is initialised. What an allocator returns is an argument, and its
-- calls are recorded.
pub mod World
pub mod Allocated
pub mod Owned
use spdk_blob_top_fs.Prelude.{ℕ, Bool, true, false, not, List, [], ◌∷◌, if◌then◌else◌}
use spdk_blob_top_fs.Prelude.Map.{KeyTable}
use spdk_blob_top_fs.Mm.{
  Call, u_malloc, u_free, u_realloc, Outcome, done, Mm, spdkfs_malloc, spdkfs_free, spdkfs_realloc,
}

module _ (T : KeyTable ℕ) where
  pub spdkfs_mm_inited : Mm T → Bool
  spdkfs_mm_inited s = s.initialized

  unfoldable pub malloc : (user_mem spdk_mem : ℕ) → Mm T → (size : ℕ) → Outcome (Mm T)
  unfolding spdkfs_mm_inited
  malloc user_mem spdk_mem s size =
      if not (spdkfs_mm_inited s)
      then done user_mem (u_malloc size ∷ []) s
      else spdkfs_malloc T user_mem spdk_mem s size

  pub free : Mm T → (ptr : ℕ) → List Call × Mm T
  unfolding spdkfs_mm_inited
  free s ptr = if not (spdkfs_mm_inited s) then (u_free ptr ∷ [], s) else spdkfs_free T s ptr

  pub realloc : (user_mem spdk_mem : ℕ) → Mm T → (ptr size : ℕ) → Outcome (Mm T)
  unfolding spdkfs_mm_inited
  realloc user_mem spdk_mem s ptr size =
      if not (spdkfs_mm_inited s)
      then done user_mem (u_realloc ptr size ∷ []) s
      else spdkfs_realloc T user_mem spdk_mem s ptr size
