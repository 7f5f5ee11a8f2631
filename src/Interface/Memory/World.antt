-- ===== src/Interface/Memory/World.antt =====
-- The blocks of a program over `__spdk_malloc` and `__spdk_free` of simple_fs/interface.c, and the
-- allocators that they come from.
use spdk_blob_top_fs.Prelude.{
  ℕ, ◌^◌, ◌<◌, ◌≡◌, ◌≢◌, ◌⊎◌, Bool, true, false, Option, none, some, List, [], ◌∷◌, ◌==◌,
  if◌then◌else◌,
}
use spdk_blob_top_fs.Prelude.Map.{KeyTable}
use spdk_blob_top_fs.Mm.{
  Call, u_free, spdk_malloc, spdk_free, done, Mm, boot, spdkfs_mm_init, spdkfs_mm_find,
}
use spdk_blob_top_fs.Mm.Consistent.{IsConsistent}
use spdk_blob_top_fs.Interface.Memory.{malloc, free}

pub data Owner : Type 0 where
  program spdk : Owner

-- The allocator whose block a call of `malloc` returned, by the calls that it made.
abbrev pub owner_of : List Call → Owner
owner_of (spdk_malloc size ∷ []) = spdk
owner_of calls = program

-- The call that gives a block back to its allocator.
abbrev pub free_of : Owner → ℕ → Call
free_of program p = u_free p
free_of spdk p = spdk_free p

abbrev pub is_spdk : Option Owner → Bool
is_spdk none = false
is_spdk (some program) = false
is_spdk (some spdk) = true

abbrev pub own : (ℕ → Option Owner) → ℕ → Option Owner → ℕ → Option Owner
own owner p o q = if p == q then o else owner q

module _ (T : KeyTable ℕ) where
  open T use {lookup}

  -- The memory manager, and the owner of each block that the program has.
  pub record World : Type 0 where
    pub mm : Mm T
    pub owner : ℕ → Option Owner

  pub record IsNew (w : World) (p : ℕ) : Type 0 where
    pub word : p < 2 ^ 64
    pub not_null : p ≢ 0
    pub not_owned : w.owner p ≡ none

  -- The program allocates and frees blocks, and the memory manager is initialised, in any order. An
  -- allocator hands out a block that the program does not have, or SPDK none at all.
  pub data Reachable : World → Type 0 where
    start : Reachable (record { mm = boot T; owner = λ p. none })
    init : {w : World} → Reachable w → Reachable (record w { mm = (spdkfs_mm_init T w.mm).1 })
    alloc :
        {w : World} (user mem size p : ℕ) (calls : List Call) (mm : Mm T)
        → Reachable w
        → IsNew w user
        → (mem ≡ 0) ⊎ IsNew w mem
        → malloc T user mem w.mm size ≡ done p calls mm
        → Reachable (record { mm = mm; owner = own w.owner p (some (owner_of calls)) })
    release :
        {w : World} (p : ℕ) (o : Owner)
        → Reachable w
        → p < 2 ^ 64
        → w.owner p ≡ some o
        → Reachable (record { mm = (free T w.mm p).1; owner = own w.owner p none })

  -- The manager tracks just the blocks that came from SPDK.
  pub record IsOwned (w : World) : Type 0 where
    pub consistent : IsConsistent T w.mm
    pub tracked : (p : ℕ) → p < 2 ^ 64 → spdkfs_mm_find T w.mm p ≡ is_spdk (w.owner p)
    pub late : (p : ℕ) → p < 2 ^ 64 → is_spdk (w.owner p) ≡ true → w.mm.initialized ≡ true
