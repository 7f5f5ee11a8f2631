-- ===== src/Mount/Tests.antt =====
-- Mounting with given replies.
use spdk_blob_top_fs.Prelude.{◌≡◌, none, arith, [], ◌∷◌}
use spdk_blob_top_fs.Mount.{complete, load_blobstore, bs_load, Next}
use spdk_blob_top_fs.Mount.Outcome.{
  History, Reachable, InitsOnce, start, answered, IsSound, Reachable-IsSound,
}
use spdk_blob_top_fs.Mount.Settled.{run, answer, mount_ends}

abbrev after_load : Next
after_load = complete bs_load (answer 5 0) (load_blobstore 0).0

abbrev load_history : History
load_history = (bs_load, answer 5 0) ∷ []

load_reached : Reachable 0 load_history after_load.0 after_load.1
unfolding load_blobstore
load_reached = answered [] (load_blobstore 0).0 bs_load (answer 5 0) start

Reachable-IsSound_example :
    IsSound after_load.0 after_load.1 × InitsOnce load_history after_load.0 after_load.1
Reachable-IsSound_example = Reachable-IsSound 0 load_history after_load.0 after_load.1 load_reached

mount_ends_example :
    (run
      (answer 5 0 ∷ answer 0 0 ∷ answer 2 0 ∷ answer 0 7 ∷ answer 0 0 ∷ answer 0 0 ∷ [])
      (load_blobstore 0)).1
    ≡ none
mount_ends_example =
    mount_ends 0 (answer 5 0 ∷ answer 0 0 ∷ answer 2 0 ∷ answer 0 7 ∷ answer 0 0 ∷ answer 0 0 ∷ [])
      (omega arith)
