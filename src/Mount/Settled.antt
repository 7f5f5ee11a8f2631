-- ===== src/Mount/Settled.antt =====
-- The callbacks of spdk_fs/fs.c on sequences of replies: their number is bounded, and what a first
-- and a later mount, and a mount that SPDK refuses, come to.
use spdk_blob_top_fs.Prelude.{
  ℕ, ◌≤◌, ◌<◌, ◌≡◌, ◌≢◌, refl, true, false, none, some, arith, if◌then◌else◌, List, [], ◌∷◌, length,
}
use spdk_blob_top_fs.Poller.{Thread, Answers, generic_poller}
use spdk_blob_top_fs.Poller.Ended.{generic_poller-idle}
use spdk_blob_top_fs.Mount.{
  Request, Reply, Context, Next, complete, load_blobstore, bs_load, bs_init, bs_get_super,
  bs_create_blob, bs_set_super, bs_open_blob, spdk_bs_sb_open_complete, spdk_bs_set_super_complete,
  spdk_bs_create_super_complete, spdk_bs_get_super_complete, spdk_init_super_block_cb, callbacks,
}

-- The callbacks on some replies in turn.
unfoldable pub run : List Reply → Next → Next
run [] s = s
run (reply ∷ replies) (ctx, none) = (ctx, none)
run (reply ∷ replies) (ctx, some request) = run replies (complete request reply ctx)

-- How many replies there can be from a request on.
unfoldable pub rank : Next → ℕ
rank (ctx, none) = 0
rank (ctx, some bs_load) = if ctx.is_loading then 6 else 5
rank (ctx, some bs_init) = if ctx.is_loading then 6 else 5
rank (ctx, some bs_get_super) = 4
rank (ctx, some bs_create_blob) = 3
rank (ctx, some (bs_set_super id)) = 2
rank (ctx, some (bs_open_blob id)) = 1

rank-complete :
    (ctx : Context) (request : Request) (reply : Reply)
    → rank (complete request reply ctx) < rank (ctx, some request)
unfolding complete spdk_init_super_block_cb spdk_bs_get_super_complete spdk_bs_create_super_complete
    spdk_bs_set_super_complete spdk_bs_sb_open_complete rank
rank-complete ctx bs_load reply = ground arith
rank-complete ctx bs_init reply = ground arith
rank-complete ctx bs_get_super reply = ground arith
rank-complete ctx bs_create_blob reply = ground arith
rank-complete ctx (bs_set_super id) reply = ground arith
rank-complete ctx (bs_open_blob id) reply = ground arith

rank-positive : (ctx : Context) (request : Request) → 0 < rank (ctx, some request)
unfolding rank
rank-positive ctx bs_load = ground arith
rank-positive ctx bs_init = ground arith
rank-positive ctx bs_get_super = ground arith
rank-positive ctx bs_create_blob = ground arith
rank-positive ctx (bs_set_super id) = ground arith
rank-positive ctx (bs_open_blob id) = ground arith

rank-run : (replies : List Reply) (s : Next) → rank s ≤ length replies → (run replies s).1 ≡ none
unfolding run
rank-run [] (ctx, none) le = refl
rank-run [] (ctx, some request) le = absurd (omega (arith, rank-positive ctx request))
rank-run (reply ∷ replies) (ctx, none) le = refl
rank-run (reply ∷ replies) (ctx, some request) le =
    rank-run replies (complete request reply ctx) (omega (arith, rank-complete ctx request reply))

-- On an open device, after six replies of SPDK, whatever they are, the callbacks of the mount have
-- no request pending.
pub mount_ends :
    (garbage : ℕ) (replies : List Reply)
    → 6 ≤ length replies
    → (run replies (load_blobstore garbage)).1 ≡ none
unfolding rank load_blobstore
mount_ends garbage replies enough = rank-run replies (load_blobstore garbage) enough

abbrev pub answer : (bserrno blobid : ℕ) → Reply
answer bserrno blobid = record { bserrno = bserrno; blobid = blobid }

-- A device that was never used: the load fails, and once the blobstore and the super blob are made
-- the new blob is the super blob.
mount_new :
    (garbage e id ignored : ℕ)
    → e ≢ 0
    → let s =
        run
          (answer e ignored
            ∷ answer 0 ignored
            ∷ answer 2 ignored
            ∷ answer 0 id
            ∷ answer 0 ignored
            ∷ answer 0 ignored
            ∷ [])
          (load_blobstore garbage) in
      (s.1 ≡ none) × (s.0.done ≡ true) × (s.0.has_bs ≡ true) × (s.0.super_blob ≡ some id)
unfolding run complete load_blobstore spdk_init_super_block_cb spdk_bs_get_super_complete
    spdk_bs_create_super_complete spdk_bs_set_super_complete spdk_bs_sb_open_complete
mount_new garbage e id ignored ne = ground arith

-- A device that holds a file system: the blob that SPDK names is the super blob.
mount_again :
    (garbage id ignored : ℕ)
    → let s =
        run (answer 0 ignored ∷ answer 0 id ∷ answer 0 ignored ∷ []) (load_blobstore garbage) in
      (s.1 ≡ none) × (s.0.done ≡ true) × (s.0.has_bs ≡ true) × (s.0.super_blob ≡ some id)
unfolding run complete load_blobstore spdk_init_super_block_cb spdk_bs_get_super_complete
    spdk_bs_sb_open_complete
mount_again garbage id ignored = ground arith

refused :
    (garbage e ignored : ℕ)
    → e ≢ 0
    → e ≢ 2
    → let s = run (answer 0 ignored ∷ answer e ignored ∷ []) (load_blobstore garbage) in
      (s.1 ≡ none) × (s.0.done ≡ false)
unfolding run complete load_blobstore spdk_init_super_block_cb spdk_bs_get_super_complete
refused garbage e ignored ne other = ground arith

waits_on :
    (s : Next) (answers : Answers callbacks)
    → s.1 ≡ none
    → s.0.done ≡ false
    → let thread : Thread callbacks = record { context = s.0; pending = s.1 } in
      generic_poller callbacks answers thread ≡ (false, thread)
waits_on s answers nothing not_done =
    rw (nothing) (generic_poller-idle callbacks answers s.0 not_done)

-- After a load that succeeds, an error other than ENOENT from the search of the super blob leaves
-- the mount with nothing pending and the caller not told: `generic_poller` then polls until its
-- time is over, whatever SPDK answers, and returns false.
mount_stuck :
    (garbage : ℕ) (e ignored : ℕ) (answers : Answers callbacks)
    → e ≢ 0
    → e ≢ 2
    → let s = run (answer 0 ignored ∷ answer e ignored ∷ []) (load_blobstore garbage) in
      let thread : Thread callbacks = record { context = s.0; pending = s.1 } in
      generic_poller callbacks answers thread ≡ (false, thread)
mount_stuck garbage e ignored answers ne other =
    let (nothing, not_done) = refused garbage e ignored ne other in
    waits_on (run (answer 0 ignored ∷ answer e ignored ∷ []) (load_blobstore garbage)) answers
      nothing not_done
