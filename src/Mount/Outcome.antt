-- ===== src/Mount/Outcome.antt =====
-- Which states the callbacks of spdk_fs/fs.c reach, and how mounting ends.
use spdk_blob_top_fs.Prelude.{
  ℕ, ◌+◌, ◌≤◌, ◌≡◌, refl, Bool, true, false, Option, none, some, ◌==◌, Bool-cases, inl, inr, arith,
  List, [], ◌∷◌, if◌then◌else◌,
}
use spdk_blob_top_fs.Mount.{
  Request, Reply, Context, complete, load_blobstore, bs_load, bs_init, bs_get_super, bs_create_blob,
  bs_set_super, bs_open_blob, spdk_bs_sb_open_complete, spdk_bs_set_super_complete,
  spdk_bs_create_super_complete, spdk_bs_get_super_complete, spdk_init_super_block_cb,
}

-- The requests that were answered, with their replies, the newest first.
abbrev pub History : Type 0
History = List (Request × Reply)

-- The states that some replies lead to.
pub data Reachable (garbage : ℕ) : History → Context → Option Request → Type 0 where
  start : Reachable garbage [] (load_blobstore garbage).0 (load_blobstore garbage).1
  answered :
      (history : History) (ctx : Context) (request : Request) (reply : Reply)
      → Reachable garbage history ctx (some request)
      → Reachable garbage
          ((request, reply) ∷ history)
          (complete request reply ctx).0
          (complete request reply ctx).1

asks_init : Option Request → ℕ
asks_init none = 0
asks_init (some bs_load) = 0
asks_init (some bs_init) = 1
asks_init (some bs_get_super) = 0
asks_init (some bs_create_blob) = 0
asks_init (some (bs_set_super id)) = 0
asks_init (some (bs_open_blob id)) = 0

-- How often SPDK was asked to initialise the blobstore, the pending request included.
pub init_count : History → Option Request → ℕ
init_count [] pending = asks_init pending
init_count ((request, _) ∷ history) pending = asks_init pending + init_count history (some request)

fails_load : Request → Reply → ℕ
fails_load bs_load reply = if reply.bserrno == 0 then 0 else 1
fails_load bs_init reply = 0
fails_load bs_get_super reply = 0
fails_load bs_create_blob reply = 0
fails_load (bs_set_super id) reply = 0
fails_load (bs_open_blob id) reply = 0

-- How many loads of the blobstore were answered with an error.
pub failed_loads : History → ℕ
failed_loads [] = 0
failed_loads ((request, reply) ∷ history) = fails_load request reply + failed_loads history

-- The requests to initialise the blobstore, against the loads that failed and the flag. A history
-- is reached through its tails, so a load has failed before the request.
pub record InitsOnce (history : History) (ctx : Context) (pending : Option Request) : Type 0 where
  pub at_most_once : init_count history pending ≤ 1
  pub after_failure : init_count history pending ≡ failed_loads history
  pub flag : init_count history pending ≡ (if ctx.is_loading then 0 else 1)

-- Nothing was opened so far, and the caller is waiting.
pub record IsWaiting (ctx : Context) (loading has_bs : Bool) : Type 0 where
  pub not_done : ctx.done ≡ false
  pub no_super : ctx.super_blob ≡ none
  pub phase : ctx.is_loading ≡ loading
  pub bs : ctx.has_bs ≡ has_bs

-- The ways to end: the super blob is open, or it is not and the caller is told, or it is not and
-- the caller waits on.
pub data Finished (ctx : Context) : Type 0 where
  mounted : (id : ℕ) → ctx.done ≡ true → ctx.has_bs ≡ true → ctx.super_blob ≡ some id → Finished ctx
  failed : ctx.done ≡ true → ctx.has_bs ≡ true → ctx.super_blob ≡ none → Finished ctx
  hung : ctx.done ≡ false → ctx.super_blob ≡ none → Finished ctx

pub IsSound : Context → Option Request → Type 0
IsSound ctx none = Finished ctx
IsSound ctx (some bs_load) = IsWaiting ctx true false
IsSound ctx (some bs_init) = IsWaiting ctx false false
IsSound ctx (some bs_get_super) = IsWaiting ctx ctx.is_loading true
IsSound ctx (some bs_create_blob) = IsWaiting ctx ctx.is_loading true
IsSound ctx (some (bs_set_super id)) = (ctx.super_blob_id ≡ id) × IsWaiting ctx ctx.is_loading true
IsSound ctx (some (bs_open_blob id)) = IsWaiting ctx ctx.is_loading true

complete-IsSound :
    (ctx : Context) (request : Request) (reply : Reply)
    → IsSound ctx (some request)
    → IsSound (complete request reply ctx).0 (complete request reply ctx).1
unfolding complete spdk_init_super_block_cb spdk_bs_get_super_complete spdk_bs_create_super_complete
    spdk_bs_set_super_complete spdk_bs_sb_open_complete IsSound
complete-IsSound ctx bs_load reply s = elim (Bool-cases (reply.bserrno == 0)) [
  | inl ok ↦
      rw (ok) (record { not_done = s.not_done; no_super = s.no_super; phase = refl; bs = refl })
  | inr bad ↦
      rw (bad, s.phase)
        (record { not_done = s.not_done; no_super = s.no_super; phase = refl; bs = s.bs })
]
complete-IsSound ctx bs_init reply s = elim (Bool-cases (reply.bserrno == 0)) [
  | inl ok ↦
      rw (ok) (record { not_done = s.not_done; no_super = s.no_super; phase = refl; bs = refl })
  | inr bad ↦ rw (bad, s.phase) (hung s.not_done s.no_super)
]
complete-IsSound ctx bs_get_super reply s = elim (Bool-cases (reply.bserrno == 0)) [
  | inl ok ↦ rw (ok) s
  | inr bad ↦ elim (Bool-cases (reply.bserrno == 2)) [
    | inl new ↦ rw (bad, new) s
    | inr other ↦ rw (bad, other) (hung s.not_done s.no_super)
  ]
]
complete-IsSound ctx bs_create_blob reply s = elim (Bool-cases (reply.bserrno == 0)) [
  | inl ok ↦
      rw (ok)
        (refl, record { not_done = s.not_done; no_super = s.no_super; phase = refl; bs = s.bs })
  | inr bad ↦ rw (bad) (failed refl s.bs s.no_super)
]
complete-IsSound ctx (bs_set_super id) reply s = elim (Bool-cases (reply.bserrno == 0)) [
  | inl ok ↦ rw (ok) s.1
  | inr bad ↦ rw (bad) (failed refl s.1.bs s.1.no_super)
]
complete-IsSound ctx (bs_open_blob id) reply s = elim (Bool-cases (reply.bserrno == 0)) [
  | inl ok ↦ rw (ok) (mounted id refl s.bs refl)
  | inr bad ↦ rw (bad) (failed refl s.bs s.no_super)
]

complete-InitsOnce :
    (history : History) (ctx : Context) (request : Request) (reply : Reply)
    → IsSound ctx (some request)
    → InitsOnce history ctx (some request)
    → InitsOnce
        ((request, reply) ∷ history)
        (complete request reply ctx).0
        (complete request reply ctx).1
unfolding complete spdk_init_super_block_cb spdk_bs_get_super_complete spdk_bs_create_super_complete
    spdk_bs_set_super_complete spdk_bs_sb_open_complete IsSound init_count asks_init failed_loads
    fails_load
complete-InitsOnce history ctx bs_load reply s i = ground arith
complete-InitsOnce history ctx bs_init reply s i = ground arith
complete-InitsOnce history ctx bs_get_super reply s i = ground arith
complete-InitsOnce history ctx bs_create_blob reply s i = ground arith
complete-InitsOnce history ctx (bs_set_super id) reply s i = ground arith
complete-InitsOnce history ctx (bs_open_blob id) reply s i = ground arith

-- In every state that replies of SPDK to the requests of the mount lead to, from an open device
-- on: the requests to initialise the blobstore, a pending one included, are at most one, they are
-- as many as the loads that were answered with an error, and there is one exactly if `is_loading`
-- is false; a pending request finds the caller waiting and no super blob open, and the blobstore
-- is there for each request on it; with no request pending, the super blob is open and the caller
-- told, or it is not open and the caller told, or it is not open and the caller waits on.
pub Reachable-IsSound :
    (garbage : ℕ) (history : History) (ctx : Context) (pending : Option Request)
    → Reachable garbage history ctx pending
    → IsSound ctx pending × InitsOnce history ctx pending
unfolding IsSound load_blobstore init_count asks_init failed_loads
Reachable-IsSound garbage _ _ _ start = (
  record { not_done = refl; no_super = refl; phase = refl; bs = refl },
  record { at_most_once = omega arith; after_failure = refl; flag = refl },
)
Reachable-IsSound garbage _ _ _ (answered history ctx request reply r) =
    let (sound, once) = Reachable-IsSound garbage history ctx (some request) r in
    (
      complete-IsSound ctx request reply sound,
      complete-InitsOnce history ctx request reply sound once,
    )

ended_no_super : (ctx : Context) → Finished ctx → ctx.done ≡ false → ctx.super_blob ≡ none
ended_no_super ctx (mounted id told bs super) untold = cc
ended_no_super ctx (failed told bs super) untold = cc
ended_no_super ctx (hung waits super) untold = super

-- Where the caller is not told, no super blob is open.
pub sound_no_super :
    (ctx : Context) (pending : Option Request)
    → IsSound ctx pending
    → ctx.done ≡ false
    → ctx.super_blob ≡ none
unfolding IsSound
sound_no_super ctx none s untold = ended_no_super ctx s untold
sound_no_super ctx (some bs_load) s untold = s.no_super
sound_no_super ctx (some bs_init) s untold = s.no_super
sound_no_super ctx (some bs_get_super) s untold = s.no_super
sound_no_super ctx (some bs_create_blob) s untold = s.no_super
sound_no_super ctx (some (bs_set_super id)) s untold = s.1.no_super
sound_no_super ctx (some (bs_open_blob id)) s untold = s.no_super
