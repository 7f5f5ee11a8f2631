-- ===== src/BlobOp/Tells.antt =====
-- The callbacks of simple_fs/blob_op.c and simple_fs/super.c and the flag that the caller polls.
use spdk_blob_top_fs.Prelude.{◌≡◌, refl, true, none, some, arith, ◌==◌, Bool-cases, inl, inr}
use spdk_blob_top_fs.BlobOp.{
  Request, Reply, Context, Next, complete, open_blob_complete, close_blob_complete,
  io_blob_complete, spdk_blob_sync_complete, resize_blob_complete, open_blob_finished,
  create_blob_finished, delete_blob_finished, bs_create_blob, open_created, bs_open_blob,
  blob_close_request, blob_io, blob_resize, blob_sync_md, bs_delete_blob,
}

-- The chain is over and the caller is told, or there is another request and nothing is told.
pub data Tells (args : Context) : Next → Type 0 where
  over : (args' : Context) → args'.done ≡ true → Tells args (args', none)
  goes_on :
      (args' : Context) (request : Request)
      → args'.done ≡ args.done
      → args'.fs_errno ≡ args.fs_errno
      → Tells args (args', some request)

-- From a context without an error, each callback of an operation on a blob either ends the chain
-- and sets the flag of the caller, or makes another request and leaves the flag and the error
-- number as they were.
pub complete-Tells :
    (request : Request) (reply : Reply) (args : Context)
    → args.fs_errno ≡ 0
    → Tells args (complete request reply args)
unfolding complete open_blob_complete close_blob_complete io_blob_complete spdk_blob_sync_complete
    resize_blob_complete open_blob_finished create_blob_finished delete_blob_finished
complete-Tells bs_create_blob r args clean = elim (Bool-cases (r.bserrno == 0)) [
  | inl h ↦ rw (h) (goes_on args (open_created r.blobid) refl refl)
  | inr h ↦ rw (h) (over _ refl)
]
complete-Tells (open_created id) r args clean = elim (Bool-cases (r.bserrno == 0)) [
  | inl h ↦ rw (h) (over _ refl)
  | inr h ↦ rw (h) (over _ refl)
]
complete-Tells (bs_open_blob id) r args clean = over _ refl
complete-Tells blob_close_request r args clean = over _ refl
complete-Tells (blob_io offset length read) r args clean = over _ refl
complete-Tells (blob_resize n) r args clean = elim (Bool-cases (r.bserrno == 0)) [
  | inl h ↦ rw (h) (goes_on _ blob_sync_md refl (ground (arith, h, clean)))
  | inr h ↦ rw (h) (over _ refl)
]
complete-Tells blob_sync_md r args clean = over _ refl
complete-Tells (bs_delete_blob id) r args clean = elim (Bool-cases (r.bserrno == 0)) [
  | inl h ↦ rw (h) (over _ refl)
  | inr h ↦ rw (h) (over _ refl)
]
