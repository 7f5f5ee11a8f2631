-- ===== src/BlobOp.antt =====
-- The blocking operations on blobs: simple_fs/blob_op.c, with the callbacks of simple_fs/super.c
-- for the creation and the deletion of a blob. An error number is its absolute value.
pub mod Tells
pub mod Waited
mod Tests
use spdk_blob_top_fs.Prelude.{
  ℕ, ◌+◌, ◌-◌, ◌*◌, ◌/◌, Bool, true, false, not, Option, none, some, ◌==◌, if◌then◌else◌,
}
use spdk_blob_top_fs.Poller.{Callbacks, Thread, Answers, generic_poller}

-- The requests to SPDK that a callback waits for. `open_created` is the opening of a blob that was
-- created just before.
pub data Request : Type 0 where
  bs_create_blob : Request
  open_created : (blobid : ℕ) → Request
  bs_open_blob : (blobid : ℕ) → Request
  blob_close_request : Request
  blob_io : (offset length : ℕ) (read : Bool) → Request
  blob_resize : (clusters : ℕ) → Request
  blob_sync_md : Request
  bs_delete_blob : (blobid : ℕ) → Request

-- What SPDK hands to a callback; a null pointer is `none`.
pub record Reply : Type 0 where
  pub bserrno : ℕ
  pub blobid : ℕ
  pub blob : Option ℕ

-- `struct fs_blob_ctx` and `struct blob_rw_ctx`: `*done`, the error number and the blob.
pub record Context : Type 0 where
  pub done : Bool
  pub fs_errno : ℕ
  pub op_blob : Option ℕ

abbrev pub Next : Type 0
Next = Context × Option Request

-- The callbacks of `blob_open`, `blob_close` and `generic_blob_io`, and `spdk_blob_sync_complete`.
pub open_blob_complete : Context → Option ℕ → (bserrno : ℕ) → Next
open_blob_complete args blb bserrno =
    (record args { fs_errno = bserrno; op_blob = blb; done = true }, none)

pub close_blob_complete : Context → (bserrno : ℕ) → Next
close_blob_complete args bserrno = (record args { fs_errno = bserrno; done = true }, none)

pub io_blob_complete : Context → (bserrno : ℕ) → Next
io_blob_complete rw_ctx bserrno = (record rw_ctx { fs_errno = bserrno; done = true }, none)

pub spdk_blob_sync_complete : Context → (bserrno : ℕ) → Next
spdk_blob_sync_complete rw_ctx bserrno = (record rw_ctx { fs_errno = bserrno; done = true }, none)

pub resize_blob_complete : Context → (bserrno : ℕ) → Next
resize_blob_complete rw_ctx bserrno =
    if not (bserrno == 0)
    then (record rw_ctx { fs_errno = bserrno; done = true }, none)
    else (record rw_ctx { fs_errno = bserrno }, some blob_sync_md)

-- The callbacks of `simple_fs_alloc_blob` and `simple_fs_free_blob`.
pub open_blob_finished : Context → Option ℕ → (bserrno : ℕ) → Next
open_blob_finished args blb bserrno =
    if not (bserrno == 0)
    then (record args { fs_errno = bserrno; done = true }, none)
    else (record args { op_blob = blb; fs_errno = bserrno; done = true }, none)

pub create_blob_finished : Context → (blobid bserrno : ℕ) → Next
create_blob_finished args blobid bserrno =
    if not (bserrno == 0)
    then (record args { fs_errno = bserrno; done = true }, none)
    else (args, some (open_created blobid))

pub delete_blob_finished : Context → (bserrno : ℕ) → Next
delete_blob_finished args bserrno =
    if not (bserrno == 0)
    then (record args { fs_errno = bserrno; done = true }, none)
    else (record args { done = true }, none)

simple_fs_alloc_blob : Context → Next
simple_fs_alloc_blob args = (args, some bs_create_blob)

-- `op_blob_id` is that of the context.
simple_fs_free_blob : (op_blob_id : ℕ) → Context → Next
simple_fs_free_blob op_blob_id args = (args, some (bs_delete_blob op_blob_id))

-- `struct spdk_fs_operations`
record FsOperations : Type 0 where
  alloc_blob : Context → Next
  free_blob : (op_blob_id : ℕ) → Context → Next

-- The one table, which `load_fs_operations` sets.
simple_fs_operations : FsOperations
simple_fs_operations = record { alloc_blob = simple_fs_alloc_blob; free_blob = simple_fs_free_blob }

pub complete : Request → Reply → Context → Next
complete bs_create_blob r args = create_blob_finished args r.blobid r.bserrno
complete (open_created id) r args = open_blob_finished args r.blob r.bserrno
complete (bs_open_blob id) r args = open_blob_complete args r.blob r.bserrno
complete blob_close_request r args = close_blob_complete args r.bserrno
complete (blob_io offset length read) r args = io_blob_complete args r.bserrno
complete (blob_resize n) r args = resize_blob_complete args r.bserrno
complete blob_sync_md r args = spdk_blob_sync_complete args r.bserrno
complete (bs_delete_blob id) r args = delete_blob_finished args r.bserrno

abbrev pub callbacks : Callbacks
callbacks = record {
  Context = Context;
  Request = Request;
  Reply = Reply;
  complete = complete;
  done = λ args. args.done;
}

-- The request, and the error number and the blob that the context has when the poller returns,
-- whatever it returns. `done` is what the flag holds before.
pub blocking : (done : Bool) → Option ℕ → Request → Answers callbacks → Bool × Option ℕ
blocking done blob request answers =
    let args : Context = record { done = done; fs_errno = 0; op_blob = blob } in
    let polled =
      (generic_poller callbacks answers (record { context = args; pending = some request })).1 in
    (polled.context.fs_errno == 0, polled.context.op_blob)

-- `assert(*blob)`
abbrev pub with_blob : Bool × Option ℕ → Option (Bool × Option ℕ)
with_blob (ok, none) = none
with_blob (ok, some blob) = some (ok, some blob)

-- `bool done;` is not initialised: `uninit` is what it holds. The program ends by its `assert`
-- (`none`) where there is no blob.
pub blob_create : (uninit : Bool) → Option ℕ → Answers callbacks → Option (Bool × Option ℕ)
blob_create uninit blob answers = with_blob (blocking uninit blob bs_create_blob answers)

pub blob_open : (uninit : Bool) → Option ℕ → ℕ → Answers callbacks → Bool × Option ℕ
blob_open uninit blob blob_id answers = blocking uninit blob (bs_open_blob blob_id) answers

blob_close : (uninit : Bool) → ℕ → Answers callbacks → Bool
blob_close uninit blob answers = (blocking uninit (some blob) blob_close_request answers).0

blob_unlink : (uninit : Bool) → ℕ → Answers callbacks → Bool
blob_unlink uninit blob_id answers = (blocking uninit none (bs_delete_blob blob_id) answers).0

-- `UPPER_DIV(a, b)`, in 64 bits below.
abbrev upper_div : ℕ → ℕ → ℕ
upper_div a b = (a - 1) / b + 1

-- `io_blob` and `generic_blob_io`, with a size above 0.
pub generic_blob_io : (io_unit blob size offset : ℕ) (read : Bool) → Answers callbacks → Bool
generic_blob_io io_unit blob size offset read answers =
    (blocking false (some blob) (blob_io (offset / io_unit) (upper_div size io_unit) read)
      answers).0

-- `resize_blob` and `generic_blob_resize`; `none` is the `assert` on the size, which ends the
-- program before SPDK is asked.
pub generic_blob_resize : (cluster_size blob size : ℕ) → Answers callbacks → Option Bool
generic_blob_resize cluster_size blob size answers =
    if size == 0
    then none
    else some (blocking false (some blob) (blob_resize (upper_div size cluster_size)) answers).0
