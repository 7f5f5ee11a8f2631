-- ===== src/Mount.antt =====
-- The callbacks of spdk_fs/fs.c that load or initialise the blobstore and open its super blob.
-- An error number is its absolute value; 0 is success.
pub mod Outcome
pub mod Settled
pub mod Answered
mod Tests
use spdk_blob_top_fs.Prelude.{ℕ, Bool, true, false, not, Option, none, some, ◌==◌, if◌then◌else◌}
use spdk_blob_top_fs.Poller.{Callbacks, Thread, flag_callbacks}

abbrev pub enoent : ℕ
enoent = 2

-- The requests to SPDK that a callback waits for.
pub data Request : Type 0 where
  bs_load : Request
  bs_init : Request
  bs_get_super : Request
  bs_create_blob : Request
  bs_set_super : ℕ → Request
  bs_open_blob : ℕ → Request

-- `bserrno`, and the blob's id where the request returns one.
pub record Reply : Type 0 where
  pub bserrno : ℕ
  pub blobid : ℕ

-- `struct bs_load_context`, with the fields of the file system that the callbacks set. The blob
-- of an id stands for the opened blob.
pub record Context : Type 0 where
  pub is_loading : Bool
  pub has_bs : Bool
  pub super_blob_id : ℕ
  pub super_blob : Option ℕ
  pub done : Bool

abbrev pub Next : Type 0
Next = Context × Option Request

pub spdk_bs_sb_open_complete : Context → (blob bserrno : ℕ) → Next
spdk_bs_sb_open_complete ctx blob bserrno =
    if not (bserrno == 0)
    then (record ctx { done = true }, none)
    else (record ctx { super_blob = some blob; done = true }, none)

pub spdk_bs_set_super_complete : Context → (bserrno : ℕ) → Next
spdk_bs_set_super_complete ctx bserrno =
    if not (bserrno == 0)
    then (record ctx { done = true }, none)
    else (ctx, some (bs_open_blob ctx.super_blob_id))

pub spdk_bs_create_super_complete : Context → (blobid bserrno : ℕ) → Next
spdk_bs_create_super_complete ctx blobid bserrno =
    if not (bserrno == 0)
    then (record ctx { done = true }, none)
    else (record ctx { super_blob_id = blobid }, some (bs_set_super blobid))

pub spdk_bs_get_super_complete : Context → (blobid bserrno : ℕ) → Next
spdk_bs_get_super_complete ctx blobid bserrno =
    if not (bserrno == 0)
    then (if bserrno == enoent then (ctx, some bs_create_blob) else (ctx, none))
    else (ctx, some (bs_open_blob blobid))

-- The channel that SPDK returns is not looked at but for a message.
pub spdk_init_super_block_cb : Context → (bserrno : ℕ) → Next
spdk_init_super_block_cb ctx bserrno =
    if not (bserrno == 0)
    then (if ctx.is_loading then (record ctx { is_loading = false }, some bs_init) else (ctx, none))
    else (record ctx { has_bs = true }, some bs_get_super)

pub complete : Request → Reply → Context → Next
complete bs_load r ctx = spdk_init_super_block_cb ctx r.bserrno
complete bs_init r ctx = spdk_init_super_block_cb ctx r.bserrno
complete bs_get_super r ctx = spdk_bs_get_super_complete ctx r.blobid r.bserrno
complete bs_create_blob r ctx = spdk_bs_create_super_complete ctx r.blobid r.bserrno
complete (bs_set_super id) r ctx = spdk_bs_set_super_complete ctx r.bserrno
complete (bs_open_blob id) r ctx = spdk_bs_sb_open_complete ctx id r.bserrno

-- `init_spdk_filesystem` from where SPDK opened the device. `garbage` is what `malloc` leaves in
-- the field that nothing sets yet.
unfoldable pub load_blobstore : (garbage : ℕ) → Next
load_blobstore garbage = (
  record {
    is_loading = true;
    has_bs = false;
    super_blob_id = garbage;
    super_blob = none;
    done = false;
  },
  some bs_load,
)

-- `bdev_fails` is whether `spdk_bdev_create_bs_dev_ext` returns an error; `none` is `exit(-1)`.
unfoldable pub init_spdk_filesystem : (bdev_fails : Bool) (garbage : ℕ) → Option Next
init_spdk_filesystem bdev_fails garbage = if bdev_fails then none else some (load_blobstore garbage)

abbrev pub callbacks : Callbacks
callbacks = record {
  Context = Context;
  Request = Request;
  Reply = Reply;
  complete = complete;
  done = λ ctx. ctx.done;
}

cleanup_finished_cb : (finished : Bool) → (bserrno : ℕ) → Bool
cleanup_finished_cb finished bserrno = true

-- After `cleanup_filesystem`, which gives the channel back and requests the unload.
cleanup_filesystem : (finished : Bool) → Thread (flag_callbacks cleanup_finished_cb)
cleanup_filesystem finished = record { context = finished; pending = some tt }
