-- ===== src/BlobOp/Waited.antt =====
-- What the operations of simple_fs/blob_op.c return, for answers of SPDK in time and for none.
use spdk_blob_top_fs.Prelude.{
  ℕ, suc, ◌/◌, ◌+◌, ◌-◌, ◌<◌, ◌≡◌, refl, sym, ap, ◌∙◌, Bool, true, false, Option, none, some, arith,
  ◌==◌, if◌then◌else◌, Bool-cases, inl, inr,
}
use spdk_blob_top_fs.Poller.{
  Thread, Answers, poll_loop, generic_poller, poller_max_time, run_callback,
}
use spdk_blob_top_fs.Poller.Waits.{
  First, poll_loop-answered, generic_poller-waits, generic_poller-early, generic_poller-answered,
}
use spdk_blob_top_fs.BlobOp.{
  Request, Reply, Context, Next, callbacks, complete, blocking, with_blob, blob_create,
  generic_blob_io, generic_blob_resize, io_blob_complete, resize_blob_complete,
  spdk_blob_sync_complete, open_blob_finished, create_blob_finished, bs_create_blob, open_created,
  blob_io, blob_resize, blob_sync_md,
}

abbrev started : Option ℕ → Context
started blob = record { done = false; fs_errno = 0; op_blob = blob }

-- What the caller takes from the context.
abbrev outcome : Context → Bool × Option ℕ
outcome ctx = (ctx.fs_errno == 0, ctx.op_blob)

abbrev thread_of : Option ℕ → Request → Thread callbacks
thread_of blob request = record { context = started blob; pending = some request }

if_true : {A : Type 0} {b : Bool} (x y : A) → b ≡ true → (if b then x else y) ≡ x
if_true x y h = rw (h) refl

if_false : {A : Type 0} {b : Bool} (x y : A) → b ≡ false → (if b then x else y) ≡ y
if_false x y h = rw (h) refl

-- One request, with an answer that ends the chain.
blocking-one :
    (blob : Option ℕ) (request : Request) (answers : Answers callbacks) (n : ℕ) (reply : Reply)
    → First callbacks answers 0 n reply
    → n < poller_max_time
    → (complete request reply (started blob)).0.done ≡ true
    → blocking false blob request answers ≡ outcome (complete request reply (started blob)).0
unfolding blocking
blocking-one blob request answers n reply first lt ends =
    let next = complete request reply (started blob) in
    let ended : generic_poller callbacks answers (thread_of blob request)
        ≡ (true, run_callback callbacks next) =
      generic_poller-answered callbacks n answers (started blob) request reply lt refl first
      ∙ if_true _ _ ends in
    ap (λ (r : Bool × Thread callbacks). outcome r.1.context) ended

-- Two requests, one after the other.
blocking-two :
    (blob : Option ℕ) (request : Request) (answers : Answers callbacks) (n n' : ℕ)
    (reply reply' : Reply) (ctx : Context) (request' : Request)
    → First callbacks answers 0 n reply
    → First callbacks answers (suc n) n' reply'
    → suc n + n' < poller_max_time
    → complete request reply (started blob) ≡ (ctx, some request')
    → ctx.done ≡ false
    → (complete request' reply' ctx).0.done ≡ true
    → blocking false blob request answers ≡ outcome (complete request' reply' ctx).0
unfolding blocking
blocking-two blob request answers n n' reply reply' ctx request' first second lt next busy ends =
    let left = poller_max_time - suc n - suc n' in
    let fuel : poller_max_time - suc n ≡ n' + suc left = omega arith in
    let ended : generic_poller callbacks answers (thread_of blob request)
        ≡ (true, run_callback callbacks (complete request' reply' ctx)) =
      generic_poller-answered callbacks n answers (started blob) request reply (omega arith) refl
        first
      ∙ if_false _ _ (ap (λ (s : Next). s.0.done) next ∙ busy)
      ∙ ap
          (λ (s : Next).
            poll_loop callbacks (poller_max_time - suc n) (suc n) answers
              (run_callback callbacks s))
          next
      ∙ ap
          (λ (k : ℕ).
            poll_loop callbacks k (suc n) answers (run_callback callbacks (ctx, some request')))
          fuel
      ∙ poll_loop-answered callbacks n' left (suc n) answers ctx request' reply' busy second
      ∙ if_true _ _ ends in
    ap (λ (r : Bool × Thread callbacks). outcome r.1.context) ended

-- No request is answered in time.
blocking-none :
    (blob : Option ℕ) (request : Request) (answers : Answers callbacks)
    → ((m : ℕ) → m < poller_max_time → answers m ≡ none)
    → blocking false blob request answers ≡ (true, blob)
unfolding blocking
blocking-none blob request answers silent =
    ap (λ (r : Bool × Thread callbacks). outcome r.1.context)
      (generic_poller-waits callbacks answers (thread_of blob request) refl silent)

-- With an answer in time, a transfer returns whether SPDK succeeded.
generic_blob_io_lem :
    (io_unit blob size offset : ℕ) (read : Bool) (answers : Answers callbacks) (n : ℕ)
    (reply : Reply)
    → First callbacks answers 0 n reply
    → n < poller_max_time
    → generic_blob_io io_unit blob size offset read answers ≡ (reply.bserrno == 0)
unfolding generic_blob_io complete io_blob_complete
generic_blob_io_lem io_unit blob size offset read answers n reply first lt =
    ap (λ (r : Bool × Option ℕ). r.0)
      (blocking-one (some blob) (blob_io (offset / io_unit) ((size - 1) / io_unit + 1) read) answers
        n reply first lt refl)

-- If SPDK has no answer within the time of the poller, `generic_blob_io` returns true.
generic_blob_io_timeout :
    (io_unit blob size offset : ℕ) (read : Bool) (answers : Answers callbacks)
    → ((m : ℕ) → m < poller_max_time → answers m ≡ none)
    → generic_blob_io io_unit blob size offset read answers ≡ true
unfolding generic_blob_io
generic_blob_io_timeout io_unit blob size offset read answers silent =
    ap (λ (r : Bool × Option ℕ). r.0) (blocking-none (some blob) _ answers silent)

-- A resize that SPDK answers, and the sync of the metadata after it.
resize_answered :
    (cluster_size blob size : ℕ) (answers : Answers callbacks) (n n' : ℕ) (reply reply' : Reply)
    → First callbacks answers 0 n reply
    → First callbacks answers (suc n) n' reply'
    → suc n + n' < poller_max_time
    → (blocking false (some blob) (blob_resize ((size - 1) / cluster_size + 1)) answers).0
      ≡ (if reply.bserrno == 0 then reply'.bserrno == 0 else false)
unfolding complete resize_blob_complete spdk_blob_sync_complete
resize_answered cluster_size blob size answers n n' reply reply' first second lt =
    let request = blob_resize ((size - 1) / cluster_size + 1) in
    let failed : (reply.bserrno == 0) ≡ false
        → (complete request reply (started (some blob))).0.fs_errno == 0 ≡ false =
      λ h. rw (h) h in
    elim (Bool-cases (reply.bserrno == 0)) [
      | inl h ↦
          ap (λ (r : Bool × Option ℕ). r.0)
            (blocking-two (some blob) _ answers n n' reply reply'
              (record (started (some blob)) { fs_errno = reply.bserrno }) blob_sync_md first second
              lt (rw (h) refl) refl refl)
          ∙ rw (h) refl
      | inr h ↦
          ap (λ (r : Bool × Option ℕ). r.0)
            (blocking-one (some blob) _ answers n reply first (omega arith) (rw (h) refl))
          ∙ failed h
          ∙ sym (if_false _ _ h)
    ]

-- If SPDK would answer a resize, and the sync of the metadata after it, within the time of the
-- poller: with a size of 0 `generic_blob_resize` ends the program by its assertion, and with any
-- other size it returns true exactly when both succeed.
pub generic_blob_resize_lem :
    (cluster_size blob size : ℕ) (answers : Answers callbacks) (n n' : ℕ) (reply reply' : Reply)
    → First callbacks answers 0 n reply
    → First callbacks answers (suc n) n' reply'
    → suc n + n' < poller_max_time
    → generic_blob_resize cluster_size blob size answers ≡ (
        if size == 0
        then none
        else some (if reply.bserrno == 0 then reply'.bserrno == 0 else false))
unfolding generic_blob_resize
generic_blob_resize_lem cluster_size blob size answers n n' reply reply' first second lt =
    ap (λ (b : Bool). if size == 0 then none else some b)
      (resize_answered cluster_size blob size answers n n' reply reply' first second lt)

-- With both answers in time and without errors, the created blob is handed over.
blob_create_lem :
    (blob : Option ℕ) (answers : Answers callbacks) (n n' : ℕ) (reply reply' : Reply) (created : ℕ)
    → First callbacks answers 0 n reply
    → First callbacks answers (suc n) n' reply'
    → suc n + n' < poller_max_time
    → reply.bserrno ≡ 0
    → reply'.bserrno ≡ 0
    → reply'.blob ≡ some created
    → blob_create false blob answers ≡ some (true, some created)
unfolding blob_create complete create_blob_finished open_blob_finished
blob_create_lem blob answers n n' reply reply' created first second lt ok ok' got =
    let zero : (reply.bserrno == 0) ≡ true = ground arith in
    let zero' : (reply'.bserrno == 0) ≡ true = ground arith in
    let done =
      blocking-two blob bs_create_blob answers n n' reply reply' (started blob)
        (open_created reply.blobid) first second lt (rw (zero) refl) refl (rw (zero') refl) in
    let value : outcome (complete (open_created reply.blobid) reply' (started blob)).0
        ≡ (true, some created) =
      rw (zero', got) (ap (λ (b : Bool). (b, some created)) zero') in
    ap with_blob (done ∙ value)

-- If the flag that `blob_create` does not initialise happens to be set, and SPDK has no answer at
-- the first poll, it returns true with the pointer that it was given.
blob_create_early :
    (blob : ℕ) (answers : Answers callbacks)
    → answers 0 ≡ none
    → blob_create true (some blob) answers ≡ some (true, some blob)
unfolding blob_create blocking
blob_create_early blob answers silent =
    let args : Context = record { done = true; fs_errno = 0; op_blob = some blob } in
    let thread : Thread callbacks = record { context = args; pending = some bs_create_blob } in
    ap (λ (r : Bool × Thread callbacks). with_blob (outcome r.1.context))
      (generic_poller-early callbacks answers thread refl silent)
