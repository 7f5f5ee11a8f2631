-- ===== src/Poller.antt =====
-- `generic_poller` (simple_fs/thread_poller.c): a thread with one request to SPDK at a time, whose
-- answer runs a callback when the thread is polled.
pub mod Ended
pub mod Waits
pub mod Keeps
use spdk_blob_top_fs.Prelude.{ℕ, zero, suc, Bool, true, false, Option, none, some, if◌then◌else◌}

abbrev pub poller_max_time : ℕ
poller_max_time = 100000000

-- A program of callbacks: what the callback of a request does with the context when the reply is
-- there, with the request that it makes in turn.
pub record Callbacks : Type 1 where
  pub Context : Type 0
  pub Request : Type 0
  pub Reply : Type 0
  pub complete : Request → Reply → Context → Context × Option Request
  pub done : Context → Bool

module _ (C : Callbacks) where
  open C use {Context, Request, Reply}

  pub record Thread : Type 0 where
    pub context : Context
    pub pending : Option Request

  -- What SPDK has for the thread at each poll.
  abbrev pub Answers : Type 0
  Answers = ℕ → Option Reply

  abbrev pub run_callback : Context × Option Request → Thread
  run_callback r = record { context = r.0; pending = r.1 }

  -- `spdk_thread_poll`
  pub spdk_thread_poll : Option Reply → Thread → Thread
  spdk_thread_poll none thread = thread
  spdk_thread_poll (some reply) thread = elim (thread.pending) [
    | none ↦ thread
    | some request ↦ run_callback (C.complete request reply thread.context)
  ]

  -- `do { ... } while (!*(done) && poller_count < POLLER_MAX_TIME);` for the rounds that are left,
  -- and whether it was done in time.
  pub poll_loop : (rounds poller_count : ℕ) → Answers → Thread → Bool × Thread
  poll_loop zero poller_count answers thread = (false, thread)
  poll_loop (suc rounds) poller_count answers thread =
      let polled = spdk_thread_poll (answers poller_count) thread in
      let rest = poll_loop rounds (suc poller_count) answers polled in
      if C.done polled.context then (true, polled) else rest

  pub generic_poller : Answers → Thread → Bool × Thread
  generic_poller answers thread = poll_loop poller_max_time 0 answers thread

-- A message that makes one request, whose callback works on a flag that the caller polls for.
abbrev pub flag_callbacks : (Bool → ℕ → Bool) → Callbacks
flag_callbacks callback = record {
  Context = Bool;
  Request = Unit {0};
  Reply = ℕ;
  complete = λ request reply done. (callback done reply, none);
  done = λ done. done;
}
