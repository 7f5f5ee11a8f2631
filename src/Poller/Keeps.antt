-- ===== src/Poller/Keeps.antt =====
-- What `generic_poller` (simple_fs/thread_poller.c) keeps, and what its result tells.
use spdk_blob_top_fs.Prelude.{
  ℕ, zero, suc, ◌-◌, ◌≡◌, sym, subst, Bool, Option, none, some, arith, Bool-cases, inl, inr,
}
use spdk_blob_top_fs.Poller.{
  Callbacks, Thread, Answers, spdk_thread_poll, poll_loop, generic_poller, poller_max_time,
}
use spdk_blob_top_fs.Poller.Ended.{Ended, in_time, timed_out, generic_poller-Ended}

module _ (C : Callbacks) where
  open C use {Context, Request, Reply}

  -- A property of the context and the pending request that each callback keeps.
  module _ {ℓ} (P : Context → Option Request → Type ℓ)
      (step : (ctx : Context) (request : Request) (reply : Reply)
        → P ctx (some request)
        → P (C.complete request reply ctx).0 (C.complete request reply ctx).1) where
    poll-keeps :
        (answer : Option Reply) (ctx : Context) (pending : Option Request)
        → P ctx pending
        → let polled = spdk_thread_poll C answer (record { context = ctx; pending = pending }) in
          P polled.context polled.pending
    unfolding spdk_thread_poll
    poll-keeps none ctx pending p = p
    poll-keeps (some reply) ctx none p = p
    poll-keeps (some reply) ctx (some request) p = step ctx request reply p

    poll_loop-keeps :
        (rounds count : ℕ) (answers : Answers C) (thread : Thread C)
        → P thread.context thread.pending
        → let r = poll_loop C rounds count answers thread in P r.1.context r.1.pending
    unfolding poll_loop
    poll_loop-keeps zero count answers thread p = p
    poll_loop-keeps (suc rounds) count answers thread p =
        let polled = spdk_thread_poll C (answers count) thread in
        let kept = poll-keeps (answers count) thread.context thread.pending p in
        elim (Bool-cases (C.done polled.context)) [
          | inl stops ↦ rw stops kept
          | inr goes_on ↦ rw goes_on (poll_loop-keeps rounds (suc count) answers polled kept)
        ]

    pub generic_poller-keeps :
        (answers : Answers C) (thread : Thread C)
        → P thread.context thread.pending
        → let r = generic_poller C answers thread in P r.1.context r.1.pending
    unfolding generic_poller
    generic_poller-keeps answers thread p = poll_loop-keeps poller_max_time 0 answers thread p

  ended-flag :
      (rounds count : ℕ) (answers : Answers C) (thread : Thread C) (r : Bool × Thread C)
      → Ended C (suc rounds) count answers thread r
      → r.0 ≡ C.done r.1.context
  ended-flag rounds count answers thread _ (in_time n lt now before) = sym now
  ended-flag rounds count answers thread _ (timed_out before) = sym (before rounds (omega arith))

  -- The result is the flag.
  pub generic_poller-done :
      (answers : Answers C) (thread : Thread C)
      → let r = generic_poller C answers thread in r.0 ≡ C.done r.1.context
  generic_poller-done answers thread = ended-flag (poller_max_time - 1) 0 answers thread _ (
      subst (λ (n : ℕ). Ended C n 0 answers thread (generic_poller C answers thread)) (omega arith)
        (generic_poller-Ended C answers thread))
