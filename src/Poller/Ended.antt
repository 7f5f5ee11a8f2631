-- ===== src/Poller/Ended.antt =====
-- How `generic_poller` (simple_fs/thread_poller.c) ends.
use spdk_blob_top_fs.Prelude.{
  ℕ, zero, suc, ◌<◌, ◌≡◌, refl, sym, Bool, true, false, Option, none, some, arith, Bool-cases, inl,
  inr, subst,
}
use spdk_blob_top_fs.Poller.{
  Callbacks, Thread, Answers, spdk_thread_poll, poll_loop, generic_poller, poller_max_time,
}

module _ (C : Callbacks) where
  -- The thread after `n` polls, from poll number `count` on.
  unfoldable pub after : (n count : ℕ) → Answers C → Thread C → Thread C
  after zero count answers thread = thread
  after (suc n) count answers thread =
      after n (suc count) answers (spdk_thread_poll C (answers count) thread)

  -- Done after a poll, the first such, and the thread as that poll left it; or not done after any.
  pub data Ended (rounds count : ℕ) (answers : Answers C) (thread : Thread C)
      : Bool × Thread C → Type 0 where
    in_time :
        (n : ℕ)
        → n < rounds
        → C.done (after (suc n) count answers thread).context ≡ true
        → ((m : ℕ) → m < n → C.done (after (suc m) count answers thread).context ≡ false)
        → Ended rounds count answers thread (true, after (suc n) count answers thread)
    timed_out :
        ((m : ℕ) → m < rounds → C.done (after (suc m) count answers thread).context ≡ false)
        → Ended rounds count answers thread (false, after rounds count answers thread)

  poll_loop-stops :
      (rounds count : ℕ) (answers : Answers C) (thread : Thread C)
      → let polled = spdk_thread_poll C (answers count) thread in
        C.done polled.context ≡ true
        → poll_loop C (suc rounds) count answers thread ≡ (true, polled)
  unfolding poll_loop
  poll_loop-stops rounds count answers thread h = rw (h) refl

  poll_loop-goes_on :
      (rounds count : ℕ) (answers : Answers C) (thread : Thread C)
      → let polled = spdk_thread_poll C (answers count) thread in
        C.done polled.context ≡ false
        → poll_loop C (suc rounds) count answers thread
          ≡ poll_loop C rounds (suc count) answers polled
  unfolding poll_loop
  poll_loop-goes_on rounds count answers thread h = rw (h) refl

  not_before :
      (n count : ℕ) (answers : Answers C) (thread : Thread C)
      → let polled = spdk_thread_poll C (answers count) thread in
        C.done polled.context ≡ false
        → ((m : ℕ) → m < n → C.done (after (suc m) (suc count) answers polled).context ≡ false)
        → (m : ℕ) → m < suc n
        → C.done (after (suc m) count answers thread).context ≡ false
  unfolding after
  not_before n count answers thread h before zero lt = h
  not_before n count answers thread h before (suc m) lt = before m (omega arith)

  later-Ended :
      (rounds count : ℕ) (answers : Answers C) (thread : Thread C) (r : Bool × Thread C)
      → let polled = spdk_thread_poll C (answers count) thread in
        C.done polled.context ≡ false
        → Ended rounds (suc count) answers polled r
        → Ended (suc rounds) count answers thread r
  unfolding after
  later-Ended rounds count answers thread r h (in_time n lt now before) =
      in_time (suc n) (omega arith) now (not_before n count answers thread h before)
  later-Ended rounds count answers thread r h (timed_out before) =
      timed_out (not_before rounds count answers thread h before)

  poll_loop-Ended :
      (rounds count : ℕ) (answers : Answers C) (thread : Thread C)
      → Ended rounds count answers thread (poll_loop C rounds count answers thread)
  unfolding poll_loop after
  poll_loop-Ended zero count answers thread = timed_out (λ m lt. absurd (omega arith))
  poll_loop-Ended (suc rounds) count answers thread =
      let polled = spdk_thread_poll C (answers count) thread in
      elim (Bool-cases (C.done polled.context)) [
        | inl h ↦
            subst (λ (r : Bool × Thread C). Ended (suc rounds) count answers thread r)
              (sym (poll_loop-stops rounds count answers thread h))
              (in_time 0 (omega arith) h (λ m lt. absurd (omega arith)))
        | inr h ↦
            subst (λ (r : Bool × Thread C). Ended (suc rounds) count answers thread r)
              (sym (poll_loop-goes_on rounds count answers thread h))
              (later-Ended rounds count answers thread _ h
                (poll_loop-Ended rounds (suc count) answers polled))
      ]

  -- `generic_poller` ends after the first of its at most 10^8 polls that sets the flag, with the
  -- thread as that poll left it, and says so; or no poll sets the flag, and it returns false with
  -- the thread as the last one left it.
  pub generic_poller-Ended :
      (answers : Answers C) (thread : Thread C)
      → Ended poller_max_time 0 answers thread (generic_poller C answers thread)
  unfolding generic_poller
  generic_poller-Ended answers thread = poll_loop-Ended poller_max_time 0 answers thread

  poll-idle :
      (answer : Option C.Reply) (ctx : C.Context)
      → spdk_thread_poll C answer (record { context = ctx; pending = none })
        ≡ record { context = ctx; pending = none }
  unfolding spdk_thread_poll
  poll-idle none ctx = refl
  poll-idle (some reply) ctx = refl

  poll_loop-idle :
      (rounds count : ℕ) (answers : Answers C) (ctx : C.Context)
      → C.done ctx ≡ false
      → poll_loop C rounds count answers (record { context = ctx; pending = none })
        ≡ (false, record { context = ctx; pending = none })
  unfolding poll_loop
  poll_loop-idle zero count answers ctx h = refl
  poll_loop-idle (suc rounds) count answers ctx h =
      rw (poll-idle (answers count) ctx, h) (poll_loop-idle rounds (suc count) answers ctx h)

  -- A thread that waits for nothing and is not done stays so until the time is over.
  pub generic_poller-idle :
      (answers : Answers C) (ctx : C.Context)
      → C.done ctx ≡ false
      → generic_poller C answers (record { context = ctx; pending = none })
        ≡ (false, record { context = ctx; pending = none })
  unfolding generic_poller
  generic_poller-idle answers ctx h = poll_loop-idle poller_max_time 0 answers ctx h
