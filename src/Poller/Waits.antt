-- ===== src/Poller/Waits.antt =====
-- `generic_poller` (simple_fs/thread_poller.c) while SPDK has no answer, and when it has one.
use spdk_blob_top_fs.Prelude.{
  ℕ, zero, suc, ◌+◌, ◌-◌, ◌<◌, ◌≡◌, refl, ap, ◌∙◌, true, false, none, some, arith, if◌then◌else◌,
}
use spdk_blob_top_fs.Poller.{
  Callbacks, Thread, Answers, run_callback, spdk_thread_poll, poll_loop, generic_poller,
  poller_max_time,
}

module _ (C : Callbacks) where
  -- The first answer from poll number `count` on is that of the `n`-th poll.
  pub record First (answers : Answers C) (count n : ℕ) (reply : C.Reply) : Type 0 where
    pub silent : (m : ℕ) → m < n → answers (count + m) ≡ none
    pub answer : answers (count + n) ≡ some reply

  poll_loop-waits :
      (n rounds count : ℕ) (answers : Answers C) (thread : Thread C)
      → C.done thread.context ≡ false
      → ((m : ℕ) → m < n → answers (count + m) ≡ none)
      → poll_loop C (n + rounds) count answers thread
        ≡ poll_loop C rounds (count + n) answers thread
  unfolding poll_loop spdk_thread_poll
  poll_loop-waits zero rounds count answers thread busy silent =
      ap (λ (k : ℕ). poll_loop C k count answers thread) (omega arith)
      ∙ ap (λ (k : ℕ). poll_loop C rounds k answers thread) (omega arith)
  poll_loop-waits (suc n) rounds count answers thread busy silent =
      let now : answers count ≡ none = ap answers (omega arith) ∙ silent 0 (omega arith) in
      let later =
        poll_loop-waits n rounds (suc count) answers thread busy
          (λ m lt. ap answers (omega arith) ∙ silent (suc m) (omega arith)) in
      let fuel : suc n + rounds ≡ suc (n + rounds) = omega arith in
      let place : suc count + n ≡ count + suc n = omega arith in
      rw (fuel, now, busy) (later ∙ ap (λ (k : ℕ). poll_loop C rounds k answers thread) place)

  -- An answer, and what its callback leaves.
  pub poll_loop-answered :
      (n rounds count : ℕ) (answers : Answers C) (ctx : C.Context) (request : C.Request)
      (reply : C.Reply)
      → C.done ctx ≡ false
      → First answers count n reply
      → let next = C.complete request reply ctx in
        poll_loop C
          (n + suc rounds)
          count
          answers
          (record { context = ctx; pending = some request })
        ≡ (if C.done next.0
            then (true, run_callback C next)
            else poll_loop C rounds (suc (count + n)) answers (run_callback C next))
  unfolding poll_loop spdk_thread_poll
  poll_loop-answered n rounds count answers ctx request reply busy first =
      let thread : Thread C = record { context = ctx; pending = some request } in
      poll_loop-waits n (suc rounds) count answers thread busy first.silent ∙ rw (first.answer) refl

  pub generic_poller-waits :
      (answers : Answers C) (thread : Thread C)
      → C.done thread.context ≡ false
      → ((m : ℕ) → m < poller_max_time → answers m ≡ none)
      → generic_poller C answers thread ≡ (false, thread)
  unfolding generic_poller poll_loop
  generic_poller-waits answers thread busy silent =
      let fuel : poller_max_time ≡ poller_max_time + 0 = omega arith in
      ap (λ (k : ℕ). poll_loop C k 0 answers thread) fuel
      ∙ poll_loop-waits poller_max_time 0 0 answers thread busy
          (λ m lt. ap answers (omega arith) ∙ silent m lt)

  pub generic_poller-answered :
      (n : ℕ) (answers : Answers C) (ctx : C.Context) (request : C.Request) (reply : C.Reply)
      → n < poller_max_time
      → C.done ctx ≡ false
      → First answers 0 n reply
      → let next = C.complete request reply ctx in
        generic_poller C answers (record { context = ctx; pending = some request }) ≡ (
          if C.done next.0
          then (true, run_callback C next)
          else poll_loop C (poller_max_time - suc n) (suc n) answers (run_callback C next))
  unfolding generic_poller
  generic_poller-answered n answers ctx request reply lt busy first =
      let thread : Thread C = record { context = ctx; pending = some request } in
      let next = C.complete request reply ctx in
      let left = poller_max_time - suc n in
      let fuel : poller_max_time ≡ n + suc left = omega arith in
      let place : 0 + n ≡ n = omega arith in
      ap (λ (k : ℕ). poll_loop C k 0 answers thread) fuel
      ∙ poll_loop-answered n left 0 answers ctx request reply busy first
      ∙ ap
          (λ (k : ℕ).
            if C.done next.0
            then (true, run_callback C next)
            else poll_loop C left (suc k) answers (run_callback C next))
          place

  poll_loop-early :
      (rounds : ℕ) (answers : Answers C) (thread : Thread C)
      → C.done thread.context ≡ true
      → answers 0 ≡ none
      → poll_loop C (suc rounds) 0 answers thread ≡ (true, thread)
  unfolding poll_loop spdk_thread_poll
  poll_loop-early rounds answers thread set silent = rw (silent, set) refl

  -- The flag was set before: one poll, and no wait.
  pub generic_poller-early :
      (answers : Answers C) (thread : Thread C)
      → C.done thread.context ≡ true
      → answers 0 ≡ none
      → generic_poller C answers thread ≡ (true, thread)
  unfolding generic_poller
  generic_poller-early answers thread set silent =
      let fuel : poller_max_time ≡ suc (poller_max_time - 1) = omega arith in
      ap (λ (k : ℕ). poll_loop C k 0 answers thread) fuel
      ∙ poll_loop-early (poller_max_time - 1) answers thread set silent
