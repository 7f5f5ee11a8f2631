-- ===== src/Mount/Answered.antt =====
-- The mount of spdk_fs/fs.c as simple_fs/super.c polls for it, on a device that holds a file system.
use spdk_blob_top_fs.Prelude.{
  ℕ, suc, ◌+◌, ◌-◌, ◌≤◌, ◌≡◌, refl, ap, ◌∙◌, Bool, true, none, some, arith,
}
use spdk_blob_top_fs.Mount.{
  Context, complete, load_blobstore, bs_load, bs_get_super, bs_open_blob, callbacks,
  spdk_bs_sb_open_complete, spdk_bs_get_super_complete, spdk_init_super_block_cb,
}
use spdk_blob_top_fs.Mount.Settled.{answer}
use spdk_blob_top_fs.Poller.{Thread, Answers, poll_loop, generic_poller, poller_max_time}
use spdk_blob_top_fs.Poller.Waits.{First, poll_loop-answered, generic_poller-answered}

abbrev pub mount : (garbage : ℕ) → Answers callbacks → Bool × Thread callbacks
mount garbage answers =
    let start = load_blobstore garbage in
    generic_poller callbacks answers (record { context = start.0; pending = start.1 })

-- SPDK answers to the load, to the search of the super blob and to its opening, each after some
-- polls without an answer, and all in time.
pub record IsMounting (id : ℕ) (answers : Answers callbacks) : Type 0 where
  pub load_after : ℕ
  pub super_after : ℕ
  pub open_after : ℕ
  pub ignored : ℕ
  pub in_time : load_after + super_after + open_after + 3 ≤ poller_max_time
  pub loads : First callbacks answers 0 load_after (answer 0 ignored)
  pub finds : First callbacks answers (suc load_after) super_after (answer 0 id)
  pub opens :
      First callbacks answers (suc (suc load_after + super_after)) open_after (answer 0 ignored)

-- After the load, after the search, and in the end.
abbrev pub loaded : (garbage : ℕ) → Context
loaded garbage = record ((load_blobstore garbage).0) { has_bs = true }

abbrev pub mounted_context : (garbage id : ℕ) → Context
mounted_context garbage id = record (loaded garbage) { super_blob = some id; done = true }

module _ (garbage id : ℕ) (answers : Answers callbacks) (m : IsMounting id answers) where
  open_answered :
      (rounds : ℕ)
      → poll_loop callbacks
          (m.open_after + suc rounds)
          (suc (suc m.load_after + m.super_after))
          answers
          (record { context = loaded garbage; pending = some (bs_open_blob id) })
        ≡ (true, record { context = mounted_context garbage id; pending = none })
  unfolding complete load_blobstore spdk_bs_sb_open_complete
  open_answered rounds =
      poll_loop-answered callbacks m.open_after rounds _ answers (loaded garbage) (bs_open_blob id)
        (answer 0 m.ignored) refl m.opens

  super_answered :
      (rounds : ℕ)
      → poll_loop callbacks
          (m.super_after + suc (m.open_after + suc rounds))
          (suc m.load_after)
          answers
          (record { context = loaded garbage; pending = some bs_get_super })
        ≡ (true, record { context = mounted_context garbage id; pending = none })
  unfolding complete load_blobstore spdk_bs_get_super_complete
  super_answered rounds =
      poll_loop-answered callbacks m.super_after (m.open_after + suc rounds) _ answers
        (loaded garbage) bs_get_super (answer 0 id) refl m.finds
      ∙ open_answered rounds

  pub mount-IsMounting :
      mount garbage answers
      ≡ (true, record { context = mounted_context garbage id; pending = none })
  unfolding complete load_blobstore spdk_init_super_block_cb
  mount-IsMounting =
      let rounds = poller_max_time - (m.load_after + m.super_after + m.open_after + 3) in
      let left : poller_max_time - suc m.load_after
          ≡ m.super_after + suc (m.open_after + suc rounds) =
        omega (arith, m.in_time) in
      generic_poller-answered callbacks m.load_after answers (load_blobstore garbage).0 bs_load
        (answer 0 m.ignored) (omega (arith, m.in_time)) refl m.loads
      ∙ ap
          (λ (n : ℕ).
            poll_loop callbacks n (suc m.load_after) answers
              (record { context = loaded garbage; pending = some bs_get_super }))
          left
      ∙ super_answered rounds
