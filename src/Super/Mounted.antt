-- ===== src/Super/Mounted.antt =====
-- The start of simple_fs/super.c and the mount: `load_simple_spdk_fs` looks at no error.
use spdk_blob_top_fs.Prelude.{
  refl, ℕ, ◌≡◌, ◌≢◌, sym, ap, ◌∙◌, Bool, true, false, not, Option, none, some, arith, if◌then◌else◌,
  Bool-cases, Option-cases, inl, inr, [], ◌∷◌,
}
use spdk_blob_top_fs.Prelude.Map.{KeyTable}
use spdk_blob_top_fs.Dir.{Dirent, Dir}
use spdk_blob_top_fs.DirIo.{DirStore, load_root}
use spdk_blob_top_fs.Mm.{Mm, spdkfs_mm_init}
use spdk_blob_top_fs.Mount
use spdk_blob_top_fs.Mount.{
  Request, init_spdk_filesystem, load_blobstore, bs_load, bs_init, bs_get_super, bs_create_blob,
  bs_set_super, bs_open_blob,
}
use spdk_blob_top_fs.Mount.Answered.{mount}
use spdk_blob_top_fs.Mount.Outcome.{
  History, Reachable, start, answered, Reachable-IsSound, sound_no_super,
}
use spdk_blob_top_fs.Poller.{Thread, Answers, flag_callbacks}
use spdk_blob_top_fs.Poller.Keeps.{generic_poller-keeps, generic_poller-done}
use spdk_blob_top_fs.Super.{
  Init, exit, exited, spdk_app_json_load_done, spdk_init, load_ready, ready, System, Started, unset,
  started, start_with, load_super, load_mounted, load_simple_spdk_fs,
}

mount-no_super :
    (garbage : ℕ) (answers : Answers Mount.callbacks)
    → (mount garbage answers).0 ≡ false
    → (mount garbage answers).1.context.super_blob ≡ none
mount-no_super garbage answers late =
    let first = load_blobstore garbage in
    let thread : Thread Mount.callbacks = record { context = first.0; pending = first.1 } in
    let r = (mount garbage answers).1 in
    let (history, reached) =
      generic_poller-keeps Mount.callbacks
        (λ ctx pending. (history : History) × Reachable garbage history ctx pending)
        (λ ctx request reply (history, reached).
          ((request, reply) ∷ history, answered history ctx request reply reached))
        answers thread ([], start) in
    sound_no_super r.context r.pending
      (Reachable-IsSound garbage history r.context r.pending reached).0
      (sym (generic_poller-done Mount.callbacks answers thread) ∙ late)

module _ (S : DirStore) (T : KeyTable ℕ) (blob_of : ℕ → S.Blob) (stale : ℕ → Dirent) where
  mounted-none :
      (mm : Mm T) (ctx : Mount.Context)
      → ctx.super_blob ≡ none
      → load_mounted S T blob_of stale mm ctx ≡ unset
  unfolding load_mounted
  mounted-none mm ctx e = elim (Bool-cases ctx.has_bs) [
    | inl bs ↦
        ap (λ (b : Bool). if not b then unset else load_super S T blob_of stale mm ctx.super_blob)
          bs
        ∙ ap (load_super S T blob_of stale mm) e
    | inr no_bs ↦
        ap (λ (b : Bool). if not b then unset else load_super S T blob_of stale mm ctx.super_blob)
          no_bs
  ]

  late-unset :
      (mm : Mm T) (garbage : ℕ) (answers : Answers Mount.callbacks)
      → (mount garbage answers).0 ≡ false
      → load_ready S T blob_of stale mm false garbage answers ready ≡ unset
  unfolding init_spdk_filesystem
  late-unset mm garbage answers late =
      mounted-none mm (mount garbage answers).1.context (mount-no_super garbage answers late)

  late_start :
      (mm : Mm T) (bdev_fails : Bool) (garbage : ℕ) (answers : Answers Mount.callbacks)
      → (mount garbage answers).0 ≡ false
      → load_ready S T blob_of stale mm bdev_fails garbage answers ready
        ≡ (if bdev_fails then exited 255 else unset)
  unfolding init_spdk_filesystem
  late_start mm true garbage answers late = refl
  late_start mm false garbage answers late = late-unset mm garbage answers late

  -- Where `spdk_init` returns, and a mount on an open device would not tell its caller within the
  -- time of the poller that it is done: `load_simple_spdk_fs` ends the program with status 255 if
  -- SPDK does not open the device, and otherwise goes on and uses a field that nothing has set,
  -- since it does not look at the result of the poller.
  pub load-unset :
      (mm : Mm T) (garbage : ℕ) (env_fails : Bool)
      (config : Answers (flag_callbacks spdk_app_json_load_done)) (bdev_first : Bool → Bool)
      (bdev_fails : Bool) (answers : Answers Mount.callbacks)
      → spdk_init env_fails config bdev_first ≡ ready
      → (mount garbage answers).0 ≡ false
      → load_simple_spdk_fs S T blob_of stale mm garbage env_fails config bdev_first bdev_fails
          answers
        ≡ (if bdev_fails then exited 255 else unset)
  unfolding load_simple_spdk_fs
  load-unset mm garbage env_fails config bdev_first bdev_fails answers inited late =
      ap (load_ready S T blob_of stale mm bdev_fails garbage answers) inited
      ∙ late_start mm bdev_fails garbage answers late

  -- The system that a start gives.
  pub record IsMounted (mm : Mm T) (garbage : ℕ) (answers : Answers Mount.callbacks)
      (sys : System S T) : Type 0 where
    pub told : (mount garbage answers).0 ≡ true
    pub id : ℕ
    pub opened : (mount garbage answers).1.context.super_blob ≡ some id
    pub blob : sys.super_blob ≡ blob_of id
    pub root : load_root S (blob_of id) stale ≡ some sys.workdir
    pub inited : sys.mm.initialized ≡ true

  unset≢started : {sys : System S T} → (let r : Started S T = unset in r) ≢ started sys
  unset≢started e = cc

  mounted-some :
      (mm : Mm T) (ctx : Mount.Context) (id : ℕ) (sys : System S T)
      → ctx.super_blob ≡ some id
      → load_mounted S T blob_of stale mm ctx ≡ started sys
      → start_with S T (blob_of id) mm (load_root S (blob_of id) stale) ≡ started sys
  unfolding load_mounted
  mounted-some mm ctx id sys there e =
      let load =
        λ (b : Bool) (o : Option ℕ). if not b then unset else load_super S T blob_of stale mm o in
      elim (Bool-cases ctx.has_bs) [
        | inl bs ↦ sym (ap (λ (b : Bool). load b ctx.super_blob) bs ∙ ap (load true) there) ∙ e
        | inr no_bs ↦
            absurd (unset≢started (sym (ap (λ (b : Bool). load b ctx.super_blob) no_bs) ∙ e))
      ]

  started_with :
      (mm : Mm T) (blob : S.Blob) (root : Option Dir) (sys : System S T)
      → start_with S T blob mm root ≡ started sys
      → (sys.super_blob ≡ blob) × (root ≡ some sys.workdir) × (sys.mm.initialized ≡ true)
  unfolding spdkfs_mm_init
  started_with mm blob none sys e = cc
  started_with mm blob (some root) sys e = ground arith

  ready-started :
      (mm : Mm T) (garbage : ℕ) (answers : Answers Mount.callbacks) (sys : System S T)
      → load_ready S T blob_of stale mm false garbage answers ready ≡ started sys
      → IsMounted mm garbage answers sys
  unfolding load_mounted init_spdk_filesystem
  ready-started mm garbage answers sys e =
      let ctx = (mount garbage answers).1.context in
      let told : (mount garbage answers).0 ≡ true = elim (Bool-cases (mount garbage answers).0) [
        | inl yes_told ↦ yes_told
        | inr late ↦ absurd (unset≢started (sym (late-unset mm garbage answers late) ∙ e))
      ] in
      elim (Option-cases ctx.super_blob) [
        | inl missing ↦ absurd (unset≢started (sym (mounted-none mm ctx missing) ∙ e))
        | inr (id, there) ↦
            let (blob, root, inited) =
              started_with mm (blob_of id) _ sys (mounted-some mm ctx id sys there e) in
            record {
              told = told;
              id = id;
              opened = there;
              blob = blob;
              root = root;
              inited = inited;
            }
      ]

  init-started :
      (mm : Mm T) (bdev_fails : Bool) (garbage : ℕ) (answers : Answers Mount.callbacks)
      (sys : System S T) (init : Init)
      → load_ready S T blob_of stale mm bdev_fails garbage answers init ≡ started sys
      → (init ≡ ready) × (bdev_fails ≡ false) × IsMounted mm garbage answers sys
  unfolding init_spdk_filesystem
  init-started mm true garbage answers sys ready e = cc
  init-started mm false garbage answers sys ready e =
      (refl, refl, ready-started mm garbage answers sys e)
  init-started mm bdev_fails garbage answers sys (exit status) e = cc

  -- Where `load_simple_spdk_fs` starts the file system: `spdk_init` returned, SPDK opened the
  -- device, the mount told its caller that it is done, the super blob is the one that the mount
  -- opened, the working directory is the root that is loaded from it, and the memory manager is
  -- initialised.
  pub load-started :
      (mm : Mm T) (garbage : ℕ) (env_fails : Bool)
      (config : Answers (flag_callbacks spdk_app_json_load_done)) (bdev_first : Bool → Bool)
      (bdev_fails : Bool) (answers : Answers Mount.callbacks) (sys : System S T)
      → load_simple_spdk_fs S T blob_of stale mm garbage env_fails config bdev_first bdev_fails
          answers
        ≡ started sys
      → (spdk_init env_fails config bdev_first ≡ ready)
        × (bdev_fails ≡ false)
        × IsMounted mm garbage answers sys
  unfolding load_simple_spdk_fs
  load-started mm garbage env_fails config bdev_first bdev_fails answers sys e =
      init-started mm bdev_fails garbage answers sys (spdk_init env_fails config bdev_first) e
