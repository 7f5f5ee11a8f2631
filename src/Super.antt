-- ===== src/Super.antt =====
-- The start and the stop of the file system in simple_fs/super.c: `load_simple_spdk_fs`, which runs
-- before the program, and `unload_simple_spdk_fs`, which runs after it. What SPDK answers is an
-- argument.
pub mod Mounted
pub mod Restart
mod Tests
use spdk_blob_top_fs.Prelude.{ℕ, Bool, true, false, not, Option, none, some, List, if◌then◌else◌}
use spdk_blob_top_fs.Prelude.Map.{KeyTable}
use spdk_blob_top_fs.Dir.{Dirent, Dir}
use spdk_blob_top_fs.DirIo.{DirStore, load_root, simple_dir_close}
use spdk_blob_top_fs.Mm.{Call, Mm, spdkfs_mm_init, spdkfs_mm_free}
use spdk_blob_top_fs.Mount
use spdk_blob_top_fs.Mount.{init_spdk_filesystem}
use spdk_blob_top_fs.Poller.{Callbacks, Thread, Answers, flag_callbacks, generic_poller}

-- The callbacks that set a flag, whatever error number they are told.
pub spdk_app_json_load_done : (done : Bool) → (rc : ℕ) → Bool
spdk_app_json_load_done done rc = true

pub unload_complete_cb : (done : Bool) → (bserrno : ℕ) → Bool
unload_complete_cb done bserrno = true

-- `stop_subsystem_complete_cb` is told none.
pub stop_subsystem_complete_cb : (done : Bool) → (ignored : ℕ) → Bool
stop_subsystem_complete_cb done ignored = true

abbrev poll_flag : (callback : Bool → ℕ → Bool) → Answers (flag_callbacks callback) → Bool
poll_flag callback answers =
    (generic_poller (flag_callbacks callback) answers
      (record { context = false; pending = some tt })).0

-- `spdk_init` returns, or ends the program.
pub data Init : Type 0 where
  ready : Init
  exit : (status : ℕ) → Init

-- `spdk_env_init` fails or not, and there is a device once the configuration was polled for. The
-- status -1 is 255.
pub spdk_init :
    (env_fails : Bool)
    → Answers (flag_callbacks spdk_app_json_load_done)
    → (bdev_first : Bool → Bool) → Init
unfolding spdk_app_json_load_done
spdk_init env_fails answers bdev_first =
    if env_fails
    then exit 1
    else if not (bdev_first (poll_flag spdk_app_json_load_done answers))
    then exit 255
    else ready

module _ (S : DirStore) (T : KeyTable ℕ) where
  -- `g_filesystem` and `g_workdir`, once the program runs.
  pub record System : Type 0 where
    pub super_blob : S.Blob
    pub workdir : Dir
    pub mm : Mm T
    pub buf_size : ℕ

  -- How the start ends. `unset` is the use of a field that nothing has set, `aborted` the `assert`
  -- on the attribute of the root.
  pub data Started : Type 0 where
    exited : (status : ℕ) → Started
    unset : Started
    aborted : Started
    started : System → Started

  -- After `load_root`: the memory manager, and the buffer of the file system.
  abbrev pub start_with : S.Blob → Mm T → Option Dir → Started
  start_with blob mm none = aborted
  start_with blob mm (some root) = started (record {
    super_blob = blob;
    workdir = root;
    mm = (spdkfs_mm_init T mm).1;
    buf_size = 0x10000;
  })

  -- The blob of an id, as SPDK opens it, and what fresh memory holds.
  module _ (blob_of : ℕ → S.Blob) (stale : ℕ → Dirent) where
    abbrev pub load_super : Mm T → Option ℕ → Started
    load_super mm none = unset
    load_super mm (some id) = start_with (blob_of id) mm (load_root S (blob_of id) stale)

    -- After the mount, of which only the fields are looked at: first that of the blobstore, by
    -- `spdk_blob_stat`.
    pub load_mounted : Mm T → Mount.Context → Started
    load_mounted mm ctx = if not ctx.has_bs then unset else load_super mm ctx.super_blob

    -- From `init_spdk_filesystem` on, which the poller runs first.
    abbrev pub load_from : Mm T → Answers Mount.callbacks → Option Mount.Next → Started
    load_from mm answers none = exited 255
    load_from mm answers (some start) =
        load_mounted mm
          (generic_poller Mount.callbacks answers
            (record { context = start.0; pending = start.1 })).1.context

    abbrev pub load_ready :
        Mm T → (bdev_fails : Bool) (garbage : ℕ) → Answers Mount.callbacks → Init → Started
    load_ready mm bdev_fails garbage answers (exit status) = exited status
    load_ready mm bdev_fails garbage answers ready =
        load_from mm answers (init_spdk_filesystem bdev_fails garbage)

    pub load_simple_spdk_fs :
        Mm T
        → (garbage : ℕ) → (env_fails : Bool) → Answers (flag_callbacks spdk_app_json_load_done)
        → (bdev_first : Bool → Bool) → (bdev_fails : Bool) → Answers Mount.callbacks
        → Started
    unfolding load_mounted spdk_init
    load_simple_spdk_fs mm garbage env_fails config bdev_first bdev_fails answers =
        load_ready mm bdev_fails garbage answers (spdk_init env_fails config bdev_first)

  -- What the stop leaves: what the super blob was closed with, the calls that give memory back,
  -- and whether SPDK answered to the unload and to the stop in time, which is not looked at.
  pub record Stopped : Type 0 where
    pub super_blob : S.Blob
    pub calls : List Call
    pub unloaded : Bool
    pub stopped : Bool

  pub unload_simple_spdk_fs :
      System
      → Answers (flag_callbacks unload_complete_cb)
      → Answers (flag_callbacks stop_subsystem_complete_cb)
      → Stopped
  unload_simple_spdk_fs sys unload stop = record {
    super_blob = simple_dir_close S sys.super_blob sys.workdir;
    calls = (spdkfs_mm_free T sys.mm).0;
    unloaded = poll_flag unload_complete_cb unload;
    stopped = poll_flag stop_subsystem_complete_cb stop;
  }
