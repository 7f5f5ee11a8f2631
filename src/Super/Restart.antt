-- ===== src/Super/Restart.antt =====
-- A stop and the next start of simple_fs/super.c.
use spdk_blob_top_fs.Prelude.{ℕ, ◌^◌, ◌≤◌, ◌<◌, ◌≡◌, Bool, sym, ap, ◌∙◌, true, false, some, List}
use spdk_blob_top_fs.Prelude.Map.{KeyTable}
use spdk_blob_top_fs.Dir.{Dirent, Dir, spdkfs_dir_lookup}
use spdk_blob_top_fs.Dir.Room.{HasRoom}
use spdk_blob_top_fs.Dir.View.{view, find_name, lookup-view}
use spdk_blob_top_fs.DirIo.{DirStore, load_root}
use spdk_blob_top_fs.DirIo.Kept.{DirDisk, load-close}
use spdk_blob_top_fs.Mm.{Mm}
use spdk_blob_top_fs.Mount
use spdk_blob_top_fs.Mount.{
  Context, Request, complete, init_spdk_filesystem, load_blobstore, bs_load, bs_get_super,
  bs_open_blob,
}
use spdk_blob_top_fs.Mount.Answered.{IsMounting, mount-IsMounting}
use spdk_blob_top_fs.Poller.{Answers, flag_callbacks}
use spdk_blob_top_fs.Super.{
  spdk_app_json_load_done, spdk_init, load_ready, ready, System, started, start_with, load_mounted,
  load_simple_spdk_fs, unload_simple_spdk_fs, unload_complete_cb, stop_subsystem_complete_cb,
}

-- The directory after a restart: the same entries, found under the same names at the same places.
pub record IsKept (dir dir' : Dir) : Type 0 where
  pub same_view : view dir' ≡ view dir
  pub same_lookup : (name : List ℕ) → spdkfs_dir_lookup dir' name ≡ spdkfs_dir_lookup dir name
  pub same_size : dir'.d_size ≡ dir.d_size
  pub clean : dir'.dirty ≡ false

same_view-IsKept :
    (dir dir' : Dir)
    → view dir' ≡ view dir
    → dir'.d_size ≡ dir.d_size
    → dir'.dirty ≡ false
    → IsKept dir dir'
same_view-IsKept dir dir' v size clean = record {
  same_view = v;
  same_lookup =
      λ name. lookup-view dir' name ∙ ap (find_name 0 name) v ∙ sym (lookup-view dir name);
  same_size = size;
  clean = clean;
}

module _ (S : DirStore) (T : KeyTable ℕ) (blob_of : ℕ → S.Blob) (stale : ℕ → Dirent) where
  load-mounting :
      (mm : Mm T) (garbage id : ℕ) (answers : Answers Mount.callbacks)
      → IsMounting id answers
      → load_ready S T blob_of stale mm false garbage answers ready
        ≡ start_with S T (blob_of id) mm (load_root S (blob_of id) stale)
  unfolding load_mounted init_spdk_filesystem
  load-mounting mm garbage id answers m =
      ap (λ r. load_mounted S T blob_of stale mm r.1.context)
        (mount-IsMounting garbage id answers m)

  -- On a store that reads what was written within the clusters and resizes blobs, with an io unit
  -- of at least 520 bytes and a cluster size above 0: after a stop with a dirty working directory
  -- that has an entry, room for its entries and a buffer below 2^64 bytes, a start in which
  -- `spdk_init` returns, the device opens and SPDK answers to the mount in time with that super
  -- blob succeeds, and the working directory has the same entries, finds each name at the same
  -- position, has a buffer of the same size, and is not dirty.
  pub load-unload :
      DirDisk S
      → 520 ≤ S.io_unit
      → 0 < S.cluster_size
      → (sys : System S T) (mm : Mm T) (unload : Answers (flag_callbacks unload_complete_cb))
        (stop : Answers (flag_callbacks stop_subsystem_complete_cb)) (garbage id : ℕ)
        (env_fails : Bool) (config : Answers (flag_callbacks spdk_app_json_load_done))
        (bdev_first : Bool → Bool) (answers : Answers Mount.callbacks)
      → HasRoom S.io_unit sys.workdir
      → sys.workdir.dirty ≡ true
      → 0 < sys.workdir.d_dirent_count
      → sys.workdir.d_size < 2 ^ 64
      → blob_of id ≡ (unload_simple_spdk_fs S T sys unload stop).super_blob
      → spdk_init env_fails config bdev_first ≡ ready
      → IsMounting id answers
      → (sys' : System S T) × (load_simple_spdk_fs S T blob_of stale mm garbage env_fails config
            bdev_first false answers
          ≡ started sys')
        × IsKept sys.workdir sys'.workdir
  unfolding load_simple_spdk_fs unload_simple_spdk_fs
  load-unload disk large pos sys mm unload stop garbage id env_fails config bdev_first answers room
        dirty filled small kept inited m =
      let (dir, loads, same, size, clean) =
        load-close disk large pos sys.super_blob sys.workdir stale room dirty filled small in
      let root : load_root S (blob_of id) stale ≡ some dir =
        ap (λ b. load_root S b stale) kept ∙ loads in
      (
        _,
        ap (load_ready S T blob_of stale mm false garbage answers) inited
            ∙ load-mounting mm garbage id answers m
            ∙ ap (start_with S T (blob_of id) mm) root,
        same_view-IsKept sys.workdir dir same size clean,
      )
