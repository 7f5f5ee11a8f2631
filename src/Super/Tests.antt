-- ===== src/Super/Tests.antt =====
-- Starts and a stop of simple_fs/super.c, on a store in memory.
use spdk_blob_top_fs.Prelude.{
  if◌then◌else◌, not, ℕ, ◌+◌, ◌≡◌, refl, ap, Bool, true, false, Option, none, some, arith,
}
use spdk_blob_top_fs.Prelude.Map.{KeyTable}
use spdk_blob_top_fs.Radix.Table.{radix_table}
use spdk_blob_top_fs.Dir.{Dirent}
use spdk_blob_top_fs.DirIo.{DirPersist, DirStore}
use spdk_blob_top_fs.DirIo.Kept.{DirDisk}
use spdk_blob_top_fs.Mm.{Mm, boot}
use spdk_blob_top_fs.Mount
use spdk_blob_top_fs.Mount.{load_blobstore, bs_load}
use spdk_blob_top_fs.Mount.Settled.{answer}
use spdk_blob_top_fs.Mount.Answered.{mount, IsMounting}
use spdk_blob_top_fs.Poller.{Thread, Answers, flag_callbacks}
use spdk_blob_top_fs.Poller.Waits.{generic_poller-waits, generic_poller-answered}
use spdk_blob_top_fs.Super.{
  exit, exited, spdk_app_json_load_done, spdk_init, ready, System, unset, started,
  load_simple_spdk_fs, unload_simple_spdk_fs,
}
use spdk_blob_top_fs.Super.Mounted.{IsMounted, load-unset, load-started}
use spdk_blob_top_fs.Super.Restart.{IsKept, load-unload}

record Ram : Type 0 where
  clusters : ℕ
  entries : ℕ → Dirent
  attribute : Option DirPersist

abbrev store : DirStore
store = record {
  Blob = Ram;
  io_unit = 4096;
  cluster_size = 8192;
  num_clusters = λ b. b.clusters;
  read = λ b n. (true, b.entries);
  write = λ b n e. (true, record b { entries = e });
  resize = λ b n. (true, record b { clusters = n });
  get_xattr = λ b. b.attribute;
  set_xattr = λ b p. record b { attribute = some p };
}

abbrev disk : DirDisk store
disk = record {
  read_write = λ b n e i fits inside. refl;
  write_clusters = λ b n e. refl;
  resize_clusters = λ b n. refl;
  get_set_xattr = λ b p. refl;
  read_set_xattr = λ b p n. refl;
  xattr_clusters = λ b p. refl;
}

abbrev T : KeyTable ℕ
T = radix_table ℕ

abbrev mm : Mm T
mm = boot T

abbrev blank : ℕ → Dirent
blank i = record { name = λ j. 0; id = 0 }

abbrev unused : store.Blob
unused = record { clusters = 0; entries = blank; attribute = none }

abbrev sys : System store T
sys = record {
  super_blob = unused;
  workdir = record {
    initialized = true;
    dirty = true;
    d_dirent_count = 2;
    d_size = 12288;
    dirents = λ i. record { name = λ j. 0; id = i + 5 };
  };
  mm = mm;
  buf_size = 0x10000;
}

abbrev kept_blob : store.Blob
kept_blob = (unload_simple_spdk_fs store T sys (λ n. none) (λ n. none)).super_blob

-- The configuration is read at once, and then there is a device.
abbrev told : Answers (flag_callbacks spdk_app_json_load_done)
told n = some 0

abbrev device : Bool → Bool
device loaded = loaded

inited : spdk_init false told device ≡ ready
unfolding spdk_init spdk_app_json_load_done
inited =
    ap
      (λ (r : Bool × Thread (flag_callbacks spdk_app_json_load_done)).
        (if not r.0 then exit 255 else ready))
      (generic_poller-answered (flag_callbacks spdk_app_json_load_done) 0 told false tt 0
        (omega arith) refl (record { silent = λ m lt. absurd (omega arith); answer = refl }))

-- Nothing is ever answered.
abbrev silent : Answers Mount.callbacks
silent n = none

silent_late : (mount 0 silent).0 ≡ false
unfolding load_blobstore
silent_late =
    ap (λ (r : Bool × Thread Mount.callbacks). r.0)
      (generic_poller-waits Mount.callbacks silent
        (record { context = (load_blobstore 0).0; pending = some bs_load }) refl (λ m lt. refl))

load-unset_example :
    load_simple_spdk_fs store T (λ id. kept_blob) blank mm 0 false told device false silent
    ≡ (if false then exited 255 else unset)
load-unset_example =
    load-unset store T (λ id. kept_blob) blank mm 0 false told device false silent inited
      silent_late

-- The three answers of a mount, at once.
abbrev prompt : Answers Mount.callbacks
prompt n = some (answer 0 7)

prompt-IsMounting : IsMounting 7 prompt
prompt-IsMounting = record {
  load_after = 0;
  super_after = 0;
  open_after = 0;
  ignored = 7;
  in_time = omega arith;
  loads = record { silent = λ m lt. absurd (omega arith); answer = refl };
  finds = record { silent = λ m lt. absurd (omega arith); answer = refl };
  opens = record { silent = λ m lt. absurd (omega arith); answer = refl };
}

restarted :
    (sys' : System store T) × (load_simple_spdk_fs store T
        (λ id. kept_blob)
        blank
        mm
        0
        false
        told
        device
        false
        prompt
      ≡ started sys')
    × IsKept sys.workdir sys'.workdir
restarted =
    load-unload store T (λ id. kept_blob) blank disk (omega arith) (omega arith) sys mm (λ n. none)
      (λ n. none) 0 7 false told device prompt
      (record { units = 3; size = refl; enough = omega arith }) refl (omega arith) (omega arith)
      refl inited prompt-IsMounting

load-unload_example :
    (sys' : System store T) × (load_simple_spdk_fs store T
        (λ id. kept_blob)
        blank
        mm
        0
        false
        told
        device
        false
        prompt
      ≡ started sys')
    × IsKept sys.workdir sys'.workdir
load-unload_example =
    load-unload store T (λ id. kept_blob) blank disk (omega arith) (omega arith) sys mm (λ n. none)
      (λ n. none) 0 7 false told device prompt
      (record { units = 3; size = refl; enough = omega arith }) refl (omega arith) (omega arith)
      refl inited prompt-IsMounting

load-started_example :
    (spdk_init false told device ≡ ready)
    × (false ≡ false)
    × IsMounted store T (λ id. kept_blob) blank mm 0 prompt restarted.0
load-started_example =
    load-started store T (λ id. kept_blob) blank mm 0 false told device false prompt restarted.0
      restarted.1
