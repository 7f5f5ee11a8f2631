-- ===== src/Monopoly/Empty.antt =====
-- An empty system on a blobstore in memory, for the examples.
use spdk_blob_top_fs.File.Ram.{blank_persist}
use spdk_blob_top_fs.Prelude.{ℕ, refl, true, false, none}
use spdk_blob_top_fs.Fd.Count.{IsValid, in_use}
use spdk_blob_top_fs.Dir.{Dirent}
use spdk_blob_top_fs.File.{Blobstore}
use spdk_blob_top_fs.File.Ram.{ram}
use spdk_blob_top_fs.Monopoly.{Sys}

abbrev pub store : Blobstore
store = ram 4096 8192

abbrev pub empty_blob : store.Blob
empty_blob = record { clusters = 0; bytes = λ j. 0; attribute = none }

abbrev pub blank : ℕ → Dirent
blank i = record { name = λ j. 0; id = 0 }

-- No file is open, and there is none.
abbrev pub empty_sys : Sys store
empty_sys = record {
  fds = record {
    file_count = 0;
    used = λ j. false;
    open_files = λ j. record { blob = empty_blob; persist = blank_persist; f_pos = 0 };
  };
  workdir = record {
    initialized = true;
    dirty = false;
    d_dirent_count = 0;
    d_size = 0;
    dirents = blank;
  };
}

pub empty_sys-IsValid : IsValid empty_sys.fds
unfolding in_use
empty_sys-IsValid = record { counted = refl }
