-- ===== src/Fio/Tests.antt =====
-- Requests and openings of the engine of blobop_fio_plugin/fs_fio_plugin.c, on a blobstore in
-- memory.
use spdk_blob_top_fs.File.Ram.{blank_persist}
use native.Mathlib.Nat.{dvd_of_mod-eq-zero}
use spdk_blob_top_fs.Prelude.{
  Bool, ℕ, ◌%◌, ◌≡◌, refl, true, false, ltb, arith, none, some, List, [], ◌∷◌,
}
use spdk_blob_top_fs.Fd.Count.{in_use}
use spdk_blob_top_fs.Dir.{Dirent}
use spdk_blob_top_fs.File.{Blobstore}
use spdk_blob_top_fs.File.Ram.{ram, ram_disk}
use spdk_blob_top_fs.Monopoly.{Sys}
use spdk_blob_top_fs.Monopoly.Sound.{IsSound}
use spdk_blob_top_fs.Fio.{
  Ddir, ddir_read, ddir_write, ddir_trim, ddir_sync, FioFile, IoU, Memory, spdk_open_file,
}
use spdk_blob_top_fs.Fio.Queue.{IsEmptyFile, IsSmall, serve}
use spdk_blob_top_fs.Fio.Requests.{Served, AllReadNothing, serve_all, serve_all-AllReadNothing}
use spdk_blob_top_fs.Fio.Start.{IsStartRead, serve-IsStartRead}
use spdk_blob_top_fs.Fio.Opens.{Fails, IsOpened, open_file-IsOpened}

abbrev store : Blobstore
store = ram 4096 8192

abbrev blob : store.Blob
blob = record { clusters = 1; bytes = λ j. j % 256; attribute = none }

abbrev blank : ℕ → Dirent
blank i = record { name = λ j. 0; id = 0 }

-- Descriptors 0 to 2 are open, on files of a size.
abbrev sys_of : ℕ → Sys store
sys_of size = record {
  fds = record {
    file_count = 3;
    used = λ j. ltb j 3;
    open_files =
        λ j. record { blob = blob; persist = record blank_persist { f_size = size }; f_pos = 0 };
  };
  workdir = record {
    initialized = true;
    dirty = false;
    d_dirent_count = 0;
    d_size = 0;
    dirents = blank;
  };
}

-- Reads and writes.
abbrev ddir_rw : Ddir → Bool
ddir_rw ddir_read = true
ddir_rw ddir_write = true
ddir_rw ddir_trim = false
ddir_rw ddir_sync = false

abbrev job_file : FioFile
job_file = record { fd = some 1; engine_pos = 0; real_file_size = 0; size_known = false }

abbrev request : Ddir → IoU
request ddir = record {
  ddir = ddir;
  offset = 8192;
  xfer_buflen = 4096;
  xfer_buf = λ j. 1;
  resid = 0;
  error = 0;
}

abbrev memory : Memory store
memory = record { tracked = true; buf_size = 0x10000; shared = λ j. 0; errno = 0 }

request-IsSmall : (ddir : Ddir) → IsSmall memory (request ddir)
request-IsSmall ddir = record {
  some_buf = omega arith;
  sectors = dvd_of_mod-eq-zero 512 refl;
  some_bytes = omega arith;
  fits = omega arith;
  int = omega arith;
}

sys_empty : IsEmptyFile (sys_of 0) job_file
sys_empty = record { fd = 1; is_open = refl; empty = refl }

abbrev write_and_read : List (Memory store × IoU)
write_and_read = (memory, request ddir_write) ∷ (memory, request ddir_read) ∷ []

serve_all-AllReadNothing_example :
    (served : Served) × (sys' : Sys store) × (serve_all ddir_rw
        (λ io_u. true)
        (λ io_u. io_u)
        write_and_read
        (sys_of 0)
        job_file
        []
      ≡ some (served, sys'))
    × AllReadNothing served
serve_all-AllReadNothing_example =
    serve_all-AllReadNothing ddir_rw (λ io_u. true) (λ io_u. io_u) (omega arith)
      (dvd_of_mod-eq-zero 512 refl) write_and_read (sys_of 0) job_file []
      (refl, request-IsSmall ddir_write, (refl, request-IsSmall ddir_read, tt)) sys_empty

serve-IsStartRead_example : IsStartRead (ram_disk 4096 8192) blob job_file (request ddir_read) [] (
    serve ddir_rw
      (λ io_u. true)
      (λ io_u. io_u)
      memory
      (sys_of 8192)
      job_file
      (request ddir_read)
      [])
serve-IsStartRead_example =
    serve-IsStartRead (ram_disk 4096 8192) ddir_rw (λ io_u. true) (λ io_u. io_u) memory
      (sys_of 8192) job_file (request ddir_read) [] 1 (omega arith) (dvd_of_mod-eq-zero 512 refl)
      (omega arith) (dvd_of_mod-eq-zero 4096 refl) refl refl refl refl
      (dvd_of_mod-eq-zero 4096 refl) (omega arith) (omega arith) refl refl (omega arith)
      (omega arith)

sys_0-IsSound : IsSound (sys_of 0)
unfolding in_use
sys_0-IsSound = record {
  fds = record { counted = refl };
  room = record { units = 0; size = refl; enough = omega arith };
}

open_file-IsOpened_example : IsOpened (Fails store (λ id. blob) true) (
    spdk_open_file store blank blank
      (λ id. blob)
      (sys_of 0)
      job_file
      (b'a' ∷ [])
      blob
      blank_persist
      99)
open_file-IsOpened_example =
    open_file-IsOpened blank blank (λ id. blob) (sys_of 0) job_file (b'a' ∷ []) blob blank_persist
      99 (omega arith) sys_0-IsSound
