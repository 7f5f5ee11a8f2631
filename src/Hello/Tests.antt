-- ===== src/Hello/Tests.antt =====
-- A request to the engine of hello_spin_reactor.c, on a blobstore in memory.
use spdk_blob_top_fs.File.Ram.{blank_persist}
use spdk_blob_top_fs.Prelude.{Bool, ◌≡◌, refl, true, false, none, some, []}
use spdk_blob_top_fs.File.{Blobstore}
use spdk_blob_top_fs.File.Ram.{ram}
use spdk_blob_top_fs.Monopoly.{Sys}
use spdk_blob_top_fs.Fio.{
  Ddir, ddir_read, ddir_write, ddir_trim, ddir_sync, FioFile, IoU, Memory, fio_spdk_syncio_queue,
}
use spdk_blob_top_fs.Interface.Transfer.{by_us}
use spdk_blob_top_fs.Hello.{hello_queue}
use spdk_blob_top_fs.Hello.Same.{raised, raised_end, hello_queue-same}

abbrev store : Blobstore
store = ram 4096 8192

abbrev sys : Sys store
sys = record {
  fds = record {
    file_count = 1;
    used = λ j. true;
    open_files = λ j. record {
      blob = record { clusters = 1; bytes = λ k. 0; attribute = none };
      persist = blank_persist;
      f_pos = 0;
    };
  };
  workdir = record {
    initialized = true;
    dirty = false;
    d_dirent_count = 0;
    d_size = 0;
    dirents = λ i. record { name = λ j. 0; id = 0 };
  };
}

-- Reads and writes.
abbrev ddir_rw : Ddir → Bool
ddir_rw ddir_read = true
ddir_rw ddir_write = true
ddir_rw ddir_trim = false
ddir_rw ddir_sync = false

abbrev job_file : FioFile
job_file = record { fd = some 0; engine_pos = 0; real_file_size = 0; size_known = false }

abbrev request : IoU
request = record {
  ddir = ddir_write;
  offset = 0;
  xfer_buflen = 4096;
  xfer_buf = λ j. 1;
  resid = 0;
  error = 0;
}

abbrev memory : Memory store
memory = record { tracked = true; buf_size = 0x10000; shared = λ j. 0; errno = 0 }

hello_queue-same_example :
    hello_queue store ddir_rw
      (λ io_u. true)
      (λ io_u. io_u)
      memory
      sys
      (raised job_file 0)
      request
      []
    ≡ by_us (
        raised_end 0 (
          fio_spdk_syncio_queue store ddir_rw
            (λ io_u. true)
            (λ io_u. io_u)
            memory
            sys
            job_file
            request
            []))
hello_queue-same_example =
    hello_queue-same ddir_rw (λ io_u. true) (λ io_u. io_u) memory sys job_file 0 refl request []
