-- ===== src/Fio/Queue.antt =====
-- Requests that fio hands to the engine of blobop_fio_plugin/fs_fio_plugin.c: each is prepared and
-- then queued.
use Prim.Native.Nat.{◌∣◌}
use spdk_blob_top_fs.Prelude.{
  ℕ, ◌%◌, ◌^◌, ◌≤◌, ◌<◌, ◌≡◌, refl, ap, ◌∙◌, Bool, true, not, Option, none, some, arith, ==_iff,
  if◌then◌else◌,
}
use spdk_blob_top_fs.File.{Blobstore, OpenFile, monopoly_read, monopoly_write, seek_set}
use spdk_blob_top_fs.File.Fresh.{IsFresh, read-empty, write-empty, lseek-start}
use spdk_blob_top_fs.Monopoly.{Sys, put_file}
use spdk_blob_top_fs.Monopoly.Descriptor.{with_file, read_at, write_at, read_fd, write_fd, lseek_fd}
use spdk_blob_top_fs.Fio.{
  Ddir, ddir_read, ddir_write, ddir_trim, ddir_sync, FioFile, IoU, Errors, Ended, Memory,
  fio_io_end, prep_done, fio_spdk_syncio_prep, fio_spdk_syncio_queue, queue_ddir, queue_done,
}
use spdk_blob_top_fs.Fio.Ends.{fio_io_end-fd, fio_io_end-nothing}

pub put_file_self :
    {F : Type 0} (files : ℕ → F) (fd : ℕ) (file : F) → put_file files fd file fd ≡ file
put_file_self files fd file = rw ((==_iff fd fd).1 refl) refl

-- What a read that finds nothing gives: the whole length is left, no error is set, and the buffer
-- is as it was. Of other requests nothing is said.
abbrev pub ReadsNothing : Ddir → IoU → IoU → Type 0
ReadsNothing ddir_read io_u after =
    (after.resid ≡ io_u.xfer_buflen) × (after.error ≡ 0) × (after.xfer_buf ≡ io_u.xfer_buf)
ReadsNothing ddir_write io_u after = Unit
ReadsNothing ddir_trim io_u after = Unit
ReadsNothing ddir_sync io_u after = Unit

module _ {B : Blobstore} where
  abbrev pub rewound : OpenFile B → OpenFile B
  rewound file = record file { f_pos = 0 }

  prep_lem :
      (sys : Sys B) (f : FioFile) (fd : ℕ)
      → 0 < B.io_unit
      → f.fd ≡ some fd
      → fio_spdk_syncio_prep B sys f ≡ some (with_file B sys fd (rewound (sys.fds.open_files fd)))
  unfolding fio_spdk_syncio_prep lseek_fd
  prep_lem sys f fd pos e =
      ap (λ (o : Option ℕ). prep_done B (lseek_fd B sys o 0 seek_set)) e
      ∙ ap (λ r. some (with_file B sys fd r.1)) (lseek-start (sys.fds.open_files fd) pos)

  -- The file of the job is open, and its recorded size is 0.
  pub record IsEmptyFile (sys : Sys B) (f : FioFile) : Type 0 where
    pub fd : ℕ
    pub is_open : f.fd ≡ some fd
    pub empty : (sys.fds.open_files fd).persist.f_size ≡ 0

  -- A request that fits in the buffer of the file system, which has whole sectors.
  pub record IsSmall (m : Memory B) (io_u : IoU) : Type 0 where
    pub some_buf : 0 < m.buf_size
    pub sectors : 512 ∣ m.buf_size
    pub some_bytes : 0 < io_u.xfer_buflen
    pub fits : io_u.xfer_buflen ≤ m.buf_size
    pub int : io_u.xfer_buflen < 2 ^ 31

  pub record IsServed (ddir : Ddir) (io_u : IoU) (r : Option (Ended × Sys B)) : Type 0 where
    pub f' : FioFile
    pub after : IoU
    pub errors' : Errors
    pub sys' : Sys B
    pub returned : r ≡ some ((f', after, errors'), sys')
    pub empty : IsEmptyFile sys' f'
    pub nothing : ReadsNothing ddir io_u after

  module _ (ddir_rw : Ddir → Bool) (fio_ro_check : IoU → Bool) (do_io_u_trim : IoU → IoU) where
    -- A request is prepared and queued.
    unfoldable pub serve : Memory B → Sys B → FioFile → IoU → Errors → Option (Ended × Sys B)
    serve m sys f io_u errors = elim (fio_spdk_syncio_prep B sys f) [
      | none ↦ none
      | some sys' ↦ fio_spdk_syncio_queue B ddir_rw fio_ro_check do_io_u_trim m sys' f io_u errors
    ]

    -- A request that passes the check, on a file with a descriptor: the file is at its start.
    pub serve_lem :
        0 < B.io_unit
        → (m : Memory B) (sys : Sys B) (f : FioFile) (io_u : IoU) (errors : Errors) (fd : ℕ)
        → f.fd ≡ some fd
        → fio_ro_check io_u ≡ true
        → serve m sys f io_u errors
          ≡ queue_ddir B ddir_rw fio_ro_check do_io_u_trim m
              (with_file B sys fd (rewound (sys.fds.open_files fd)))
              f
              io_u
              errors
              io_u.ddir
    unfolding serve fio_spdk_syncio_queue
    serve_lem pos m sys f io_u errors fd is_open allowed =
        let sys' = with_file B sys fd (rewound (sys.fds.open_files fd)) in
        ap
          (λ r. elim r [
            | none ↦ none
            | some sys' ↦
                fio_spdk_syncio_queue B ddir_rw fio_ro_check do_io_u_trim m sys' f io_u errors
          ])
          (prep_lem sys f fd pos is_open)
        ∙ ap
            (λ (b : Bool).
              if not b
              then none
              else queue_ddir B ddir_rw fio_ro_check do_io_u_trim m sys' f io_u errors io_u.ddir)
            allowed

    module _ (unit_pos : 0 < B.io_unit) (sector : 512 ∣ B.io_unit) (m : Memory B) (sys : Sys B)
        (f : FioFile) (errors : Errors) (fd : ℕ) (is_open : f.fd ≡ some fd) (file : OpenFile B)
        (there : sys.fds.open_files fd ≡ file) (fresh : IsFresh file) where
      ended-IsEmptyFile :
          (io_u : IoU) (ret : ℕ) (sys' : Sys B)
          → (sys'.fds.open_files fd).persist.f_size ≡ 0
          → IsEmptyFile sys' (fio_io_end ddir_rw f io_u errors ret m.errno).0
      ended-IsEmptyFile io_u ret sys' empty = record {
        fd = fd;
        is_open = fio_io_end-fd ddir_rw f io_u errors ret m.errno ∙ is_open;
        empty = empty;
      }

      pub queue_ddir-IsServed :
          (io_u : IoU) (ddir : Ddir)
          → IsSmall m io_u
          → IsServed ddir io_u
              (queue_ddir B ddir_rw fio_ro_check do_io_u_trim m sys f io_u errors ddir)
      unfolding read_fd write_fd
      queue_ddir-IsServed io_u ddir_read small =
          let r = fio_io_end ddir_rw f io_u errors 0 m.errno in
          let sys' = with_file B sys fd file in
          let read : read_fd B m.tracked m.buf_size m.shared io_u.xfer_buf sys f.fd io_u.xfer_buflen
              ≡ some (0, io_u.xfer_buf, sys') =
            ap
              (λ (o : Option ℕ).
                read_fd B m.tracked m.buf_size m.shared io_u.xfer_buf sys o io_u.xfer_buflen)
              is_open
            ∙ ap
                (λ (file : OpenFile B). read_at B sys fd (
                  monopoly_read B m.tracked m.buf_size m.shared io_u.xfer_buf file
                    io_u.xfer_buflen))
                there
            ∙ ap (read_at B sys fd) (
                read-empty m.buf_size m.shared io_u.xfer_buf file io_u.xfer_buflen unit_pos fresh
                  m.tracked sector small.sectors small.some_buf (omega (arith, small.int))) in
          record {
            f' = r.0;
            after = r.1;
            errors' = r.2;
            sys' = sys';
            returned = ap (queue_done B ddir_rw m f io_u errors) read;
            empty = ended-IsEmptyFile io_u 0 sys' (
                ap (λ (file : OpenFile B). file.persist.f_size)
                  (put_file_self sys.fds.open_files fd file)
                ∙ fresh.empty);
            nothing = fio_io_end-nothing ddir_rw f io_u errors m.errno small.some_bytes small.int;
          }
      queue_ddir-IsServed io_u ddir_write small =
          let w =
            monopoly_write B m.tracked m.buf_size m.shared io_u.xfer_buf file io_u.xfer_buflen in
          let ended =
            fio_io_end ddir_rw f (record io_u { xfer_buf = w.1 }) errors (w.0 % 2 ^ 32) m.errno in
          let sys' = with_file B sys fd w.2 in
          let written : write_fd B m.tracked m.buf_size m.shared io_u.xfer_buf sys f.fd
                io_u.xfer_buflen
              ≡ some (w.0, w.1, sys') =
            ap
              (λ (o : Option ℕ).
                write_fd B m.tracked m.buf_size m.shared io_u.xfer_buf sys o io_u.xfer_buflen)
              is_open
            ∙ ap
                (λ (file : OpenFile B). write_at B sys fd (
                  monopoly_write B m.tracked m.buf_size m.shared io_u.xfer_buf file
                    io_u.xfer_buflen))
                there in
          record {
            f' = ended.0;
            after = ended.1;
            errors' = ended.2;
            sys' = sys';
            returned = ap (queue_done B ddir_rw m f io_u errors) written;
            empty =
                ended-IsEmptyFile (record io_u { xfer_buf = w.1 }) (w.0 % 2 ^ 32) sys'
                  (ap (λ (file : OpenFile B). file.persist.f_size)
                      (put_file_self sys.fds.open_files fd w.2)
                    ∙ write-empty m.buf_size m.shared io_u.xfer_buf file io_u.xfer_buflen unit_pos
                        fresh m.tracked small.fits);
            nothing = tt;
          }
      queue_ddir-IsServed io_u ddir_trim small = record {
        f' = f;
        after = do_io_u_trim io_u;
        errors' = errors;
        sys' = sys;
        returned = refl;
        empty = record {
          fd = fd;
          is_open = is_open;
          empty = ap (λ (file : OpenFile B). file.persist.f_size) there ∙ fresh.empty;
        };
        nothing = tt;
      }
      queue_ddir-IsServed io_u ddir_sync small =
          let ended = fio_io_end ddir_rw f io_u errors 0 m.errno in
          record {
            f' = ended.0;
            after = ended.1;
            errors' = ended.2;
            sys' = sys;
            returned = refl;
            empty =
                ended-IsEmptyFile io_u 0 sys
                  (ap (λ (file : OpenFile B). file.persist.f_size) there ∙ fresh.empty);
            nothing = tt;
          }
