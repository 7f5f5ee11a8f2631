-- ===== src/Fio/Start.antt =====
-- A read of blobop_fio_plugin/fs_fio_plugin.c: where it reads.
use Prim.Native.Nat.{◌∣◌}
use native.Mathlib.Nat.{dvd-zero, div-mul_cancel}
use spdk_blob_top_fs.Prelude.{
  ℕ, zero, suc, ◌+◌, ◌*◌, ◌/◌, ◌%◌, ◌^◌, ◌≤◌, ◌<◌, ◌≡◌, refl, sym, ap, subst, ◌∙◌, Bool, true,
  Option, some, arith, if◌then◌else◌,
}
use spdk_blob_top_fs.File.{Bytes, Blobstore, OpenFile, monopoly_read}
use spdk_blob_top_fs.File.Content.{Disk}
use spdk_blob_top_fs.File.Read.{IsReadWhole, monopoly_read_lem}
use spdk_blob_top_fs.Monopoly.{Sys}
use spdk_blob_top_fs.Monopoly.Descriptor.{with_file, read_at, read_fd}
use spdk_blob_top_fs.Fio.{
  Ddir, ddir_read, FioFile, IoU, Errors, Ended, Memory, fio_io_end, queue_ddir, queue_done,
}
use spdk_blob_top_fs.Fio.Ends.{fio_io_end-IsTransferred}
use spdk_blob_top_fs.Fio.Queue.{serve, serve_lem, rewound, put_file_self}

quotient_pos : (q unit : ℕ) → 0 < q * unit → 0 < q
quotient_pos zero unit pos = absurd (omega arith)
quotient_pos (suc q) unit pos = omega arith

-- The whole request is served by the first bytes of the file.
pub record IsStartRead {B : Blobstore} (D : Disk B) (blob : B.Blob) (f : FioFile) (io_u : IoU)
    (errors : Errors) (r : Option (Ended × Sys B)) : Type 0 where
  pub ended : Ended
  pub sys' : Sys B
  pub returned : r ≡ some (ended, sys')
  pub bytes : (j : ℕ) → j < io_u.xfer_buflen → ended.1.xfer_buf j ≡ D.content blob j
  pub all : ended.1.resid ≡ 0
  pub no_error : ended.1.error ≡ 0
  pub told : ended.2 ≡ errors
  pub moved : ended.0.engine_pos ≡ (io_u.offset + io_u.xfer_buflen) % 2 ^ 64

module _ {B : Blobstore} (D : Disk B) (ddir_rw : Ddir → Bool) (fio_ro_check : IoU → Bool)
    (do_io_u_trim : IoU → IoU) (m : Memory B) (sys : Sys B) (f : FioFile) (io_u : IoU)
    (errors : Errors) (fd : ℕ) where
  read_done :
      (sys' : Sys B) (file : OpenFile B)
      → sys'.fds.open_files fd ≡ file
      → io_u.ddir ≡ ddir_read
      → ddir_rw ddir_read ≡ true
      → f.fd ≡ some fd
      → io_u.xfer_buflen < 2 ^ 31
      → io_u.resid ≡ 0
      → io_u.error ≡ 0
      → IsReadWhole D file io_u.xfer_buflen
          (monopoly_read B m.tracked m.buf_size m.shared io_u.xfer_buf file io_u.xfer_buflen)
      → file.f_pos ≡ 0
      → IsStartRead D file.blob f io_u errors
          (queue_ddir B ddir_rw fio_ro_check do_io_u_trim m sys' f io_u errors ddir_read)
  unfolding read_fd
  read_done sys' file there read reads is_open int fresh fine done at =
      let n = io_u.xfer_buflen in
      let io_u' : IoU = record io_u { xfer_buf = done.user' } in
      let ret : n % 2 ^ 32 ≡ n = omega arith in
      let ended = fio_io_end ddir_rw f io_u' errors n m.errno in
      let e =
        fio_io_end-IsTransferred ddir_rw f io_u' errors n m.errno (omega arith) int fresh fine in
      let out = with_file B sys' fd done.file' in
      record {
        ended = ended;
        sys' = out;
        returned =
            ap
              (λ (o : Option ℕ).
                queue_done B ddir_rw m f io_u errors
                  (read_fd B m.tracked m.buf_size m.shared io_u.xfer_buf sys' o n))
              is_open
            ∙ ap
                (λ (file : OpenFile B). queue_done B ddir_rw m f io_u errors (
                  read_at B sys' fd
                    (monopoly_read B m.tracked m.buf_size m.shared io_u.xfer_buf file n)))
                there
            ∙ ap (λ r. queue_done B ddir_rw m f io_u errors (read_at B sys' fd r)) done.returned
            ∙ ap (λ (r : ℕ). some (fio_io_end ddir_rw f io_u' errors r m.errno, out)) ret;
        bytes = λ j lt.
            ap (λ (b : Bytes). b j) e.same_buf
            ∙ done.filled j lt
            ∙ ap (D.content file.blob) (omega (arith, at));
        all = omega (arith, e.counted);
        no_error = e.no_error;
        told = e.told;
        moved =
            e.moved
            ∙ ap (λ (d : Ddir). if ddir_rw d then (io_u.offset + n) % 2 ^ 64 else f.engine_pos) read
            ∙ ap (λ (b : Bool). if b then (io_u.offset + n) % 2 ^ 64 else f.engine_pos) reads;
      }

  -- On a disk whose reads do not fail, with io units and a buffer of whole io units above 0, the
  -- unit a multiple of 512: a read request that passes the check of fio, where fio counts reads
  -- among the transfers, on an open file, of whole io units, not empty, shorter than 2^31 bytes,
  -- not longer than the file (below 2^64), and with no rest and no error noted, is prepared and
  -- queued and gets the first bytes of the file whatever its offset is, with no rest, no error,
  -- and the position of the engine moved to the end of the request.
  pub serve-IsStartRead :
      0 < B.io_unit
      → 512 ∣ B.io_unit
      → 0 < m.buf_size
      → B.io_unit ∣ m.buf_size
      → f.fd ≡ some fd
      → fio_ro_check io_u ≡ true
      → io_u.ddir ≡ ddir_read
      → ddir_rw ddir_read ≡ true
      → B.io_unit ∣ io_u.xfer_buflen
      → 0 < io_u.xfer_buflen
      → io_u.xfer_buflen < 2 ^ 31
      → io_u.resid ≡ 0
      → io_u.error ≡ 0
      → let file = sys.fds.open_files fd in
        io_u.xfer_buflen ≤ file.persist.f_size
        → file.persist.f_size < 2 ^ 64
        → IsStartRead D file.blob f io_u errors
            (serve ddir_rw fio_ro_check do_io_u_trim m sys f io_u errors)
  serve-IsStartRead pos sector some_buf units is_open allowed read reads whole some_bytes int fresh
        fine within small =
      let file = sys.fds.open_files fd in
      let sys' = with_file B sys fd (rewound file) in
      let n = io_u.xfer_buflen in
      let exact : n / B.io_unit * B.io_unit ≡ n = div-mul_cancel B.io_unit whole in
      let done =
        monopoly_read_lem D m.buf_size m.shared io_u.xfer_buf (rewound file) n pos sector some_buf
          units (dvd-zero B.io_unit)
          (quotient_pos (n / B.io_unit) B.io_unit (omega (arith, exact, some_bytes)))
          (omega (arith, exact, within)) small m.tracked in
      let there = put_file_self sys.fds.open_files fd (rewound file) in
      subst (IsStartRead D file.blob f io_u errors)
        (sym (
          serve_lem ddir_rw fio_ro_check do_io_u_trim pos m sys f io_u errors fd is_open allowed
          ∙ ap (queue_ddir B ddir_rw fio_ro_check do_io_u_trim m sys' f io_u errors) read))
        (read_done sys' (rewound file) there read reads is_open int fresh fine
          (subst
            (λ (k : ℕ).
              IsReadWhole D (rewound file) k
                (monopoly_read B m.tracked m.buf_size m.shared io_u.xfer_buf (rewound file) n))
            exact done)
          refl)
