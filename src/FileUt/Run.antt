-- ===== src/FileUt/Run.antt =====
-- What file_ut.c prints.
use spdk_blob_top_fs.File.{Persist}
use Prim.Native.Nat.{◌∣◌}
use spdk_blob_top_fs.Prelude.{
  ℕ, ◌≤◌, ◌<◌, ◌≡◌, refl, ap, ◌∙◌, true, Option, none, some, arith, inl, inr,
}
use spdk_blob_top_fs.Fd.{FdTable, return_fd_to_table}
use spdk_blob_top_fs.Fd.Count.{IsValid}
use spdk_blob_top_fs.Fd.Take.{IsTaken, given_back}
use spdk_blob_top_fs.Dir.{Dirent, spdkfs_dir_lookup}
use spdk_blob_top_fs.File.{
  Bytes, Blobstore, OpenFile, seek_set, simple_fs_create, simple_fs_close, monopoly_write,
  monopoly_read, monopoly_lseek,
}
use spdk_blob_top_fs.File.Fresh.{IsFresh, read-empty, write-empty, lseek-start}
use spdk_blob_top_fs.Monopoly.{Sys, Result, put_file}
use spdk_blob_top_fs.Monopoly.Sound.{close_below, IsPlaced, in_slot, no_slot}
use spdk_blob_top_fs.Monopoly.Created.{with_entry, create_new}
use spdk_blob_top_fs.Monopoly.Descriptor.{
  with_file, write_fd, read_fd, lseek_fd, write_at, read_at, lseek_at,
}
use spdk_blob_top_fs.Fio.Queue.{rewound, put_file_self}
use spdk_blob_top_fs.FileUt.{hello, memset, terminate, Shared, Printed, transfers, main}

module _ {B : Blobstore} where
  -- The system with a file in a descriptor that was taken.
  abbrev holding : Sys B → ℕ → FdTable (OpenFile B) → OpenFile B → Sys B
  holding sys fd t file = record sys {
    fds = record t { open_files = put_file t.open_files fd file };
  }

  -- With fewer than 255 open files there is a descriptor.
  has_slot :
      (sys : Sys B) (file : OpenFile B) (r : Option (Result B))
      → sys.fds.file_count < 255
      → IsPlaced sys file r
      → (fd : ℕ) × (t : FdTable (OpenFile B)) × (r ≡ some (some fd, holding sys fd t file))
        × IsTaken sys.fds fd t
  has_slot sys file r few (in_slot fd t taken) = (fd, t, refl, taken)
  has_slot sys file r few (no_slot (inl full)) = absurd (omega arith)
  has_slot sys file r few (no_slot (inr (full, last))) = absurd (omega arith)

  module _ (m : Shared) (pos : 0 < B.io_unit) (fd : ℕ) (user : Bytes) (sys : Sys B)
      (file : OpenFile B) (there : sys.fds.open_files fd ≡ file) where
    written :
        let w = monopoly_write B m.tracked m.buf_size m.at_write user file 4096 in
        write_fd B m.tracked m.buf_size m.at_write user sys (some fd) 4096
        ≡ some (w.0, w.1, with_file B sys fd w.2)
    unfolding write_fd
    written =
        ap
          (λ (f : OpenFile B).
            write_at B sys fd (monopoly_write B m.tracked m.buf_size m.at_write user f 4096))
          there

    sought : lseek_fd B sys (some fd) 0 seek_set ≡ some (0, with_file B sys fd (rewound file))
    unfolding lseek_fd
    sought =
        ap (λ (f : OpenFile B). lseek_at B sys fd (monopoly_lseek B f 0 seek_set)) there
        ∙ ap (lseek_at B sys fd) (lseek-start file pos)

    read_none :
        IsFresh file
        → 512 ∣ B.io_unit
        → 512 ∣ m.buf_size
        → 0 < m.buf_size
        → read_fd B m.tracked m.buf_size m.at_read user sys (some fd) 4096
          ≡ some (0, user, with_file B sys fd file)
    unfolding read_fd
    read_none fresh sector whole some_buf =
        ap
          (λ (f : OpenFile B).
            read_at B sys fd (monopoly_read B m.tracked m.buf_size m.at_read user f 4096))
          there
        ∙ ap (read_at B sys fd) (
            read-empty m.buf_size m.at_read user file 4096 pos fresh m.tracked sector whole some_buf
              (omega arith))

  -- The program returns. What it prints last is what it printed before, and not what it wrote.
  pub record HasReadNothing (sys : Sys B) (r : Option (Printed B)) : Type 0 where
    pub printed : Printed B
    pub returned : r ≡ some printed
    pub to_write : (j : ℕ) → j < 14 → printed.to_write j ≡ 65
    pub to_read : (j : ℕ) → j < 14 → printed.to_read j ≡ 66
    pub read : (j : ℕ) → j < 14 → printed.read j ≡ 66
    pub count : printed.sys.fds.file_count ≡ sys.fds.file_count
    pub used : (j : ℕ) → printed.sys.fds.used j ≡ sys.fds.used j

  -- With an io unit above 0 that is a multiple of 512, a shared buffer of at least 4096 bytes in
  -- whole 512-byte sectors, an initialised directory without `spdkfs/hello`, and a valid table
  -- with fewer than 255 open files: the program file_ut.c returns; it prints the A's that it
  -- writes and the B's before the read, and after the read the B's again; and the open files and
  -- their count are as they were.
  pub main-HasReadNothing :
      (first more : ℕ → Dirent) (blob_of : ℕ → B.Blob) (m : Shared) (buffer : Bytes) (sys : Sys B)
      (blob : B.Blob) (left : Persist) (now : ℕ)
      → 0 < B.io_unit
      → 512 ∣ B.io_unit
      → 512 ∣ m.buf_size
      → 4096 ≤ m.buf_size
      → sys.workdir.initialized ≡ true
      → spdkfs_dir_lookup sys.workdir hello ≡ none
      → IsValid sys.fds
      → sys.fds.file_count < 255
      → HasReadNothing sys (main B first more blob_of m buffer sys blob left now)
  unfolding main transfers simple_fs_create
  main-HasReadNothing first more blob_of m buffer sys blob left now pos sector whole large ready
        absent v few =
      let file = simple_fs_create B blob left now in
      let (fd, t, created, taken) =
        has_slot (with_entry first more sys hello file) file _ few
          (create_new first more sys hello blob left now ready absent v) in
      let sys0 = holding (with_entry first more sys hello file) fd t file in
      let to_write = terminate (memset buffer 65 4096) in
      let w = monopoly_write B m.tracked m.buf_size m.at_write to_write file 4096 in
      let sys1 = with_file B sys0 fd w.2 in
      let to_read = terminate (memset w.1 66 4096) in
      let sys2 = with_file B sys1 fd (rewound w.2) in
      let sys3 = with_file B sys2 fd (rewound w.2) in
      let at0 = put_file_self t.open_files fd file in
      let at1 = put_file_self sys0.fds.open_files fd w.2 in
      let at2 = put_file_self sys1.fds.open_files fd (rewound w.2) in
      let new : IsFresh file = record { at_start = refl; empty = refl } in
      let fresh : IsFresh (rewound w.2) = record {
        at_start = refl;
        empty = write-empty m.buf_size m.at_write to_write file 4096 pos new m.tracked large;
      } in
      let back = given_back sys.fds t sys3.fds fd v taken refl refl in
      record {
        printed = record {
          to_write = to_write;
          to_read = to_read;
          read = terminate to_read;
          closed = simple_fs_close B (sys3.fds.open_files fd);
          sys = record sys3 { fds = return_fd_to_table sys3.fds fd };
        };
        returned =
            rw
              (
                created,
                written m pos fd to_write sys0 file at0,
                sought m pos fd to_write sys1 w.2 at1,
                read_none m pos fd to_read sys2 (rewound w.2) at2 fresh sector whole (omega arith),
                close_below sys3 fd taken.in_range,
              )
              refl;
        to_write = λ j lt. ground arith;
        to_read = λ j lt. ground arith;
        read = λ j lt. ground arith;
        count = back.0;
        used = back.1;
      }
