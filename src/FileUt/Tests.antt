-- ===== src/FileUt/Tests.antt =====
-- A run of file_ut.c on an empty blobstore in memory.
use spdk_blob_top_fs.File.Ram.{blank_persist}
use native.Mathlib.Nat.{dvd_of_mod-eq-zero}
use spdk_blob_top_fs.Prelude.{refl, false, arith}
use spdk_blob_top_fs.Dir.{spdkfs_dir_lookup, lookup_from}
use spdk_blob_top_fs.File.{Bytes}
use spdk_blob_top_fs.Monopoly.Empty.{store, empty_blob, blank, empty_sys, empty_sys-IsValid}
use spdk_blob_top_fs.FileUt.{Shared, main}
use spdk_blob_top_fs.FileUt.Run.{HasReadNothing, main-HasReadNothing}

abbrev zeros : Bytes
zeros j = 0

abbrev shared : Shared
shared = record { tracked = false; buf_size = 0x100000; at_write = zeros; at_read = zeros }

main-HasReadNothing_example :
    HasReadNothing empty_sys
      (main store blank blank (λ id. empty_blob) shared zeros empty_sys empty_blob blank_persist 99)
unfolding spdkfs_dir_lookup lookup_from
main-HasReadNothing_example =
    main-HasReadNothing blank blank (λ id. empty_blob) shared zeros empty_sys empty_blob
      blank_persist 99 (omega arith) (dvd_of_mod-eq-zero 512 refl) (dvd_of_mod-eq-zero 512 refl)
      (omega arith) refl refl empty_sys-IsValid (omega arith)
