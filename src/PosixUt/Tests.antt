-- ===== src/PosixUt/Tests.antt =====
-- A run of posix_ut.c on an empty blobstore in memory.
use spdk_blob_top_fs.File.Ram.{blank_persist}
use spdk_blob_top_fs.Prelude.{◌≡◌, none, false, arith}
use spdk_blob_top_fs.File.{Bytes}
use spdk_blob_top_fs.Interface.Calls.{created_or_opened}
use spdk_blob_top_fs.Monopoly.{monopoly_create}
use spdk_blob_top_fs.Monopoly.Empty.{store, empty_blob, blank, empty_sys}
use spdk_blob_top_fs.FileUt
use spdk_blob_top_fs.FileUt.{hello, Shared}
use spdk_blob_top_fs.PosixUt.{main}
use spdk_blob_top_fs.PosixUt.Same.{run_after, main-run_after}

abbrev zeros : Bytes
zeros j = 0

abbrev shared : Shared
shared = record { tracked = false; buf_size = 0x100000; at_write = zeros; at_read = zeros }

main-run_after_example :
    main store blank blank
      (λ id. empty_blob)
      shared
      zeros
      none
      empty_sys
      empty_blob
      blank_persist
      99
    ≡ run_after
        (created_or_opened blank blank
          (λ id. empty_blob)
          hello
          (monopoly_create store blank blank empty_sys hello empty_blob blank_persist 99))
        (FileUt.main store blank blank
          (λ id. empty_blob)
          shared
          zeros
          empty_sys
          empty_blob
          blank_persist
          99)
main-run_after_example =
    main-run_after blank blank (λ id. empty_blob) shared zeros empty_sys empty_blob blank_persist 99
      (omega arith)
