-- ===== src/File/Tests.antt =====
-- The file on a blobstore in memory.
use spdk_blob_top_fs.Prelude.{ℕ, ◌%◌, ◌^◌, ◌<◌, ◌≡◌, refl, false, some, arith}
use spdk_blob_top_fs.File.{
  Bytes, Blobstore, OpenFile, Persist, simple_fs_read, simple_fs_write, monopoly_read,
  monopoly_write,
}
use spdk_blob_top_fs.File.Partial.{IsPartial, monopoly_read-IsPartial}
use spdk_blob_top_fs.File.PartialWrite.{IsPartialWrite, monopoly_write-IsPartialWrite}
use spdk_blob_top_fs.File.Ram.{ram_store, blank_persist, ram, ram_partial, ram_disk, ram_writable}
use spdk_blob_top_fs.File.Read.{IsReadWhole, monopoly_read_lem}
use spdk_blob_top_fs.File.WriteWhole.{IsWrittenWhole, monopoly_write_lem}
use spdk_blob_top_fs.File.Overwrite.{read-write}
use spdk_blob_top_fs.File.Transfer.{read_after_append}
use Prim.Native.Nat.{◌∣◌}
use native.Mathlib.Nat.{dvd_of_mod-eq-zero}

abbrev ram_512 : Blobstore
ram_512 = ram 512 2048

abbrev persist_3k : Persist
persist_3k = record blank_persist { f_size = 3072; i_writecount = 1; blob_id = 7 }

abbrev file_3k : OpenFile ram_512
file_3k = record {
  blob = record { clusters = 2; bytes = λ j. j % 256; attribute = some persist_3k };
  persist = persist_3k;
  f_pos = 512;
}

abbrev zeros : Bytes
zeros = λ j. 0

unit_divides : 512 ∣ 1024
unit_divides = dvd_of_mod-eq-zero 512 refl

unit_divides_itself : 512 ∣ 512
unit_divides_itself = dvd_of_mod-eq-zero 512 refl

monopoly_read_lem_example :
    IsReadWhole
      (ram_disk 512 2048)
      file_3k
      2048
      (monopoly_read ram_512 false 1024 zeros zeros file_3k 2100)
monopoly_read_lem_example =
    monopoly_read_lem (ram_disk 512 2048) 1024 zeros zeros file_3k 2100 (omega arith)
      unit_divides_itself (omega arith) unit_divides unit_divides_itself (omega arith) (omega arith)
      (omega arith) false

read-write_example :
    (bytes' : Bytes) × (file' : OpenFile ram_512) × (simple_fs_read ram_512
        (record ((simple_fs_write ram_512 file_3k 1024 zeros).1) { f_pos = 512 })
        1024
        zeros
      ≡ some (1024, bytes', file'))
    × ((j : ℕ) → j < 1024 → bytes' j ≡ 0)
read-write_example =
    read-write (ram_writable 512 2048) file_3k 1024 zeros zeros (omega arith) (omega arith)
      unit_divides_itself unit_divides_itself unit_divides (omega arith) (omega arith) (omega arith)
      (omega arith)

abbrev end_3k : OpenFile ram_512
end_3k = record file_3k { f_pos = 3072 }

abbrev appended : OpenFile ram_512
appended = record ((simple_fs_write ram_512 end_3k 512 zeros).1) { f_pos = 3072 }

read_after_append_example : simple_fs_read ram_512 appended 512 zeros ≡ some (0, zeros, appended)
read_after_append_example =
    read_after_append ram_512 end_3k 512 zeros zeros (omega arith) (omega arith) refl (omega arith)

word_units : 512 ∣ 2 ^ 64
word_units = dvd_of_mod-eq-zero 512 refl

monopoly_write_lem_example :
    IsWrittenWhole
      (ram_disk 512 2048)
      file_3k
      zeros
      2048
      (monopoly_write ram_512 false 1024 zeros zeros file_3k 2100)
monopoly_write_lem_example =
    monopoly_write_lem (ram_writable 512 2048) 1024 zeros zeros file_3k 2100 (omega arith)
      (omega arith) (omega arith) unit_divides unit_divides_itself (omega arith) (omega arith)
      (omega arith) false

monopoly_read-IsPartial_example :
    IsPartial
      (ram_partial 512 2048)
      file_3k
      zeros
      0
      3584
      (monopoly_read ram_512 false 1024 zeros zeros file_3k 4000)
monopoly_read-IsPartial_example =
    monopoly_read-IsPartial (ram_partial 512 2048) 1024 zeros zeros file_3k 4000 (omega arith)
      unit_divides_itself (omega arith) unit_divides unit_divides_itself (omega arith)

-- A chunk that is too large for one more cluster.
monopoly_write-IsPartialWrite_example :
    IsPartialWrite
      (ram_store 512 2048)
      file_3k
      zeros
      0
      9728
      (monopoly_write ram_512 false 8192 zeros zeros file_3k 10000)
monopoly_write-IsPartialWrite_example =
    monopoly_write-IsPartialWrite (ram_store 512 2048) 8192 zeros zeros file_3k 10000 (omega arith)
      (omega arith) (dvd_of_mod-eq-zero 512 refl) unit_divides_itself (omega arith)
