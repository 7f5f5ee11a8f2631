-- ===== src/File/Ram.antt =====
-- A blobstore in memory, for the examples.
use spdk_blob_top_fs.Prelude.{ℕ, ◌+◌, ◌*◌, ◌≤◌, ◌≡◌, refl, true, Option, some, leb, arith}
use spdk_blob_top_fs.File.{Bytes, Blobstore, Persist, copy_at}
use spdk_blob_top_fs.File.Content.{Disk, copy_at-outside}
use spdk_blob_top_fs.File.OnceWritten.{PartialStore}
use spdk_blob_top_fs.File.Once.{PartialDisk}
use spdk_blob_top_fs.File.Write.{WritableDisk}

abbrev pub blank_persist : Persist
blank_persist = record {
  i_uid = 0;
  i_atime = 0;
  i_mtime = 0;
  f_size = 0;
  i_writecount = 0;
  i_ctime = 0;
  blob_id = 0;
}

pub record Ram : Type 0 where
  pub clusters : ℕ
  pub bytes : Bytes
  pub attribute : Option Persist

abbrev pub ram : (unit cluster : ℕ) → Blobstore
ram unit cluster = record {
  Blob = Ram;
  io_unit = unit;
  cluster_size = cluster;
  get_id = λ b. 7;
  num_clusters = λ b. b.clusters;
  read = λ b o n. (true, λ j. b.bytes (o * unit + j));
  write = λ b o n w. (
    leb ((o + n) * unit) (b.clusters * cluster),
    record b { bytes = copy_at (o * unit) (n * unit) w (b.bytes) },
  );
  resize = λ b n. (true, record b { clusters = n });
  get_xattr = λ b. b.attribute;
  set_xattr = λ b p. record b { attribute = some p };
}

abbrev pub ram_disk : (unit cluster : ℕ) → Disk (ram unit cluster)
ram_disk unit cluster = record {
  content = λ b. b.bytes;
  read_ok = λ b o n. refl;
  read_bytes = λ b o n j lt. refl;
  set_xattr_content = λ b p. refl;
}

abbrev pub ram_partial : (unit cluster : ℕ) → PartialDisk (ram unit cluster)
ram_partial unit cluster = record {
  content = λ b. b.bytes;
  read_bytes = λ b o n j ok lt. refl;
  set_xattr_content = λ b p. refl;
}

abbrev pub ram_store : (unit cluster : ℕ) → PartialStore (ram unit cluster)
ram_store unit cluster = record {
  content = λ b. b.bytes;
  write_content = λ b o n w j ok. refl;
  write_outside = λ b o n w j out. copy_at-outside (o * unit) (n * unit) w b.bytes j out;
  resize_content = λ b n. refl;
  set_xattr_content = λ b p. refl;
}

pub within_clusters : (a b : ℕ) → a ≤ b → leb a b ≡ true
within_clusters a b le = ground arith

abbrev pub ram_writable : (unit cluster : ℕ) → WritableDisk (ram_disk unit cluster)
ram_writable unit cluster = record {
  write_ok = λ b o n w le. within_clusters _ _ le;
  write_content = λ b o n w j ok. refl;
  resize_clusters = λ b n. refl;
  resize_content = λ b n. refl;
  write_clusters = λ b o n w. refl;
  xattr_clusters = λ b p. refl;
}
