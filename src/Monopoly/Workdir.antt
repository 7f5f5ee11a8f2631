-- ===== src/Monopoly/Workdir.antt =====
-- `monopoly_chdir` and `monopoly_mkdir` of simple_fs/monopoly_ops.c, which return no value. The
-- working directory is `none` while `g_workdir` is NULL.
use spdk_blob_top_fs.Prelude.{ℕ, true, Option, none, some, List}
use spdk_blob_top_fs.Dir.{Dirent, Dir}
use spdk_blob_top_fs.DirIo.{DirStore, simple_dir_create}

-- A blob is created and is given the attribute of an empty directory. `g_workdir` is not set.
monopoly_chdir :
    (S : DirStore)
    → Option Dir
    → (pathname : List ℕ) → (blob : S.Blob) → (stale : ℕ → Dirent) → Option Dir × S.Blob × Dir
monopoly_chdir S workdir pathname blob stale =
    let (blob', new_dir) = simple_dir_create S blob stale in
    (workdir, blob', record new_dir { initialized = true })

monopoly_mkdir : Option Dir → (root : Dir) → (pathname : List ℕ) → Option Dir
monopoly_mkdir none root pathname = some root
monopoly_mkdir (some dir) root pathname = some dir
