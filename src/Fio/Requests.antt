-- ===== src/Fio/Requests.antt =====
-- Sequences of requests that fio hands to the engine of blobop_fio_plugin/fs_fio_plugin.c, on a
-- file whose recorded size is 0.
use Prim.Native.Nat.{◌∣◌}
use spdk_blob_top_fs.Prelude.{
  ◌<◌, ◌≡◌, refl, sym, ap, subst, ◌∙◌, Bool, true, Option, none, some, List, [], ◌∷◌,
}
use spdk_blob_top_fs.File.{Blobstore}
use spdk_blob_top_fs.Monopoly.{Sys}
use spdk_blob_top_fs.Monopoly.Descriptor.{with_file}
use spdk_blob_top_fs.Fio.{Ddir, FioFile, IoU, Errors, Ended, Memory}
use spdk_blob_top_fs.Fio.Queue.{
  ReadsNothing, IsEmptyFile, IsSmall, IsServed, serve, serve_lem, rewound, put_file_self,
  queue_ddir-IsServed,
}

-- Requests, each with what the engine makes of it.
abbrev pub Served : Type 0
Served = List (IoU × IoU)

abbrev pub AllReadNothing : Served → Type 0
AllReadNothing [] = Unit
AllReadNothing ((io_u, after) ∷ served) = ReadsNothing io_u.ddir io_u after × AllReadNothing served

module _ {B : Blobstore} where
  module _ (ddir_rw : Ddir → Bool) (fio_ro_check : IoU → Bool) (do_io_u_trim : IoU → IoU) where
    serve-IsServed :
        0 < B.io_unit
        → 512 ∣ B.io_unit
        → (m : Memory B) (sys : Sys B) (f : FioFile) (errors : Errors) (io_u : IoU)
        → fio_ro_check io_u ≡ true
        → IsSmall m io_u
        → IsEmptyFile sys f
        → IsServed io_u.ddir io_u (serve ddir_rw fio_ro_check do_io_u_trim m sys f io_u errors)
    serve-IsServed pos sector m sys f errors io_u allowed small v =
        let file = rewound (sys.fds.open_files v.fd) in
        subst (IsServed io_u.ddir io_u)
          (sym (
            serve_lem ddir_rw fio_ro_check do_io_u_trim pos m sys f io_u errors v.fd v.is_open
              allowed))
          (queue_ddir-IsServed ddir_rw fio_ro_check do_io_u_trim pos sector m
            (with_file B sys v.fd file) f errors v.fd v.is_open file
            (put_file_self sys.fds.open_files v.fd file)
            (record { at_start = refl; empty = v.empty }) io_u io_u.ddir small)

    -- Requests one after the other.
    abbrev serve_rest :
        IoU
        → Option (Ended × Sys B)
        → (Ended → Sys B → Option (Served × Sys B))
        → Option (Served × Sys B)
    serve_rest io_u none rest = none
    serve_rest io_u (some (ended, sys)) rest = elim (rest ended sys) [
      | none ↦ none
      | some (served, sys') ↦ some ((io_u, ended.1) ∷ served, sys')
    ]

    pub serve_all : List (Memory B × IoU) → Sys B → FioFile → Errors → Option (Served × Sys B)
    unfolding serve
    serve_all [] sys f errors = some ([], sys)
    serve_all ((m, io_u) ∷ requests) sys f errors =
        serve_rest io_u (serve ddir_rw fio_ro_check do_io_u_trim m sys f io_u errors)
          (λ ended sys'. serve_all requests sys' ended.0 ended.2)

    abbrev pub AllSmall : List (Memory B × IoU) → Type 0
    AllSmall [] = Unit
    AllSmall ((m, io_u) ∷ requests) =
        (fio_ro_check io_u ≡ true) × IsSmall m io_u × AllSmall requests

    -- On a file that is open and has a recorded size of 0, with io units above 0 that are
    -- multiples of 512, and for requests of any direction that pass the check of fio, are not
    -- empty, fit in the buffer of the file system, which has whole 512-byte sectors, and are
    -- shorter than 2^31 bytes: each request is prepared and queued and returns, and each read
    -- leaves its whole length as the rest, sets no error and leaves the buffer of the request as
    -- it was, whatever was written before.
    pub serve_all-AllReadNothing :
        0 < B.io_unit
        → 512 ∣ B.io_unit
        → (requests : List (Memory B × IoU)) (sys : Sys B) (f : FioFile) (errors : Errors)
        → AllSmall requests
        → IsEmptyFile sys f
        → (served : Served) × (sys' : Sys B) × (serve_all requests sys f errors
            ≡ some (served, sys'))
          × AllReadNothing served
    unfolding serve_all
    serve_all-AllReadNothing pos sector [] sys f errors small v = ([], sys, refl, tt)
    serve_all-AllReadNothing pos sector ((m, io_u) ∷ requests) sys f errors small v =
        let s = serve-IsServed pos sector m sys f errors io_u small.0 small.1 v in
        let rest =
          serve_all-AllReadNothing pos sector requests s.sys' s.f' s.errors' small.2 s.empty in
        (
          (io_u, s.after) ∷ rest.0,
          rest.1,
          ap (λ r. serve_rest io_u r (λ ended sys'. serve_all requests sys' ended.0 ended.2))
                s.returned
              ∙ ap
                  (λ (r : Option (Served × Sys B)). elim r [
                    | none ↦ none
                    | some (served, sys') ↦ some ((io_u, s.after) ∷ served, sys')
                  ])
                  rest.2,
          (s.nothing, rest.3),
        )
