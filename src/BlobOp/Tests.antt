-- ===== src/BlobOp/Tests.antt =====
-- Operations on blobs with answers at given polls.
use spdk_blob_top_fs.Prelude.{
  ℕ, zero, suc, ◌+◌, ◌<◌, ◌≡◌, refl, false, none, some, arith, ◌==◌, if◌then◌else◌,
}
use spdk_blob_top_fs.Poller.{Answers, Thread, generic_poller, poller_max_time}
use spdk_blob_top_fs.Poller.Ended.{Ended, generic_poller-Ended}
use spdk_blob_top_fs.Poller.Waits.{First}
use spdk_blob_top_fs.BlobOp.{Reply, Context, callbacks, complete, bs_open_blob, generic_blob_resize}
use spdk_blob_top_fs.BlobOp.Tells.{Tells, complete-Tells}
use spdk_blob_top_fs.BlobOp.Waited.{generic_blob_resize_lem}

abbrev ok : Reply
ok = record { bserrno = 0; blobid = 4; blob = some 9 }

abbrev io_error : Reply
io_error = record { bserrno = 5; blobid = 0; blob = none }

-- An answer at the poll number 1, and a second at number 2.
abbrev two_answers : Reply → Reply → Answers callbacks
two_answers first second zero = none
two_answers first second (suc zero) = some first
two_answers first second (suc (suc zero)) = some second
two_answers first second (suc (suc (suc n))) = none

abbrev never : Answers callbacks
never n = none

First-two_answers : (r r' : Reply) → First callbacks (two_answers r r') 0 1 r
First-two_answers r r' = record { silent = silent; answer = refl }
  where
    silent : (m : ℕ) → m < 1 → two_answers r r' (0 + m) ≡ none
    silent zero lt = refl
    silent (suc m) lt = absurd (omega arith)

First-second : (r r' : Reply) → First callbacks (two_answers r r') 2 0 r'
First-second r r' = record { silent = λ m lt. absurd (omega arith); answer = refl }

abbrev idle : Context
idle = record { done = false; fs_errno = 0; op_blob = none }

abbrev opening : Thread callbacks
opening = record { context = idle; pending = some (bs_open_blob 4) }

generic_poller-Ended_example :
    Ended callbacks poller_max_time 0
      (two_answers ok ok)
      opening
      (generic_poller callbacks (two_answers ok ok) opening)
generic_poller-Ended_example = generic_poller-Ended callbacks (two_answers ok ok) opening

complete-Tells_example : Tells idle (complete (bs_open_blob 4) ok idle)
complete-Tells_example = complete-Tells (bs_open_blob 4) ok idle refl

generic_blob_resize_lem_example :
    generic_blob_resize 4096 9 8192 (two_answers ok io_error)
    ≡ (if 8192 == 0 then none else some (if ok.bserrno == 0 then io_error.bserrno == 0 else false))
generic_blob_resize_lem_example =
    generic_blob_resize_lem 4096 9 8192 (two_answers ok io_error) 1 0 ok io_error
      (First-two_answers ok io_error) (First-second ok io_error) (omega arith)
