-- ===== src/Fd/Tests.antt =====
-- The descriptor table at concrete states, and the theorems there.
use spdk_blob_top_fs.Prelude.{ℕ, ◌≡◌, ◌⊎◌, refl, Bool, false, not, ltb, ◌==◌, ◌&&◌}
use spdk_blob_top_fs.Fd.{FdTable, found, failed, get_fd_from_table, return_fd_to_table, search_fd}
use spdk_blob_top_fs.Fd.Count.{IsValid, in_use}
use spdk_blob_top_fs.Fd.Take.{IsTaken, get_fd_cases}

abbrev table : ℕ → (ℕ → Bool) → FdTable ℕ
table count used = record { file_count = count; used = used; open_files = λ j. 0 }

abbrev fresh : FdTable ℕ
fresh = table 0 (λ j. false)

-- Descriptors 0, 1 and 2 are open, and 1 is closed again.
abbrev three : FdTable ℕ
three = return_fd_to_table (table 3 (λ j. ltb j 3)) 1

-- All descriptors but 254 are open.
abbrev full : FdTable ℕ
full = table 255 (λ j. ltb j 256 && not (j == 254))

fresh-IsValid : IsValid fresh
unfolding in_use
fresh-IsValid = record { counted = refl }

three_opened : IsValid (table 3 (λ j. ltb j 3))
unfolding in_use
three_opened = record { counted = refl }

full-IsValid : IsValid full
unfolding in_use
full-IsValid = record { counted = refl }

fresh_taken : (get_fd_from_table fresh).0 ≡ found 0
unfolding get_fd_from_table search_fd
fresh_taken = refl

-- Descriptor 254 is free, and is not found.
full_refused : (get_fd_from_table full).0 ≡ failed
unfolding get_fd_from_table search_fd
full_refused = refl

three_taken : (get_fd_from_table three).0 ≡ found 3
unfolding get_fd_from_table search_fd return_fd_to_table
three_taken = refl

get_fd_cases_example :
    ((fd : ℕ) × (t : FdTable ℕ) × (get_fd_from_table full ≡ (found fd, t)) × IsTaken full fd t)
    ⊎ ((get_fd_from_table full ≡ (failed, full))
        × ((full.file_count ≡ 256) ⊎ (full.file_count ≡ 255) × (full.used 254 ≡ false)))
get_fd_cases_example = get_fd_cases full full-IsValid
