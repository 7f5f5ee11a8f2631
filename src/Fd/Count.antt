-- ===== src/Fd/Count.antt =====
-- Counting the descriptors in use.
use spdk_blob_top_fs.Prelude.{
  ℕ, zero, suc, ◌+◌, ◌≤◌, ◌<◌, ◌≡◌, refl, ◌≢◌, Bool, true, false, arith, ◌==◌, if◌then◌else◌,
  Bool-cases, inl, inr,
}
use spdk_blob_top_fs.Fd.{FdTable, mark}

abbrev pub weight : Bool → ℕ
weight b = if b then 1 else 0

-- How many of the first `n` descriptors are in use.
unfoldable pub in_use : (ℕ → Bool) → ℕ → ℕ
in_use used zero = 0
in_use used (suc n) = weight (used n) + in_use used n

pub record IsValid {F : Type 0} (t : FdTable F) : Type 0 where
  pub counted : t.file_count ≡ in_use t.used 256

module _ (used : ℕ → Bool) where
  pub in_use-le : (n : ℕ) → in_use used n ≤ n
  unfolding in_use
  in_use-le zero = omega arith
  in_use-le (suc n) = ground (arith, in_use-le n)

  pub in_use_none : (n : ℕ) → ((fd : ℕ) → used fd ≡ false) → in_use used n ≡ 0
  unfolding in_use
  in_use_none zero unused = refl
  in_use_none (suc n) unused = ground (arith, unused n, in_use_none n unused)

  in_use-mark_above : (n fd : ℕ) (b : Bool) → n ≤ fd → in_use (mark used fd b) n ≡ in_use used n
  unfolding in_use
  in_use-mark_above zero fd b le = refl
  in_use-mark_above (suc n) fd b le = ground (arith, in_use-mark_above n fd b)

  pub in_use-mark :
      (n fd : ℕ) (b : Bool)
      → fd < n
      → in_use (mark used fd b) n + weight (used fd) ≡ in_use used n + weight b
  unfolding in_use
  in_use-mark zero fd b lt = elim lt [ ]
  in_use-mark (suc n) fd b lt = ground (arith, in_use-mark n fd b, in_use-mark_above n fd b)

  pub in_use-pos : (n j : ℕ) → j < n → used j ≡ true → 1 ≤ in_use used n
  unfolding in_use
  in_use-pos zero j lt u = elim lt [ ]
  in_use-pos (suc n) j lt u = ground (arith, in_use-pos n j)

  pub in_use_all : (n : ℕ) → ((j : ℕ) → j < n → used j ≡ true) → n ≤ in_use used n
  unfolding in_use
  in_use_all zero all = omega arith
  in_use_all (suc n) all = ground (arith, all n, in_use_all n (λ j lt. all j (omega arith)))

  -- All in use but perhaps `k`.
  pub in_use_but : (n k : ℕ) → ((j : ℕ) → j < n → j ≢ k → used j ≡ true) → n ≤ in_use used n + 1
  unfolding in_use
  in_use_but zero k all = omega arith
  in_use_but (suc n) k all = elim (Bool-cases (n == k)) [
    | inl last ↦
        let rest = in_use_all n (λ j lt. all j (omega arith) (λ e. absurd (ground arith))) in
        omega (arith, rest)
    | inr more ↦
        let here = all n (omega arith) (λ e. absurd (ground arith)) in
        ground (arith, here, in_use_but n k (λ j lt. all j (omega arith)))
  ]
