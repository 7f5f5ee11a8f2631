-- ===== src/Fd/Search.antt =====
-- What the search for a free descriptor in simple_fs/monopoly_ops.c ends with.
use spdk_blob_top_fs.Prelude.{
  ℕ, zero, suc, ◌+◌, ◌%◌, ◌^◌, ◌≤◌, ◌<◌, ◌≡◌, sym, subst, ◌⊎◌, inl, inr, Bool, true, false, arith,
  ◌==◌, Bool-cases,
}
use spdk_blob_top_fs.Fd.{FdSearch, found, failed, search_fd}

-- A free descriptor, or none among those that satisfy `P`.
abbrev pub Ends : (ℕ → Bool) → (ℕ → Type 0) → FdSearch → Type 0
Ends used P r =
    ((fd : ℕ) × (r ≡ found fd) × (fd < 256) × (used fd ≡ false))
    ⊎ ((r ≡ failed) × ((j : ℕ) → P j → used j ≡ true))

Ends-mono :
    {used : ℕ → Bool} {P Q : ℕ → Type 0} (r : FdSearch)
    → ((j : ℕ) → Q j → (P j ⊎ (used j ≡ true)))
    → Ends used P r
    → Ends used Q r
Ends-mono r widen (inl h) = inl h
Ends-mono r widen (inr (e, all)) = inr (e, λ j q. elim (widen j q) [ inl p ↦ all j p | inr u ↦ u ])

module _ (used : ℕ → Bool) (stop : ℕ) (lt : stop < 256) where
  -- A turn at a descriptor in use, also through the wrap.
  turn_used :
      (rounds i : ℕ)
      → i < 256
      → (i == stop) ≡ false
      → used i ≡ true
      → search_fd (suc rounds) i stop used ≡ search_fd rounds (i + 1) stop used
  unfolding search_fd
  turn_used rounds i small on u = let next : (i + 1) % 2 ^ 32 ≡ i + 1 = omega arith in ground arith

  -- One turn before the wrap.
  turn :
      (rounds i : ℕ) (P Q : ℕ → Type 0)
      → i < 256
      → (i == stop) ≡ false
      → ((j : ℕ) → Q j → used i ≡ true → (P j ⊎ (used j ≡ true)))
      → Ends used P (search_fd rounds (i + 1) stop used)
      → Ends used Q (search_fd (suc rounds) i stop used)
  unfolding search_fd
  turn rounds i P Q small on widen rest = elim (Bool-cases (used i)) [
    | inl u ↦
        subst (Ends used Q) (sym (turn_used rounds i small on u))
          (Ends-mono (search_fd rounds (i + 1) stop used) (λ j q. widen j q u) rest)
    | inr free ↦ inl (i, ground arith, small, free)
  ]

  -- The second leg, below the stop.
  search_below :
      (rounds i : ℕ)
      → i ≤ stop
      → stop < i + rounds
      → Ends used (λ j. (i ≤ j) × (j < stop)) (search_fd rounds i stop used)
  unfolding search_fd
  search_below zero i le fuel = absurd (omega arith)
  search_below (suc rounds) i le fuel = elim (Bool-cases (i == stop)) [
    | inl here ↦ inr (ground arith, λ j h. absurd (ground arith))
    | inr on ↦
        turn rounds i (λ j. (i + 1 ≤ j) × (j < stop)) _ (omega arith) on
          (λ j q u. elim (Bool-cases (i == j)) [
            | inl same ↦ inr (ground arith)
            | inr other ↦ inl (ground arith)
          ])
          (search_below rounds (i + 1) (ground arith) (omega arith))
  ]

  wrap_used :
      (rounds : ℕ)
      → used 0 ≡ true
      → search_fd (suc rounds) 256 stop used ≡ search_fd rounds 1 stop used
  unfolding search_fd
  wrap_used rounds u = ground arith

  -- The first leg, from the count up, and the wrap into the second.
  pub search_above :
      (rounds i : ℕ)
      → 1 ≤ stop
      → stop < i
      → i ≤ 256
      → 257 + stop ≤ i + rounds
      → Ends used (λ j. (j < 256) × ((i ≤ j) ⊎ (j < stop))) (search_fd rounds i stop used)
  unfolding search_fd
  search_above zero i some above le fuel = absurd (omega arith)
  search_above (suc rounds) i some above le fuel = elim (Bool-cases (i == 256)) [
    | inl last ↦ elim (Bool-cases (used 0)) [
      | inl u ↦
          let e : i ≡ 256 = ground arith in
          rw e (
            subst (Ends used (λ j. (j < 256) × ((256 ≤ j) ⊎ (j < stop)))) (sym (wrap_used rounds u))
              (Ends-mono (search_fd rounds 1 stop used)
                (λ j q. elim (Bool-cases (j == 0)) [
                  | inl first ↦ inr (ground arith)
                  | inr later ↦ inl (ground arith)
                ])
                (search_below rounds 1 some (omega arith))))
      | inr free ↦ inl (0, ground arith, omega arith, free)
    ]
    | inr before ↦
        turn rounds i (λ j. (j < 256) × ((i + 1 ≤ j) ⊎ (j < stop))) _ (ground arith) (ground arith)
          (λ j q u. elim (Bool-cases (i == j)) [
            | inl same ↦ inr (ground arith)
            | inr other ↦ inl (ground arith)
          ])
          (search_above rounds (i + 1) some (omega arith) (ground arith) (omega arith))
  ]
