-- ===== src/Fd/Take.antt =====
-- Taking a descriptor from the table of simple_fs/monopoly_ops.c, and giving one back.
use spdk_blob_top_fs.Prelude.{
  ℕ, suc, ◌+◌, ◌-◌, ◌%◌, ◌^◌, ◌≤◌, ◌<◌, ◌≡◌, refl, sym, subst, ap, ◌∙◌, ◌≢◌, ◌⊎◌, inl, inr, Bool,
  true, false, ◌||◌, arith, ◌==◌, Bool-cases, leb, leb→le,
}
use spdk_blob_top_fs.Fd.{
  FdTable, FdSearch, found, failed, mark, search_fd, take_fd, get_fd_from_table, return_fd_to_table,
}
use spdk_blob_top_fs.Fd.Count.{
  in_use, IsValid, in_use-le, in_use-mark, in_use-pos, in_use_but, in_use_all,
}
use spdk_blob_top_fs.Fd.Search.{search_above}

-- A free descriptor, or a table with at most one free descriptor, the one below the count.
abbrev Ended : (ℕ → Bool) → ℕ → FdSearch → Type 0
Ended used count r =
    ((fd : ℕ) × (r ≡ found fd) × (fd < 256) × (used fd ≡ false))
    ⊎ ((r ≡ failed) × (count ≡ 255) × (used 254 ≡ false))

below_or_above : (j count : ℕ) → j ≢ count - 1 → (count ≤ j) ⊎ (j < count - 1)
below_or_above j count ne = elim (Bool-cases (leb count j)) [
  | inl above ↦ inl (leb→le count j above)
  | inr below ↦ inr (ground arith)
]

module _ (used : ℕ → Bool) (count : ℕ) (counted : count ≡ in_use used 256) where
  empty_table : count ≡ 0 → (j : ℕ) → j < 256 → used j ≡ false
  empty_table e j lt = ground (arith, in_use-pos used 256 j lt)

  -- With one descriptor in use, not both 1 and 2 are.
  one_of_two : count ≡ 1 → used 1 ≡ true → used 2 ≡ false
  one_of_two e one = ground (
    arith,
    in_use-mark used 256 1 false (omega arith),
    in_use-pos (mark used 1 false) 256 2 (omega arith),
  )

  search_from_zero :
      (rounds : ℕ) → used 0 ≡ false → search_fd (suc rounds) 0 (2 ^ 32 - 1) used ≡ found 0
  unfolding search_fd
  search_from_zero rounds free = ground arith

  search_from_one :
      (rounds : ℕ)
      → (used 1 ≡ true → used 2 ≡ false)
      → Ended used 1 (search_fd (suc (suc rounds)) 1 0 used)
  unfolding search_fd
  search_from_one rounds two = elim (Bool-cases (used 1)) [
    | inl u ↦ inl (2, ground arith, omega arith, two u)
    | inr free ↦ inl (1, ground arith, omega arith, free)
  ]

  -- Everything but the descriptor below the count is in use.
  full_but_last :
      2 ≤ count
      → count < 256
      → ((j : ℕ) → (j < 256) × ((count ≤ j) ⊎ (j < count - 1)) → used j ≡ true)
      → (count ≡ 255) × (used 254 ≡ false)
  full_but_last some lt all =
      let rest : (j : ℕ) → j < 256 → j ≢ count - 1 → used j ≡ true =
        λ j hj ne. all j (hj, below_or_above j count ne) in
      let most = in_use_but used 256 (count - 1) rest in
      let last : count ≡ 255 = omega (arith, most) in
      (
        last,
        elim (Bool-cases (used 254)) [
          | inl u ↦
              let every = in_use_all used 256 (λ j hj. elim (Bool-cases (j == 254)) [
                | inl here ↦ ground arith
                | inr other ↦ rest j hj (λ e. absurd (ground arith))
              ]) in
              absurd (omega (arith, every))
          | inr free ↦ free
        ],
      )

  search-Ended :
      count < 256 → Ended used count (search_fd 258 count ((count + 2 ^ 32 - 1) % 2 ^ 32) used)
  search-Ended lt = elim (Bool-cases (leb 2 count)) [
    | inl some ↦
        let stop : (count + 2 ^ 32 - 1) % 2 ^ 32 ≡ count - 1 = ground arith in
        let two = leb→le 2 count some in
        rw stop
          (elim (search_above used (count - 1) (omega arith) 258 count (omega arith) (omega arith)
            (omega arith) (omega arith)) [
              | inl h ↦ inl h
              | inr (e, all) ↦ let last = full_but_last two lt all in inr (e, last.0, last.1)
            ])
    | inr few ↦ elim (Bool-cases (count == 0)) [
      | inl none ↦
          let e : count ≡ 0 = ground arith in
          let free = empty_table e 0 (omega arith) in
          rw e (inl (0, search_from_zero 257 free, omega arith, free))
      | inr one ↦ let e : count ≡ 1 = ground arith in rw e (search_from_one 256 (one_of_two e))
    ]
  ]

found-injective : {a b : ℕ} → found a ≡ found b → a ≡ b
found-injective e = cc

found≢failed : {a : ℕ} → found a ≢ failed
found≢failed e = cc

module _ {F : Type 0} where
  -- A descriptor was free, and is now the one more that is in use.
  pub record IsTaken (t : FdTable F) (fd : ℕ) (t' : FdTable F) : Type 0 where
    pub in_range : fd < 256
    pub free : t.used fd ≡ false
    pub now : (j : ℕ) → t'.used j ≡ ((fd == j) || t.used j)
    pub more : t'.file_count ≡ t.file_count + 1
    pub files : t'.open_files ≡ t.open_files
    pub valid : IsValid t'

  mark-IsTaken :
      (t : FdTable F) (fd : ℕ)
      → IsValid t
      → fd < 256
      → t.used fd ≡ false
      → IsTaken t fd (take_fd t (found fd)).1
  mark-IsTaken t fd v lt free = record {
    in_range = lt;
    free = free;
    now = λ j. ground arith;
    more = ground (arith, v.counted, in_use-le t.used 256);
    files = refl;
    valid = record {
      counted = ground (
        arith,
        v.counted,
        in_use-mark t.used 256 fd true lt,
        in_use-le (mark t.used fd true) 256,
      );
    };
  }

  -- For a table whose count is the number of descriptors in use, the search ends within its turns:
  -- it takes a free descriptor below 256, raises the count by one, changes no other descriptor and
  -- keeps the count right; or it fails and changes nothing, and then either all 256 are in use, or
  -- 255 are in use and the free one is 254.
  pub get_fd_cases :
      (t : FdTable F)
      → IsValid t
      → ((fd : ℕ) × (t' : FdTable F) × (get_fd_from_table t ≡ (found fd, t')) × IsTaken t fd t')
        ⊎ ((get_fd_from_table t ≡ (failed, t))
            × ((t.file_count ≡ 256) ⊎ (t.file_count ≡ 255) × (t.used 254 ≡ false)))
  unfolding get_fd_from_table
  get_fd_cases t v = elim (Bool-cases (leb 256 t.file_count)) [
    | inl full ↦ inr (
      ground arith,
      inl (omega (arith, leb→le 256 t.file_count full, v.counted, in_use-le t.used 256)),
    )
    | inr room ↦ elim (search-Ended t.used t.file_count v.counted (ground arith)) [
      | inl (fd, e, lt, free) ↦
          inl (fd, (take_fd t (found fd)).1, rw (room, e), mark-IsTaken t fd v lt free)
      | inr (e, count, free) ↦ inr (rw (room, e), inr (count, free))
    ]
  ]

  -- Giving back a descriptor below 256 that is in use keeps the count equal to the number of
  -- descriptors in use.
  pub return-IsValid :
      (t : FdTable F) (fd : ℕ)
      → IsValid t
      → fd < 256
      → t.used fd ≡ true
      → IsValid (return_fd_to_table t fd)
  unfolding return_fd_to_table
  return-IsValid t fd v lt u = record {
    counted = ground (
      arith,
      v.counted,
      in_use-mark t.used 256 fd false lt,
      in_use-le t.used 256,
      in_use-pos t.used 256 fd lt,
    );
  }

  -- Giving back what was taken restores the table.
  pub return-free : (t : FdTable F) (fd : ℕ) → (return_fd_to_table t fd).used fd ≡ false
  unfolding return_fd_to_table
  return-free t fd = ground arith

  -- As `take-return` below, whatever file was put in the slot.
  pub given_back :
      (t t' t'' : FdTable F) (fd : ℕ)
      → IsValid t
      → IsTaken t fd t'
      → t''.file_count ≡ t'.file_count
      → t''.used ≡ t'.used
      → ((return_fd_to_table t'' fd).file_count ≡ t.file_count)
        × ((j : ℕ) → (return_fd_to_table t'' fd).used j ≡ t.used j)
  unfolding return_fd_to_table
  given_back t t' t'' fd v taken count used = (
    ground (arith, count, taken.more, v.counted, in_use-le t.used 256),
    λ j. rw (used) (ground (arith, taken.now j, taken.free)),
  )

  -- For a valid table, a descriptor that was taken and is given back leaves the count and the
  -- descriptors in use as they were.
  take-return :
      (t t' : FdTable F) (fd : ℕ)
      → IsValid t
      → get_fd_from_table t ≡ (found fd, t')
      → ((return_fd_to_table t' fd).file_count ≡ t.file_count)
        × ((j : ℕ) → (return_fd_to_table t' fd).used j ≡ t.used j)
  take-return t t' fd v got = elim (get_fd_cases t v) [
    | inl (fd', t'', e, taken) ↦
        let same : fd' ≡ fd = found-injective (ap (λ p. p.0) (sym e ∙ got)) in
        let same' : t'' ≡ t' = ap (λ p. p.1) (sym e ∙ got) in
        let taken' : IsTaken t fd t' =
          subst (λ (x : ℕ). IsTaken t x t') same (subst (IsTaken t fd') same' taken) in
        given_back t t' t' fd v taken' refl refl
    | inr (e, why) ↦ absurd (found≢failed (ap (λ p. p.0) (sym got ∙ e)))
  ]

  -- Giving back a descriptor that is not in use makes the count wrong.
  return_twice :
      (t : FdTable F) (fd : ℕ)
      → IsValid t
      → fd < 256
      → t.used fd ≡ false
      → ¬ IsValid (return_fd_to_table t fd)
  unfolding return_fd_to_table
  return_twice t fd v lt free w =
      ground (arith, v.counted, w.counted, in_use-mark t.used 256 fd false lt, in_use-le t.used 256)
