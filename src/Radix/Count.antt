-- ===== src/Radix/Count.antt =====
-- The slot counts of the nodes, and the well-formedness of a tree.
use spdk_blob_top_fs.Prelude.{
  ℕ, zero, suc, ◌+◌, ◌≤◌, ◌<◌, ◌≡◌, refl, ◌≢◌, true, false, arith, ◌==◌, if◌then◌else◌, Bool-cases,
  inl, inr,
}
use spdk_blob_top_fs.Radix.{Slot, null, item, node, inc, dec, write, is_null}

module _ {ℓ} {A : Type ℓ} where
  abbrev pub weight : {h : ℕ} → Slot A h → ℕ
  weight s = if is_null s then 0 else 1

  -- How many of the first `n` slots are not NULL.
  pub filled : {h : ℕ} → (ℕ → Slot A h) → ℕ → ℕ
  filled s zero = 0
  filled s (suc n) = weight (s n) + filled s n

  -- Each node counts its filled slots, and has one.
  abbrev pub IsCounted : {h : ℕ} → Slot A h → Type 0
  IsCounted null = Unit
  IsCounted (item a) = Unit
  IsCounted (node c s) = (c ≡ filled s 64) × (0 < c) × ((i : ℕ) → IsCounted (s i))

  module _ {h : ℕ} (s : ℕ → Slot A h) where
    filled-write_above : (n i : ℕ) (c : Slot A h) → n ≤ i → filled (write s i c) n ≡ filled s n
    unfolding filled
    filled-write_above zero i c le = refl
    filled-write_above (suc n) i c le = ground (arith, filled-write_above n i c)

    filled-write :
        (n i : ℕ) (c : Slot A h)
        → i < n
        → filled (write s i c) n + weight (s i) ≡ filled s n + weight c
    unfolding filled
    filled-write zero i c lt = elim lt [ ]
    filled-write (suc n) i c lt = ground (arith, filled-write n i c, filled-write_above n i c)

    pub filled-le : (n : ℕ) → filled s n ≤ n
    unfolding filled
    filled-le zero = omega arith
    filled-le (suc n) = ground (arith, filled-le n)

    filled_pos : (n j : ℕ) → j < n → is_null (s j) ≡ false → 0 < filled s n
    unfolding filled
    filled_pos zero j lt e = elim lt [ ]
    filled_pos (suc n) j lt e = ground (arith, filled_pos n j)

    filled_zero : (n j : ℕ) → j < n → filled s n ≡ 0 → is_null (s j) ≡ true
    unfolding filled
    filled_zero zero j lt e = elim lt [ ]
    filled_zero (suc n) j lt e = ground (arith, filled_zero n j)

    pub filled_witness : (n : ℕ) → 0 < filled s n → (j : ℕ) × (j < n) × (is_null (s j) ≡ false)
    unfolding filled
    filled_witness zero e = elim e [ ]
    filled_witness (suc n) e = elim (Bool-cases (is_null (s n))) [
      | inl gone ↦ let (j, lt, full) = filled_witness n (ground arith) in (j, omega arith, full)
      | inr full ↦ (n, omega arith, full)
    ]

  -- With one slot filled, every other slot is NULL.
  pub filled_one :
      {h : ℕ} (s : ℕ → Slot A h) (n i j : ℕ)
      → i < n
      → j < n
      → i ≢ j
      → filled s n ≡ 1
      → is_null (s i) ≡ false
      → is_null (s j) ≡ true
  filled_one s n i j hi hj ne one full =
      ground (arith, filled-write s n i null hi, filled_zero (write s i null) n j hj)

  pub eq_null : {h : ℕ} (s : Slot A h) → is_null s ≡ true → s ≡ null
  eq_null null e = refl
  eq_null (item a) e = cc
  eq_null (node c s) e = cc

  -- Filling a slot of a node whose count is right, empty or not.
  pub fill-IsCounted :
      {h : ℕ} (c : ℕ) (s : ℕ → Slot A h) (i : ℕ) (child : Slot A h)
      → i < 64
      → c ≡ filled s 64
      → ((j : ℕ) → IsCounted (s j))
      → IsCounted child
      → is_null child ≡ false
      → IsCounted (node (if is_null (s i) then inc c else c) (write s i child))
  fill-IsCounted c s i child lt count kids v full = (
    ground (arith, filled-write s 64 i child lt, filled-le s 64),
    ground
        (arith, filled-le s 64, filled-write s 64 i child lt, filled_pos (write s i child) 64 i lt),
    λ j. ground (arith, kids j),
  )

  module _ {h : ℕ} (c : ℕ) (s : ℕ → Slot A h) (k : ℕ) (lt : k < 64) (v : IsCounted (node c s))
      (full : is_null (s k) ≡ false) where
    pub replace-IsCounted :
        (child : Slot A h)
        → IsCounted child
        → is_null child ≡ false
        → IsCounted (node c (write s k child))
    replace-IsCounted child w kept =
        (ground (arith, filled-write s 64 k child lt, v.0), v.1, λ j. ground (arith, v.2 j))

    pub clear-IsCounted : (dec c == 0) ≡ false → IsCounted (node (dec c) (write s k null))
    clear-IsCounted more = (
      ground (arith, filled-le s 64, filled-write s 64 k null lt, v.0, v.1),
      ground arith,
      λ j. ground (arith, v.2 j),
    )

pub filled-null {ℓ} : (A : Type ℓ) (h n : ℕ) → filled {A = A} {h = h} (λ i. null) n ≡ 0
unfolding filled
filled-null A h zero = refl
filled-null A h (suc n) = omega (arith, filled-null A h n)
