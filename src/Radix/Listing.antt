-- ===== src/Radix/Listing.antt =====
-- The items that a map of keys holds, in ascending order of keys, and what a scan of them collects.
use spdk_blob_top_fs.Prelude.{
  ℕ, zero, suc, ◌+◌, ◌-◌, ◌≤◌, ◌<◌, ◌≡◌, refl, sym, ap, ◌∙◌, arith, Option, none, some, List, [],
  ◌∷◌, ◌++◌, length,
}

module _ {ℓ} {A : Type ℓ} where
  abbrev pub cons_some : Option A → List A → List A
  cons_some none items = items
  cons_some (some a) items = a ∷ items

  -- The items at the `n` keys from `lo`.
  pub stored : (ℕ → Option A) → (lo n : ℕ) → List A
  stored f lo zero = []
  stored f lo (suc n) = cons_some (f lo) (stored f (lo + 1) n)

  abbrev pub take : ℕ → List A → List A
  take zero items = []
  take (suc n) [] = []
  take (suc n) (a ∷ items) = a ∷ take n items

module _ {A : Type 0} where
  pub stored_zero : (f : ℕ → Option A) (lo : ℕ) → stored f lo 0 ≡ []
  unfolding stored
  stored_zero f lo = refl

  pub stored_one : (f : ℕ → Option A) (lo : ℕ) → stored f lo 1 ≡ cons_some (f lo) []
  unfolding stored
  stored_one f lo = refl

  pub take-append : (n : ℕ) (xs ys : List A) → length xs ≡ n → take n (xs ++ ys) ≡ xs
  take-append zero [] ys e = refl
  take-append (suc n) [] ys e = absurd (omega (arith, e))
  take-append zero (x ∷ xs) ys e = absurd (omega (arith, e))
  take-append (suc n) (x ∷ xs) ys e = ap (λ t. x ∷ t) (take-append n xs ys (omega (arith, e)))

  pub take_all : (n : ℕ) (xs : List A) → length xs ≤ n → take n xs ≡ xs
  take_all zero [] le = refl
  take_all (suc n) [] le = refl
  take_all zero (x ∷ xs) le = absurd (omega arith)
  take_all (suc n) (x ∷ xs) le = ap (λ t. x ∷ t) (take_all n xs (omega arith))

  cons_some-append : (o : Option A) (xs ys : List A) → cons_some o (xs ++ ys) ≡ cons_some o xs ++ ys
  cons_some-append none xs ys = refl
  cons_some-append (some a) xs ys = refl

  pub stored-add :
      (f : ℕ → Option A) (lo n m mid : ℕ)
      → lo + n ≡ mid
      → stored f lo (n + m) ≡ stored f lo n ++ stored f mid m
  unfolding stored
  stored-add f lo zero m mid e =
      let none_left : 0 + m ≡ m = omega arith in
      let same : lo ≡ mid = omega arith in rw (none_left, same) refl
  stored-add f lo (suc n) m mid e =
      let one_more : suc n + m ≡ suc (n + m) = omega arith in
      rw one_more (
        ap (cons_some (f lo)) (stored-add f (lo + 1) n m mid (omega arith))
        ∙ cons_some-append (f lo) (stored f (lo + 1) n) (stored f mid m))

  pub stored_congr :
      (f g : ℕ → Option A) (lo n : ℕ)
      → ((k : ℕ) → lo ≤ k → k < lo + n → f k ≡ g k)
      → stored f lo n ≡ stored g lo n
  unfolding stored
  stored_congr f g lo zero same = refl
  stored_congr f g lo (suc n) same = rw (same lo (omega arith) (omega arith)) (
      ap (cons_some (g lo))
        (stored_congr f g (lo + 1) n (λ k a b. same k (omega arith) (omega arith))))

  pub stored_none :
      (f : ℕ → Option A) (lo n : ℕ)
      → ((k : ℕ) → lo ≤ k → k < lo + n → f k ≡ none)
      → stored f lo n ≡ []
  unfolding stored
  stored_none f lo zero empty = refl
  stored_none f lo (suc n) empty =
      rw (empty lo (omega arith) (omega arith))
        (stored_none f (lo + 1) n (λ k a b. empty k (omega arith) (omega arith)))

  -- A scan from the key `lo` up to `limit` at most: it reports all the items between `lo` and the key
  -- where it stops, at most `room` of them.
  pub record IsSweep (f : ℕ → Option A) (lo limit room : ℕ) (r : List A × ℕ) : Type 0 where
    pub count : ℕ
    pub moved : r.1 ≡ lo + count
    pub within : r.1 ≤ limit
    pub ahead : lo < limit → lo < r.1
    pub listed : r.0 ≡ stored f lo count
    pub bounded : length r.0 ≤ room

  module _ (f : ℕ → Option A) (lo limit room : ℕ) where
    -- A scan that finds nothing.
    pub IsSweep-none :
        lo ≤ limit
        → ((k : ℕ) → lo ≤ k → k < limit → f k ≡ none)
        → IsSweep f lo limit room ([], limit)
    IsSweep-none le empty = record {
      count = limit - lo;
      moved = omega arith;
      within = omega arith;
      ahead = λ lt. lt;
      listed = sym (stored_none f lo (limit - lo) (λ k a b. empty k a (omega arith)));
      bounded = omega arith;
    }

    -- A scan that starts over keys with nothing.
    pub IsSweep-skip :
        (next : ℕ) (r : List A × ℕ)
        → lo < next
        → ((k : ℕ) → lo ≤ k → k < next → f k ≡ none)
        → IsSweep f next limit room r
        → IsSweep f lo limit room r
    IsSweep-skip next r lt empty sweep = record {
      count = next - lo + sweep.count;
      moved = omega (arith, sweep.moved);
      within = sweep.within;
      ahead = λ _. omega (arith, sweep.moved);
      listed =
          sweep.listed
          ∙ sym (
              stored-add f lo (next - lo) sweep.count next (omega arith)
              ∙ ap (λ t. t ++ stored f next sweep.count)
                  (stored_none f lo (next - lo) (λ k a b. empty k a (omega arith))));
      bounded = sweep.bounded;
    }

    pub IsSweep-item :
        (a : A) (r : List A × ℕ)
        → f lo ≡ some a
        → IsSweep f (lo + 1) limit room r
        → IsSweep f lo limit (suc room) (a ∷ r.0, r.1)
    unfolding stored
    IsSweep-item a r e sweep = record {
      count = suc sweep.count;
      moved = omega (arith, sweep.moved);
      within = sweep.within;
      ahead = λ _. omega (arith, sweep.moved);
      listed = rw e (ap (λ t. a ∷ t) sweep.listed);
      bounded = omega (arith, sweep.bounded);
    }

    -- A scan that ends with its first item.
    pub IsSweep-one :
        (a : A) → f lo ≡ some a → lo < limit → IsSweep f lo limit (suc room) (a ∷ [], lo + 1)
    unfolding stored
    IsSweep-one a e lt = record {
      count = 1;
      moved = omega arith;
      within = omega arith;
      ahead = λ _. omega arith;
      listed = rw e refl;
      bounded = omega arith;
    }

    -- Two maps with the same items below a bound.
    pub IsSweep-congr :
        (g : ℕ → Option A) (wider : ℕ) (r : List A × ℕ)
        → limit ≤ wider
        → lo < limit
        → ((k : ℕ) → lo ≤ k → k < limit → f k ≡ g k)
        → IsSweep f lo limit room r
        → IsSweep g lo wider room r
    IsSweep-congr g wider r le lt same sweep = record {
      count = sweep.count;
      moved = sweep.moved;
      within = omega (arith, sweep.within);
      ahead = λ _. sweep.ahead lt;
      listed =
          sweep.listed
          ∙ stored_congr f g lo sweep.count
              (λ k a b. same k a (omega (arith, sweep.moved, sweep.within)));
      bounded = sweep.bounded;
    }
