-- ===== src/Radix/Word.antt =====
-- The key arithmetic of spdk_fs/radix_tree.c: the digit of a key at a level of the tree, and the
-- largest key that a tree of a given height can hold.
use native.Mathlib.Nat.{
  div-add-mod', mul-add-mod_self_right, mod-eq_of_lt, mod-lt, one-le-pow, mul-add-div_right,
  div-eq_of_lt, le-div_iff_mul-le, div-lt_iff_lt-mul,
}
use native.Mathlib.Numerals.{towards_suc}
use spdk_blob_top_fs.Prelude.{
  ℕ, zero, suc, ◌+◌, ◌-◌, ◌*◌, ◌/◌, ◌%◌, ◌^◌, ◌≤◌, ◌<◌, ◌≡◌, sym, ap, ◌∙◌, refl, Bool, true, false,
  not, ◌&&◌, arith, List, ltb, ltb→lt, leb, ◌==◌, if◌then◌else◌, ==_iff, Bool-cases, inl, inr, min,
  set, get_or, replicate, passes, passes_lem,
}

abbrev pub radix_tree_map_shift : ℕ
radix_tree_map_shift = 6

abbrev pub radix_tree_map_size : ℕ
radix_tree_map_size = 64

abbrev pub radix_tree_index_bits : ℕ
radix_tree_index_bits = 64

-- `RADIX_TREE_INDEX_BITS / RADIX_TREE_MAP_SHIFT + 2`
abbrev pub radix_tree_max_path : ℕ
radix_tree_max_path = 12

-- `(index >> shift) & RADIX_TREE_MAP_MASK`, where `shift` is `level * RADIX_TREE_MAP_SHIFT`.
unfoldable pub slot_index : ℕ → ℕ → ℕ
slot_index index level = index / 2 ^ (level * radix_tree_map_shift) % radix_tree_map_size

pub slot_index-lt : (index level : ℕ) → slot_index index level < 64
unfolding slot_index
slot_index-lt index level = omega arith

-- `~0UL >> (RADIX_TREE_INDEX_BITS - tmp - 1) >> 1`, and `~0UL` where `tmp` is too large.
unfoldable pub maxindex : ℕ → ℕ
maxindex height =
    let tmp : ℕ = height * radix_tree_map_shift in
    if leb radix_tree_index_bits tmp
    then 2 ^ 64 - 1
    else (2 ^ 64 - 1) / 2 ^ (radix_tree_index_bits - tmp - 1) / 2

-- `for (i = 0; i < ARRAY_SIZE(height_to_maxindex); i++) height_to_maxindex[i] = __maxindex(i);`
init_loop : (rounds i : ℕ) → List ℕ → List ℕ
init_loop zero i table = table
init_loop (suc rounds) i table = init_loop rounds (i + 1) (set table i (maxindex i))

-- `radix_tree_init` over the zeroed static array.
unfoldable pub height_to_maxindex : List ℕ
unfolding init_loop maxindex
height_to_maxindex = init_loop radix_tree_max_path 0 (replicate radix_tree_max_path 0)

unfoldable pub radix_tree_maxindex : ℕ → ℕ
unfolding height_to_maxindex
radix_tree_maxindex height = get_or height_to_maxindex height 0

-- One more than the largest key.
maxindex_table : passes (λ h. radix_tree_maxindex h + 1 == min (2 ^ (h * 6)) (2 ^ 64)) 12 ≡ true
unfolding radix_tree_maxindex height_to_maxindex passes
maxindex_table = refl

pub maxindex_lem : (h : ℕ) → h < 12 → radix_tree_maxindex h + 1 ≡ min (2 ^ (h * 6)) (2 ^ 64)
maxindex_lem h lt = (==_iff _ _).0 (passes_lem _ 12 maxindex_table h lt)

-- A tree of height 0 to 11 holds the 64-bit keys of `6 * height` bits.
pub lt-maxindex :
    (h index : ℕ)
    → h < 12
    → index < 2 ^ 64
    → ltb (radix_tree_maxindex h) index ≡ not (ltb index (2 ^ (h * 6)))
lt-maxindex h index lt small = ground (arith, maxindex_lem h lt)

pub maxindex_top : (index : ℕ) → index < 2 ^ 64 → ltb (radix_tree_maxindex 11) index ≡ false
maxindex_top index small = ground (arith, maxindex_lem 11 (omega arith))

pub pow-level : (h : ℕ) → 2 ^ (suc h * 6) ≡ 64 * 2 ^ (h * 6)
pow-level h =
    let e : suc h * 6 ≡ h * 6 + 6 = omega arith in
    ap (λ (t : ℕ). 2 ^ t) e ∙ simp towards_suc (omega arith)

-- One more digit of a remainder.
mod-level : (i b : ℕ) → 0 < b → i % (64 * b) ≡ i / b % 64 * b + i % b
mod-level i b h =
    let q = i / b in
    let low : q % 64 * b ≤ 63 * b = grind arith in
    let whole : q * b ≡ (q / 64 * 64 + q % 64) * b = ap (λ (t : ℕ). t * b) (omega arith) in
    let parts : i ≡ q / 64 * (64 * b) + (q % 64 * b + i % b) =
      omega (arith, whole, div-add-mod' i b) in
    ap (λ (t : ℕ). t % (64 * b)) parts
    ∙ mul-add-mod_self_right (q / 64) (64 * b) (q % 64 * b + i % b)
    ∙ mod-eq_of_lt (omega (arith, low, mod-lt i h))

-- Do two keys have the same digits below a level?
abbrev pub agree : ℕ → ℕ → ℕ → Bool
agree zero i j = true
agree (suc h) i j = (slot_index i h == slot_index j h) && agree h i j

agree_mod : (h i j : ℕ) → agree h i j ≡ true → i % 2 ^ (h * 6) ≡ j % 2 ^ (h * 6)
unfolding slot_index
agree_mod zero i j e = omega arith
agree_mod (suc h) i j e =
    let pos : 0 < 2 ^ (h * 6) = one-le-pow (h * 6) 2 (omega arith) in
    rw (pow-level h, mod-level i _ pos, mod-level j _ pos) (ground (arith, agree_mod h i j))

agree_refl : (h i : ℕ) → agree h i i ≡ true
agree_refl zero i = refl
agree_refl (suc h) i = ground (arith, agree_refl h i)

-- Keys in range are determined by their digits.
pub agree_lem : (h i j : ℕ) → i < 2 ^ (h * 6) → j < 2 ^ (h * 6) → agree h i j ≡ (i == j)
agree_lem h i j hi hj = elim (Bool-cases (agree h i j)) [
  | inl e ↦
      let same : i ≡ j = sym (mod-eq_of_lt hi) ∙ agree_mod h i j e ∙ mod-eq_of_lt hj in
      rw (e, (==_iff i j).1 same)
  | inr e ↦ elim (Bool-cases (i == j)) [
    | inl f ↦ rw ((==_iff i j).0 f) (rw (agree_refl h j, (==_iff j j).1 refl))
    | inr f ↦ rw (e, f)
  ]
]

digit-eq-zero : (j b : ℕ) → 0 < b → j < 64 * b → (0 == j / b % 64) ≡ ltb j b
digit-eq-zero j b pos lt = elim (Bool-cases (ltb j b)) [
  | inl small ↦ rw (small, div-eq_of_lt (ltb→lt j b small))
  | inr large ↦
      let above : 1 ≤ j / b = (le-div_iff_mul-le pos).1 (ground arith) in
      let below : j / b < 64 = (div-lt_iff_lt-mul pos).1 lt in rw large (ground arith)
]

-- A key whose digit at a level is 0 fits below that level.
pub slot_index-eq-zero :
    (h j : ℕ) → j < 2 ^ (suc h * 6) → (0 == slot_index j h) ≡ ltb j (2 ^ (h * 6))
unfolding slot_index
slot_index-eq-zero h j lt =
    digit-eq-zero j _ (one-le-pow (h * 6) 2 (omega arith)) (omega (arith, pow-level h))

pub pow-level_mono : (h : ℕ) → 2 ^ (h * 6) ≤ 2 ^ (suc h * 6)
pow-level_mono h = omega (arith, pow-level h)

-- A number below `b` is the remainder of what it is added to, and the rest is the quotient.
digits_of_parts : (b p q r s : ℕ) → r < b → s < b → p * b + r ≡ q * b + s → (p ≡ q) × (r ≡ s)
digits_of_parts b p q r s hr hs e =
    let quotient : (p * b + r) / b ≡ (q * b + s) / b = ap (λ (t : ℕ). t / b) e in
    let same : p ≡ q = omega (
      arith,
      quotient,
      mul-add-div_right {m = b} (omega arith) p r,
      mul-add-div_right {m = b} (omega arith) q s,
      div-eq_of_lt hr,
      div-eq_of_lt hs,
    ) in
    (same, omega (arith, ap (λ (t : ℕ). t * b) same))

agree_of_mod : (h i j : ℕ) → i % 2 ^ (h * 6) ≡ j % 2 ^ (h * 6) → agree h i j ≡ true
unfolding slot_index
agree_of_mod zero i j e = refl
agree_of_mod (suc h) i j e =
    let b = 2 ^ (h * 6) in
    let pos : 0 < b = one-le-pow (h * 6) 2 (omega arith) in
    let parts =
      digits_of_parts b (i / b % 64) (j / b % 64) (i % b) (j % b) (mod-lt i pos) (mod-lt j pos) (
        sym (mod-level i b pos)
        ∙ sym (ap (λ (t : ℕ). i % t) (pow-level h))
        ∙ e
        ∙ ap (λ (t : ℕ). j % t) (pow-level h)
        ∙ mod-level j b pos) in
    ground (arith, parts, agree_of_mod h i j)

-- A key made of a digit for one level and a key for the levels below.
pub key-join :
    (h i j : ℕ)
    → i < 64
    → j < 2 ^ (h * 6)
    → (i * 2 ^ (h * 6) + j < 2 ^ (suc h * 6))
      × (slot_index (i * 2 ^ (h * 6) + j) h ≡ i)
      × (agree h (i * 2 ^ (h * 6) + j) j ≡ true)
unfolding slot_index
key-join h i j hi hj =
    let b = 2 ^ (h * 6) in
    let pos : 0 < b = omega arith in
    let low : i * b ≤ 63 * b = grind arith in
    (
      omega (arith, pow-level h, low),
      ap (λ (t : ℕ). t % 64) (mul-add-div_right pos i j) ∙ omega (arith, div-eq_of_lt hj),
      agree_of_mod h _ j (mul-add-mod_self_right i b j),
    )
