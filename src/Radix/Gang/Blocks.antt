-- ===== src/Radix/Gang/Blocks.antt =====
-- The blocks of keys that the slots of a node stand for, as `__lookup` of spdk_fs/radix_tree.c moves
-- through them.
use native.Mathlib.Nat.{div-add-mod', mod-lt, le-div_iff_mul-le, div-lt_iff_lt-mul, one-le-pow}
use spdk_blob_top_fs.Prelude.{
  ℕ, suc, ◌+◌, ◌-◌, ◌*◌, ◌/◌, ◌%◌, ◌^◌, ◌≤◌, ◌<◌, ◌≡◌, ap, ◌∙◌, arith, lt→ltb,
}
use spdk_blob_top_fs.Radix.Gang.{one_shl, next_block}
use spdk_blob_top_fs.Radix.Word.{slot_index, pow-level}

-- The quotient of the numbers between two multiples.
div_between : (p q k : ℕ) → 0 < p → q * p ≤ k → k < q * p + p → k / p ≡ q
div_between p q k pos low high =
    let above : q ≤ k / p = (le-div_iff_mul-le pos).1 low in
    let top : suc q * p ≡ q * p + p = grind arith in
    let below : k / p < suc q = (div-lt_iff_lt-mul pos).1 (omega (arith, top)) in omega arith

pub div_bounds : (p k : ℕ) → 0 < p → (k / p * p ≤ k) × (k < k / p * p + p)
div_bounds p k pos = omega (arith, div-add-mod' k p, mod-lt k pos)

pub same_block : (p k j : ℕ) → 0 < p → k ≤ j → j < (k / p + 1) * p → j / p ≡ k / p
same_block p k j pos low high =
    let bounds = div_bounds p k pos in
    div_between p (k / p) j pos (omega (arith, bounds)) (grind (arith, bounds))

pub next_block_lem :
    (p index : ℕ) → 0 < p → index / p * p + p < 2 ^ 64 → next_block p index ≡ index / p * p + p
next_block_lem p index pos small =
    let base : index - index % p ≡ index / p * p = omega (arith, div-add-mod' index p) in
    rw base (omega arith)

-- The block of keys after that of `index`.
pub record IsNext (p slot rounds index limit next : ℕ) : Type 0 where
  pub later : index < next
  pub under : next ≤ limit
  pub last : rounds ≡ 0 → next ≡ limit
  pub at : 0 < rounds → next / p ≡ suc slot
  pub block : (k : ℕ) → index ≤ k → k < next → k / p ≡ slot

pub multiple-IsNext :
    (p slot rounds index limit : ℕ)
    → 0 < p
    → index / p ≡ slot
    → limit ≡ (slot + suc rounds) * p
    → IsNext p slot rounds index limit (slot * p + p)
multiple-IsNext p slot rounds index limit pos at end =
    let here = div_bounds p index pos in
    let base : index / p * p ≡ slot * p = ap (λ (t : ℕ). t * p) at in
    let rest : limit ≡ slot * p + p + rounds * p = grind arith in
    record {
      later = omega (arith, here, base);
      under = omega (arith, rest);
      last = λ e.
          (let gone : rounds * p ≡ 0 = ap (λ (t : ℕ). t * p) e ∙ omega arith in
            omega (arith, rest, gone));
      at = λ _. div_between p (suc slot) (slot * p + p) pos (grind arith) (grind arith);
      block = λ k a b. div_between p slot k pos (omega (arith, here, base)) b;
    }

-- The end of the block of keys of `index` at a level.
abbrev pub level_limit : ℕ → ℕ → ℕ
level_limit h index = (index / 2 ^ (h * 6) + 1) * 2 ^ (h * 6)

div-div : (p k : ℕ) → 0 < p → k / (64 * p) ≡ k / p / 64
div-div p k pos =
    let here = div_bounds p k pos in
    let parts : k / p * p ≡ k / p / 64 * (64 * p) + k / p % 64 * p =
      (let whole : k / p ≡ k / p / 64 * 64 + k / p % 64 = omega arith in
        ap (λ (t : ℕ). t * p) whole ∙ grind arith) in
    let low : k / p % 64 * p ≤ 63 * p = grind arith in
    div_between (64 * p) (k / p / 64) k (omega arith) (omega (arith, here, parts))
      (omega (arith, here, parts, low))

-- The number of the first block of a node, among the blocks of its slots.
abbrev pub block_base : ℕ → ℕ → ℕ
block_base h index = index / 2 ^ (h * 6) / 64 * 64

pub level_limit-suc :
    (h index : ℕ) → level_limit (suc h) index ≡ (block_base h index + 64) * 2 ^ (h * 6)
level_limit-suc h index =
    rw (pow-level h, div-div (2 ^ (h * 6)) index (one-le-pow (h * 6) 2 (omega arith))) (grind arith)

pub slot_index_of_block :
    (h index k i : ℕ) → i < 64 → k / 2 ^ (h * 6) ≡ block_base h index + i → slot_index k h ≡ i
unfolding slot_index
slot_index_of_block h index k i lt e = omega (arith, e)

pub block_of_slot_index :
    (h index : ℕ) → index / 2 ^ (h * 6) ≡ block_base h index + slot_index index h
unfolding slot_index
block_of_slot_index h index = omega arith

pub one_shl_lem : (beyond : ℕ → ℕ) (h : ℕ) → h < 6 → one_shl beyond (h * 6) ≡ 2 ^ (h * 6)
one_shl_lem beyond h lt = ground (arith, lt→ltb (h * 6) 31)
