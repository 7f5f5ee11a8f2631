-- ===== src/Radix/Gang/Parts.antt =====
-- What the rounds of `radix_tree_gang_lookup` of spdk_fs/radix_tree.c have collected.
use native.Mathlib.Nat.{div-eq_of_lt, pow-le-pow_right}
use spdk_blob_top_fs.Prelude.{
  ℕ, zero, suc, ◌+◌, ◌-◌, ◌*◌, ◌^◌, ◌≤◌, ◌<◌, ◌≡◌, sym, ap, ◌∙◌, subst, inl, inr, false, not, arith,
  Option, some, List, ◌++◌, length, length-append, ltb, ◌==◌, Bool-cases,
}
use spdk_blob_top_fs.Radix.{Slot, is_null, lookup_slot}
use spdk_blob_top_fs.Radix.Gang.{lookup_from, gang_loop}
use spdk_blob_top_fs.Radix.Gang.Blocks.{level_limit}
use spdk_blob_top_fs.Radix.Gang.Sweep.{lookup_from-IsSweep}
use spdk_blob_top_fs.Radix.Listing.{
  stored, take, take-append, take_all, stored-add, IsSweep, IsSweep-congr,
}
use spdk_blob_top_fs.Radix.Word.{radix_tree_maxindex, lt-maxindex}

pub small_power : (h : ℕ) → h < 6 → 2 ^ (suc h * 6) ≤ 2 ^ 36
small_power h lt = pow-le-pow_right {n = 2} (omega arith) {i = suc h * 6} {j = 36} (omega arith)

level_limit_top : (h index : ℕ) → index < 2 ^ (h * 6) → level_limit h index ≡ 2 ^ (h * 6)
level_limit_top h index lt = rw (div-eq_of_lt lt) (omega arith)

module _ {A : Type 0} where
  -- What is read after `index` keys, where all of them are below `limit`.
  module _ (f : ℕ → Option A) (first limit max_items : ℕ) where
    abbrev pub wanted : List A
    wanted = take max_items (stored f first (limit - first))

    pub record IsPart (cur : ℕ) (items : List A) : Type 0 where
      pub count : ℕ
      pub reached : cur ≡ first + count
      pub within : cur ≤ limit
      pub listed : items ≡ stored f first count
      pub bounded : length items ≤ max_items

    wanted_full :
        {cur : ℕ} (items : List A) → IsPart cur items → length items ≡ max_items → items ≡ wanted
    wanted_full {cur} items part full =
        let rest : limit - first ≡ part.count + (limit - cur) =
          omega (arith, part.reached, part.within) in
        sym (
          rw rest (
            ap (take max_items) (
              stored-add f first part.count (limit - cur) cur (omega (arith, part.reached))
              ∙ ap (λ t. t ++ stored f cur (limit - cur)) (sym part.listed))
            ∙ take-append max_items items (stored f cur (limit - cur)) full))

    wanted_end : (items : List A) → IsPart limit items → items ≡ wanted
    wanted_end items part =
        let all : limit - first ≡ part.count = omega (arith, part.reached) in
        sym (
          ap (take max_items) (ap (stored f first) all ∙ sym part.listed)
          ∙ take_all max_items items part.bounded)

    IsPart-append :
        (cur left : ℕ) (items : List A) (more : List A × ℕ)
        → length items + left ≡ max_items
        → IsPart cur items
        → IsSweep f cur limit left more
        → IsPart more.1 (items ++ more.0)
    IsPart-append cur left items more e part sweep = record {
      count = part.count + sweep.count;
      reached = omega (arith, part.reached, sweep.moved);
      within = sweep.within;
      listed =
          ap (λ t. t ++ more.0) part.listed
          ∙ ap (λ t. stored f first part.count ++ t) sweep.listed
          ∙ sym (stored-add f first part.count sweep.count cur (omega (arith, part.reached)));
      bounded = omega (arith, length-append items more.0, sweep.bounded, e);
    }

    lookup_from_lem :
        (beyond : ℕ → ℕ) (h : ℕ) (slot : Slot A (suc h)) (cur room : ℕ)
        → h < 6
        → limit ≡ 2 ^ (suc h * 6)
        → is_null slot ≡ false
        → ((k : ℕ) → k < limit → lookup_slot (suc h) k slot ≡ f k)
        → cur < limit
        → 0 < room
        → IsSweep f cur limit room (lookup_from beyond room (suc h) cur slot)
    lookup_from_lem beyond h slot cur room low top full found on pos =
        let one_more : room ≡ suc (room - 1) = omega arith in
        let end : level_limit (suc h) cur ≡ limit =
          level_limit_top (suc h) cur (omega (arith, top)) ∙ sym top in
        let small = small_power h low in
        rw one_more (
          IsSweep-congr (λ k. lookup_slot (suc h) k slot) cur (level_limit (suc h) cur)
            (suc (room - 1)) f limit _ (omega (arith, end)) (omega (arith, end))
            (λ k a b. found k (omega (arith, end)))
            (lookup_from-IsSweep beyond (room - 1) h cur slot low full
              (omega (arith, end, small, top))))

    pub gang_loop_lem :
        (beyond : ℕ → ℕ) (h : ℕ) (slot : Slot A (suc h)) (fuel cur : ℕ) (items : List A)
        → h < 6
        → limit ≡ 2 ^ (suc h * 6)
        → is_null slot ≡ false
        → ((k : ℕ) → k < limit → lookup_slot (suc h) k slot ≡ f k)
        → limit < cur + fuel
        → IsPart cur items
        → gang_loop beyond fuel max_items cur (record { height = suc h; rnode = slot }) items
          ≡ some wanted
    unfolding gang_loop
    gang_loop_lem beyond h slot zero cur items low top full found enough part =
        absurd (omega (arith, part.within))
    gang_loop_lem beyond h slot (suc fuel) cur items low top full found enough part =
        let small = small_power h low in
        let past : ltb (radix_tree_maxindex (suc h)) cur ≡ not (ltb cur limit) =
          rw top (lt-maxindex (suc h) cur (omega arith) (omega (arith, part.within, small))) in
        elim (Bool-cases (ltb (length items) max_items)) [
          | inl room ↦ elim (Bool-cases (ltb cur limit)) [
            | inl on ↦
                let sweep =
                  lookup_from_lem beyond h slot cur (max_items - length items) low top full found
                    (ground arith) (ground arith) in
                let more = lookup_from beyond (max_items - length items) (suc h) cur slot in
                let ahead : cur < more.1 = sweep.ahead (ground arith) in
                let on_again : (more.1 == 0) ≡ false = ground (arith, ahead) in
                rw (room, past, on, on_again)
                  (gang_loop_lem beyond h slot fuel more.1 (items ++ more.0) low top full found
                    (omega (arith, ahead))
                    (IsPart-append cur (max_items - length items) items more (ground arith) part
                      sweep))
            | inr off ↦
                let at_end : cur ≡ limit = ground (arith, part.within) in
                rw (room, past, off)
                  (ap some (wanted_end items (subst (λ t. IsPart t items) at_end part)))
          ]
          | inr no_room ↦
              rw no_room (ap some (wanted_full items part (ground (arith, part.bounded))))
        ]
