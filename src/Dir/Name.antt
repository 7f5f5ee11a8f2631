-- ===== src/Dir/Name.antt =====
-- What `strcmp` finds in a name field that `memcpy` filled (simple_fs/monopoly_ops.c, add_dirent).
use mathlib.Core.Logic.{◌↔◌}
use spdk_blob_top_fs.Prelude.{
  ℕ, suc, ◌+◌, ◌<◌, ◌≡◌, sym, ap, ◌∙◌, ◌≢◌, true, false, List, [], ◌∷◌, arith, length, get_or,
}
use spdk_blob_top_fs.Dir.{str_eq, copy_name}

-- The bytes of a C string.
abbrev pub IsString : List ℕ → Type 0
IsString [] = Unit
IsString (c ∷ s) = (c ≢ 0) × IsString s

-- The bytes from `i` on are those of `s`.
abbrev Spells : (ℕ → ℕ) → ℕ → List ℕ → Type 0
Spells bytes i [] = Unit
Spells bytes i (c ∷ s) = (bytes i ≡ c) × Spells bytes (suc i) s

Spells-get_or :
    (bytes : ℕ → ℕ) (i : ℕ) (s : List ℕ)
    → ((k : ℕ) → k < length s → bytes (i + k) ≡ get_or s k 0)
    → Spells bytes i s
Spells-get_or bytes i [] h = tt
Spells-get_or bytes i (c ∷ s) h = (
  ap bytes (omega arith) ∙ h 0 (omega arith),
  Spells-get_or bytes (suc i) s (λ k lt. ap bytes (omega arith) ∙ h (suc k) (omega arith)),
)

-- A terminated copy of `s` is equal to `s` alone.
str_eq-true :
    (bytes : ℕ → ℕ) (i : ℕ) (s t : List ℕ)
    → Spells bytes i s
    → bytes (i + length s) ≡ 0
    → IsString s
    → IsString t
    → (str_eq bytes i t ≡ true) ↔ (s ≡ t)
unfolding str_eq
str_eq-true bytes i [] [] p e hs ht =
    let here : bytes i ≡ 0 = ap bytes (omega arith) ∙ e in ground arith
str_eq-true bytes i [] (d ∷ t) p e hs ht =
    let here : bytes i ≡ 0 = ap bytes (omega arith) ∙ e in ground arith
str_eq-true bytes i (c ∷ s) [] p e hs ht = ground arith
str_eq-true bytes i (c ∷ s) (d ∷ t) p e hs ht =
    let rest = str_eq-true bytes (suc i) s t p.1 (ap bytes (omega arith) ∙ e) hs.1 ht.1 in
    ground (arith, rest)

-- An unterminated one is not equal to it.
str_eq-false :
    (bytes : ℕ → ℕ) (i : ℕ) (s : List ℕ) → bytes (i + length s) ≢ 0 → str_eq bytes i s ≡ false
unfolding str_eq
str_eq-false bytes i [] ne =
    let here : bytes i ≢ 0 = λ z. ne (ap bytes (omega arith) ∙ z) in ground arith
str_eq-false bytes i (c ∷ s) ne =
    let rest = str_eq-false bytes (suc i) s (λ z. ne (ap bytes (omega arith) ∙ z)) in
    ground (arith, rest)

copy_name-get :
    (s : List ℕ) (bytes : ℕ → ℕ) (k : ℕ)
    → length s < 512
    → k < length s
    → copy_name s bytes k ≡ get_or s k 0
unfolding copy_name
copy_name-get s bytes k small lt = ground arith

copy_name-end :
    (s : List ℕ) (bytes : ℕ → ℕ) → length s < 512 → copy_name s bytes (length s) ≡ bytes (length s)
unfolding copy_name
copy_name-end s bytes small = ground arith

pub copy_name-str_eq :
    (s t : List ℕ) (bytes : ℕ → ℕ)
    → IsString s
    → IsString t
    → length s < 512
    → bytes (length s) ≡ 0
    → (str_eq (copy_name s bytes) 0 t ≡ true) ↔ (s ≡ t)
copy_name-str_eq s t bytes hs ht small e =
    let copied = copy_name s bytes in
    let spelt =
      Spells-get_or copied 0 s
        (λ k lt. ap copied (omega arith) ∙ copy_name-get s bytes k small lt) in
    str_eq-true copied 0 s t spelt (ap copied (omega arith) ∙ copy_name-end s bytes small ∙ e) hs ht

pub copy_name_stale :
    (s : List ℕ) (bytes : ℕ → ℕ)
    → length s < 512
    → bytes (length s) ≢ 0
    → str_eq (copy_name s bytes) 0 s ≡ false
copy_name_stale s bytes small ne =
    str_eq-false (copy_name s bytes) 0 s
      (λ z. ne (sym (copy_name-end s bytes small) ∙ ap (copy_name s bytes) (omega arith) ∙ z))
