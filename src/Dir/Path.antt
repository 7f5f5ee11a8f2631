-- ===== src/Dir/Path.antt =====
-- `get_next_part` of simple_fs/dir.c takes a path apart.
use mathlib.Core.Path.{ap₂}
use spdk_blob_top_fs.Prelude.{
  ℕ, zero, suc, ◌≤◌, ◌<◌, ◌≡◌, ◌≢◌, ◌⊎◌, inl, inr, refl, ap, ◌∙◌, List, [], ◌∷◌, ◌++◌, arith, ◌==◌,
  if◌then◌else◌, Bool-cases, length, length-append, replicate, leb, leb→le, ==_iff,
}
use spdk_blob_top_fs.Dir.{
  Part, part, end, too_long, skip_slashes, copy_part, first_part, get_next_part,
}

-- No byte is a slash.
abbrev pub IsPlain : List ℕ → Type 0
IsPlain [] = Unit
IsPlain (c ∷ s) = (c ≢ b'/') × IsPlain s

-- What follows a part: the end of the path, or a slash.
pub data IsStop : List ℕ → Type 0 where
  stop_end : IsStop []
  stop_slash : (src : List ℕ) → IsStop (b'/' ∷ src)

skip_slashes_all :
    (k : ℕ) (src : List ℕ) → skip_slashes (replicate k b'/' ++ src) ≡ skip_slashes src
unfolding skip_slashes
skip_slashes_all zero src = refl
skip_slashes_all (suc k) src = skip_slashes_all k src

copy_part_all :
    (room : ℕ) (s rest : List ℕ)
    → IsPlain s
    → length s ≤ room
    → IsStop rest
    → copy_part room (s ++ rest) ≡ part s rest
unfolding copy_part
copy_part_all zero [] [] p le stop_end = refl
copy_part_all zero [] (b ∷ rest) p le (stop_slash _) = refl
copy_part_all (suc room) [] [] p le stop_end = refl
copy_part_all (suc room) [] (b ∷ rest) p le (stop_slash _) = refl
copy_part_all zero (c ∷ s) rest p le stop = absurd (omega arith)
copy_part_all (suc room) (c ∷ s) rest p le stop = ground (arith, copy_part_all room s rest p.1)

copy_part-too_long :
    (room : ℕ) (s rest : List ℕ)
    → IsPlain s
    → room < length s
    → copy_part room (s ++ rest) ≡ too_long
unfolding copy_part
copy_part-too_long room [] rest p lt = absurd (omega arith)
copy_part-too_long zero (c ∷ s) rest p lt = ground arith
copy_part-too_long (suc room) (c ∷ s) rest p lt = ground (arith, copy_part-too_long room s rest p.1)

skip_plain : (c : ℕ) (src : List ℕ) → c ≢ b'/' → skip_slashes (c ∷ src) ≡ c ∷ src
unfolding skip_slashes
skip_plain c src ne = ground arith

skip_slashes-end : (k : ℕ) → skip_slashes (replicate k b'/') ≡ []
unfolding skip_slashes
skip_slashes-end zero = refl
skip_slashes-end (suc k) = skip_slashes-end k

-- A part behind slashes.
pub get_next_part_lem :
    (k c : ℕ) (s rest : List ℕ)
    → IsPlain (c ∷ s)
    → IsStop rest
    → get_next_part (replicate k b'/' ++ ((c ∷ s) ++ rest))
      ≡ (if leb (length (c ∷ s)) 512 then part (c ∷ s) rest else too_long)
unfolding get_next_part
get_next_part_lem k c s rest p stop =
    ap first_part (skip_slashes_all k ((c ∷ s) ++ rest) ∙ skip_plain c (s ++ rest) p.0)
    ∙ elim (Bool-cases (leb (length (c ∷ s)) 512)) [
      | inl fits ↦ rw fits (copy_part_all 512 (c ∷ s) rest p (leb→le _ 512 fits) stop)
      | inr over ↦ rw over (copy_part-too_long 512 (c ∷ s) rest p (ground arith))
    ]

get_next_part-end : (k : ℕ) → get_next_part (replicate k b'/') ≡ end
unfolding get_next_part
get_next_part-end k = ap first_part (skip_slashes-end k)

-- The slash-free bytes that a list begins with.
prefix-IsPlain :
    (src : List ℕ) → (s : List ℕ) × (rest : List ℕ) × (src ≡ s ++ rest) × IsPlain s × IsStop rest
prefix-IsPlain [] = ([], [], refl, tt, stop_end)
prefix-IsPlain (c ∷ src) = elim (Bool-cases (c == b'/')) [
  | inl slash ↦
      ([], b'/' ∷ src, ap (λ (x : ℕ). x ∷ src) ((==_iff c b'/').0 slash), tt, stop_slash src)
  | inr plain ↦
      let (s, rest, e, p, stop) = prefix-IsPlain src in
      (c ∷ s, rest, ap (λ (l : List ℕ). c ∷ l) e, (ground arith, p), stop)
]

-- The outcomes of `get_next_part`.
pub data Outcome (src : List ℕ) : Part → Type 0 where
  at_end : (k : ℕ) → src ≡ replicate k b'/' → Outcome src end
  at_part :
      (k : ℕ) (s rest : List ℕ)
      → src ≡ replicate k b'/' ++ (s ++ rest)
      → s ≢ []
      → IsPlain s
      → IsStop rest
      → length s ≤ 512
      → Outcome src (part s rest)
  at_long :
      (k : ℕ) (s rest : List ℕ)
      → src ≡ replicate k b'/' ++ (s ++ rest)
      → IsPlain s
      → IsStop rest
      → 512 < length s
      → Outcome src too_long

outcome_of_parts :
    (k c : ℕ) (s rest src : List ℕ)
    → src ≡ replicate k b'/' ++ ((c ∷ s) ++ rest)
    → IsPlain (c ∷ s)
    → IsStop rest
    → Outcome src (get_next_part src)
outcome_of_parts k c s rest src e p stop =
    let got = ap get_next_part e ∙ get_next_part_lem k c s rest p stop in
    elim (Bool-cases (leb (length (c ∷ s)) 512)) [
      | inl fits ↦ rw (got, fits) (at_part k (c ∷ s) rest e (λ f. cc) p stop (leb→le _ 512 fits))
      | inr over ↦ rw (got, over) (at_long k (c ∷ s) rest e p stop (ground arith))
    ]

-- The slashes that a path begins with, and what follows them.
after_slashes :
    (src : List ℕ)
    → ((k : ℕ) × (src ≡ replicate k b'/'))
      ⊎ ((k : ℕ) × (c : ℕ) × (l : List ℕ) × (src ≡ replicate k b'/' ++ (c ∷ l)) × (c ≢ b'/'))
after_slashes [] = inl (0, refl)
after_slashes (c ∷ src) = elim (Bool-cases (c == b'/')) [
  | inl slash ↦
      let e = (==_iff c b'/').0 slash in
      elim (after_slashes src) [
        | inl (k, f) ↦ inl (suc k, ap₂ (λ (x : ℕ) (l : List ℕ). x ∷ l) e f)
        | inr (k, d, l, f, ne) ↦ inr (suc k, d, l, ap₂ (λ (x : ℕ) (l : List ℕ). x ∷ l) e f, ne)
      ]
  | inr plain ↦ inr (0, c, src, refl, ground arith)
]

-- `get_next_part` returns the end for a path of slashes alone; the first slash-free stretch behind
-- the slashes, of at most 512 bytes, with what follows it, which is empty or begins with a slash;
-- or -1 where that stretch is longer.
pub get_next_part-Outcome : (src : List ℕ) → Outcome src (get_next_part src)
get_next_part-Outcome src = elim (after_slashes src) [
  | inl (k, e) ↦ rw (ap get_next_part e ∙ get_next_part-end k) (at_end k e)
  | inr (k, c, l, e, ne) ↦
      let (s, rest, f, p, stop) = prefix-IsPlain l in
      outcome_of_parts k c s rest src (e ∙ ap (λ (l : List ℕ). replicate k b'/' ++ (c ∷ l)) f)
        (ne, p) stop
]

Outcome-shorter :
    {src : List ℕ} {p : Part} (s rest : List ℕ)
    → Outcome src p
    → p ≡ part s rest
    → length rest < length src
Outcome-shorter s rest (at_end k e) q = cc
Outcome-shorter s rest (at_part k s' rest' e ne plain stop fits) q = ground (
  arith,
  ap length e,
  length-append (replicate k b'/') (s' ++ rest'),
  length-append s' rest',
  positive s' ne,
  ap length (rest_of q),
)
  where
    positive : (l : List ℕ) → l ≢ [] → 0 < length l
    positive [] ne = absurd (ne refl)
    positive (x ∷ l) ne = omega arith

    rest_of : part s' rest' ≡ part s rest → rest' ≡ rest
    rest_of q = cc
Outcome-shorter s rest (at_long k s' rest' e plain stop over) q = cc

-- What is left of the path is shorter, so taking parts in turn comes to an end.
pub rest_shorter :
    (src s rest : List ℕ) → get_next_part src ≡ part s rest → length rest < length src
rest_shorter src s rest e = Outcome-shorter s rest (get_next_part-Outcome src) e
