-- ===== src/ContestFormat/Labels.antt =====
-- judge/contest_format/icpc.py: the label of a problem can be read back.
use cpcjudge_site.Base.{
  ℕ, zero, suc, ◌+◌, ◌-◌, ◌*◌, ◌/◌, ◌≤◌, ◌≡◌, refl, sym, ap, ◌∙◌, subst, List, [], ◌∷◌, ◌++◌, All,
  arith,
}
use cpcjudge_site.ContestFormat.{letters, get_label_for_problem}
use mathlib.Core.List.{reverse, reverse-cons}

-- the code of a letter from A to Z
abbrev pub IsLetter : ℕ → Type 0
IsLetter c = (65 ≤ c) × (c ≤ 90)

-- a label read from left to right, A for 1 and Z for 26
abbrev pub read_from : ℕ → List ℕ → ℕ
read_from seen [] = seen
read_from seen (c ∷ cs) = read_from (26 * seen + (c - 64)) cs

-- the same number, with the last letter first
value : List ℕ → ℕ
value [] = 0
value (c ∷ cs) = 26 * value cs + (c - 64)

read_from-append :
    (cs : List ℕ) (seen c : ℕ) → read_from seen (cs ++ c ∷ []) ≡ 26 * read_from seen cs + (c - 64)
read_from-append [] seen c = refl
read_from-append (d ∷ cs) seen c = read_from-append cs (26 * seen + (d - 64)) c

read_from-reverse : (cs : List ℕ) → read_from 0 (reverse cs) ≡ value cs
unfolding value
read_from-reverse [] = refl
read_from-reverse (c ∷ cs) =
    ap (read_from 0) (reverse-cons c cs)
    ∙ read_from-append (reverse cs) 0 c
    ∙ ap (λ n. 26 * n + (c - 64)) (read_from-reverse cs)

value-letters : (fuel index : ℕ) → index ≤ fuel → value (letters fuel index) ≡ index
unfolding value letters
value-letters zero index h = omega arith
value-letters (suc fuel) zero h = refl
value-letters (suc fuel) (suc index) h =
    let rest : value (letters fuel (index / 26)) ≡ index / 26 =
      value-letters fuel (index / 26) (omega arith) in
    ground arith

All-append : (P : ℕ → Type 0) (cs ds : List ℕ) → All P cs → All P ds → All P (cs ++ ds)
All-append P [] ds h k = k
All-append P (c ∷ cs) ds h k = (h.0, All-append P cs ds h.1 k)

All-reverse : (P : ℕ → Type 0) (cs : List ℕ) → All P cs → All P (reverse cs)
All-reverse P [] h = tt
All-reverse P (c ∷ cs) h =
    subst (All P) (sym (reverse-cons c cs))
      (All-append P (reverse cs) (c ∷ []) (All-reverse P cs h.1) (h.0, tt))

letters-IsLetter : (fuel index : ℕ) → All IsLetter (letters fuel index)
unfolding letters
letters-IsLetter zero index = tt
letters-IsLetter (suc fuel) zero = tt
letters-IsLetter (suc fuel) (suc index) =
    let rest : All IsLetter (letters fuel ((suc index - 1) / 26)) =
      letters-IsLetter fuel ((suc index - 1) / 26) in
    ground arith

-- The label of the problem at an index is written in the letters A to Z. Read from left to right, A for
-- 1, Z for 26 and AA for 27, it gives the index plus one.
pub get_label_for_problem_roundtrip :
    (index : ℕ)
    → All IsLetter (get_label_for_problem index)
      × (read_from 0 (get_label_for_problem index) ≡ index + 1)
unfolding get_label_for_problem
get_label_for_problem_roundtrip index = (
  All-reverse IsLetter (letters (index + 1) (index + 1)) (letters-IsLetter (index + 1) (index + 1)),
  read_from-reverse (letters (index + 1) (index + 1))
      ∙ value-letters (index + 1) (index + 1) (omega arith),
)
