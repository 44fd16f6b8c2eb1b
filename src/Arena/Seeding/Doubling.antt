-- ===== src/Arena/Seeding/Doubling.antt =====
-- The seeding order as repeated doubling: what `pair_up` does to positions and to counts.
use cpcjudge_site.Base.{
  ℕ, zero, suc, ◌+◌, ◌-◌, ◌*◌, ◌/◌, ◌≤◌, ◌<◌, ◌≡◌, refl, ◌∙◌, ap, lt→ltb, sym, some, List, [], ◌∷◌,
  length, get_elem?, All, arith,
}
use mathlib.Core.Option
use native.Mathlib.Decide.{dec_lt}
use native.Mathlib.Nat.{div-div-eq-div-mul}
use cpcjudge_site.Arena.Seeding.{pair_up, seeding_loop, seeding_order}

abbrev pub pow2 : ℕ → ℕ
pow2 zero = 1
pow2 (suc k) = 2 * pow2 k

-- The order of a bracket with `k` rounds.
unfoldable pub doubled : ℕ → List ℕ
unfolding pair_up
doubled zero = 1 ∷ []
doubled (suc k) = pair_up (pow2 (suc k) + 1) (doubled k)

pub lt-pow2 : (k : ℕ) → k < pow2 k
lt-pow2 zero = omega arith
lt-pow2 (suc k) = omega (arith, lt-pow2 k)

pub pow2_mono : (j k : ℕ) → j < k → pow2 j < pow2 k
pow2_mono j zero h = elim h [ ]
pow2_mono zero (suc k) h = omega (arith, lt-pow2 k)
pow2_mono (suc j) (suc k) h = omega (arith, pow2_mono j k (omega arith))

length-pair_up : (t : ℕ) (xs : List ℕ) → length (pair_up t xs) ≡ 2 * length xs
unfolding pair_up
length-pair_up t [] = refl
length-pair_up t (x ∷ xs) = omega (arith, length-pair_up t xs)

pub length-doubled : (k : ℕ) → length (doubled k) ≡ pow2 k
unfolding doubled
length-doubled zero = refl
length-doubled (suc k) =
    omega (arith, length-pair_up (pow2 (suc k) + 1) (doubled k), length-doubled k)

seeding_loop-stop :
    (fuel size : ℕ) (order : List ℕ)
    → size ≤ length order
    → seeding_loop (suc fuel) size order ≡ order
unfolding seeding_loop
seeding_loop-stop fuel size order h = ground arith

seeding_loop-step :
    (fuel size : ℕ) (order : List ℕ)
    → length order < size
    → seeding_loop (suc fuel) size order
      ≡ seeding_loop fuel size (pair_up (length order * 2 + 1) order)
unfolding seeding_loop
seeding_loop-step fuel size order h = rw (lt→ltb _ _ h)

next-doubled : (j : ℕ) → pair_up (length (doubled j) * 2 + 1) (doubled j) ≡ doubled (suc j)
unfolding doubled
next-doubled j = ap (λ t. pair_up t (doubled j)) (omega (arith, length-doubled j))

loop-doubled :
    (fuel j k : ℕ) → j ≤ k → k ≤ j + fuel → seeding_loop fuel (pow2 k) (doubled j) ≡ doubled k
loop-doubled zero j k h e = unfold seeding_loop in ap doubled (omega arith)
loop-doubled (suc fuel) j k h e = elim (dec_lt j k) [
  | yes more ↦
      seeding_loop-step fuel (pow2 k) (doubled j)
        (omega (arith, length-doubled j, pow2_mono j k more))
      ∙ ap (seeding_loop fuel (pow2 k)) (next-doubled j)
      ∙ loop-doubled fuel (suc j) k (omega arith) (omega arith)
  | no last ↦
      let same : j ≡ k = omega arith in
      rw (← same) (seeding_loop-stop fuel (pow2 j) (doubled j) (omega (arith, length-doubled j)))
]

-- The loop of the source computes the doubling.
pub seeding_order-doubled : (k : ℕ) → seeding_order (pow2 k) ≡ doubled k
unfolding seeding_order doubled
seeding_order-doubled k = loop-doubled (pow2 k) 0 k (omega arith) (omega (arith, lt-pow2 k))

get-pair_up_even : (t : ℕ) (xs : List ℕ) (i : ℕ) → get_elem? (pair_up t xs) (2 * i) ≡ get_elem? xs i
unfolding pair_up
get-pair_up_even t [] i = refl
get-pair_up_even t (x ∷ xs) zero = refl
get-pair_up_even t (x ∷ xs) (suc i) =
    let e : 2 * suc i ≡ suc (suc (2 * i)) = omega arith in rw e (get-pair_up_even t xs i)

get-pair_up_odd :
    (t : ℕ) (xs : List ℕ) (i : ℕ)
    → get_elem? (pair_up t xs) (suc (2 * i)) ≡ Option.map (λ x. t - x) (get_elem? xs i)
unfolding pair_up
get-pair_up_odd t [] i = refl
get-pair_up_odd t (x ∷ xs) zero = refl
get-pair_up_odd t (x ∷ xs) (suc i) =
    let e : 2 * suc i ≡ suc (suc (2 * i)) = omega arith in rw e (get-pair_up_odd t xs i)

abbrev pub InRange : ℕ → ℕ → Type 0
InRange n x = (1 ≤ x) × (x ≤ n)

pair_up-InRange :
    (n : ℕ) (xs : List ℕ) → All (InRange n) xs → All (InRange (2 * n)) (pair_up (2 * n + 1) xs)
unfolding pair_up
pair_up-InRange n [] h = tt
pair_up-InRange n (x ∷ xs) h =
    ((omega arith, omega arith), ((omega arith, omega arith), pair_up-InRange n xs h.1))

pub doubled-InRange : (k : ℕ) → All (InRange (pow2 k)) (doubled k)
unfolding doubled
doubled-InRange zero = ((omega arith, omega arith), tt)
doubled-InRange (suc k) = pair_up-InRange (pow2 k) (doubled k) (doubled-InRange k)

-- A bracket position holds a seed of the bracket.
get-InRange :
    (n : ℕ) (xs : List ℕ) (i a : ℕ) → All (InRange n) xs → get_elem? xs i ≡ some a → InRange n a
get-InRange n [] i a h e = cc
get-InRange n (x ∷ xs) zero a h e = ground arith
get-InRange n (x ∷ xs) (suc i) a h e = get-InRange n xs i a h.1 e

pub get-doubled : (k i a : ℕ) → get_elem? (doubled k) i ≡ some a → InRange (pow2 k) a
get-doubled k i a e = get-InRange (pow2 k) (doubled k) i a (doubled-InRange k) e

-- Consecutive places of the first round hold seeds that add up to the size of the bracket plus one.
pub doubled_pairs :
    (k i a b : ℕ)
    → get_elem? (doubled (suc k)) (2 * i) ≡ some a
    → get_elem? (doubled (suc k)) (suc (2 * i)) ≡ some b
    → a + b ≡ pow2 (suc k) + 1
unfolding doubled
doubled_pairs k i a b ea eb =
    let even = sym (get-pair_up_even (pow2 (suc k) + 1) (doubled k) i) ∙ ea in
    let odd = sym (get-pair_up_odd (pow2 (suc k) + 1) (doubled k) i) ∙ eb in
    let other : some (pow2 (suc k) + 1 - a) ≡ some b =
      ap (Option.map (λ x. pow2 (suc k) + 1 - x)) (sym even) ∙ odd in
    let range = get-doubled k i a even in ground arith

-- A seed of the upper half stands at an even place, twice its place in the bracket half the size.
pair_up_upper :
    (n i s : ℕ) (xs : List ℕ)
    → All (InRange n) xs
    → get_elem? (pair_up (2 * n + 1) xs) i ≡ some s
    → s ≤ n
    → get_elem? xs (i / 2) ≡ some s
unfolding pair_up
pair_up_upper n i s [] h e le = cc
pair_up_upper n zero s (x ∷ xs) h e le = e
pair_up_upper n (suc zero) s (x ∷ xs) h e le = absurd (ground arith)
pair_up_upper n (suc (suc i)) s (x ∷ xs) h e le =
    let half : suc (suc i) / 2 ≡ suc (i / 2) = omega arith in
    rw half (pair_up_upper n i s xs h.1 e le)

upper-doubled :
    (k i s : ℕ)
    → get_elem? (doubled (suc k)) i ≡ some s
    → s ≤ pow2 k
    → get_elem? (doubled k) (i / 2) ≡ some s
unfolding doubled
upper-doubled k i s e le = pair_up_upper (pow2 k) i s (doubled k) (doubled-InRange k) e le

pow2_le : (j d k : ℕ) → k ≡ j + d → pow2 j ≤ pow2 k
pow2_le j zero k e = let same : k ≡ j = omega arith in rw same (omega arith)
pow2_le j (suc d) k e = omega (arith, pow2_mono j k (omega arith))

-- The best seeds lie in blocks of their own, in the order of the smaller bracket.
pub block-doubled :
    (d j k i s : ℕ)
    → k ≡ j + d
    → get_elem? (doubled k) i ≡ some s
    → s ≤ pow2 j
    → get_elem? (doubled j) (i / pow2 d) ≡ some s
block-doubled zero j k i s e at le =
    let same : j ≡ k = omega arith in let whole : i / 1 ≡ i = omega arith in rw (same, whole) at
block-doubled (suc d) j zero i s e at le = absurd (omega arith)
block-doubled (suc d) j (suc k) i s e at le =
    let split : i / (2 * pow2 d) ≡ i / 2 / pow2 d = sym (div-div-eq-div-mul i 2 (pow2 d)) in
    rw split (
      block-doubled d j k (i / 2) s (omega arith)
        (upper-doubled k i s at (omega (arith, pow2_le j d k (omega arith)))) le)
