-- ===== src/Arena/Seeding/Bracket.antt =====
-- The bracket of a tournament: its size, its rounds, where the byes fall and who can meet when.
use native.Mathlib.Decide.{dec_lt}
use cpcjudge_site.Base.{
  ℕ, zero, suc, ◌+◌, ◌-◌, ◌*◌, ◌/◌, ◌≤◌, ◌<◌, ◌≡◌, refl, sym, ◌∙◌, ap, ◌⊎◌, ◌↔◌, ltb, ◌==◌, false,
  lt→ltb, some, List, [], ◌∷◌, length, get_elem?, All, count, arith,
}
use cpcjudge_site.Arena.Seeding.{
  pair_up, seeding_order, bracket_loop, bracket_size, round_loop, round_count,
}
use cpcjudge_site.Arena.Seeding.Doubling.{
  pow2, doubled, lt-pow2, length-doubled, seeding_order-doubled, get-doubled, doubled_pairs,
  block-doubled, doubled-InRange, InRange,
}

-- What the doubling loop for the size stops at.
abbrev IsSizeFor : ℕ → ℕ → Type 0
IsSizeFor count size = (k : ℕ) × (size ≡ pow2 k) × (count ≤ size) × (size < 2 * count)

bracket_loop-IsSizeFor :
    (fuel count j : ℕ)
    → count ≤ fuel + pow2 j
    → pow2 j < 2 * count
    → IsSizeFor count (bracket_loop fuel count (pow2 j))
unfolding bracket_loop
bracket_loop-IsSizeFor zero count j enough small = (j, refl, omega arith, small)
bracket_loop-IsSizeFor (suc fuel) count j enough small = elim (dec_lt (pow2 j) count) [
  | yes more ↦
      let double : pow2 j * 2 ≡ pow2 (suc j) = omega arith in
      rw (lt→ltb _ _ more, double)
        (bracket_loop-IsSizeFor fuel count (suc j) (omega (arith, lt-pow2 j)) (omega arith))
  | no last ↦
      let stop : ltb (pow2 j) count ≡ false = ground arith in rw stop (j, refl, omega arith, small)
]

-- The size is a power of two that holds every participant and that half of it would not.
pub bracket_size-IsSizeFor :
    (n : ℕ)
    → 1 ≤ n
    → (k : ℕ) × (bracket_size n ≡ pow2 k) × (n ≤ bracket_size n) × (bracket_size n < 2 * n)
unfolding bracket_size
bracket_size-IsSizeFor n h = bracket_loop-IsSizeFor n n 0 (omega arith) (omega arith)

round_loop-pow2 : (fuel k r : ℕ) → k ≤ fuel → round_loop fuel (pow2 k) r ≡ r + k
unfolding round_loop
round_loop-pow2 zero zero r h = omega arith
round_loop-pow2 zero (suc k) r h = elim h [ ]
round_loop-pow2 (suc fuel) zero r h = omega arith
round_loop-pow2 (suc fuel) (suc k) r h =
    let half : 2 * pow2 k / 2 ≡ pow2 k = omega arith in
    rw (lt→ltb 1 (2 * pow2 k) (omega (arith, lt-pow2 k)), half)
      (omega (arith, round_loop-pow2 fuel k (r + 1) (omega arith)))

-- A bracket with room for everybody and `round_count` rounds: the size halves to one in exactly
-- that many rounds.
pub round_count_lem : (n : ℕ) → 1 ≤ n → bracket_size n ≡ pow2 (round_count n)
unfolding round_count
round_count_lem n h =
    let (k, size, _, _) = bracket_size-IsSizeFor n h in
    let rounds : round_loop (bracket_size n) (bracket_size n) 0 ≡ k =
      rw size (omega (arith, round_loop-pow2 (pow2 k) k 0 (omega (arith, lt-pow2 k)))) in
    size ∙ ap pow2 (sym rounds)

-- The order for `n` participants has one place for each place of the bracket.
pub length-seeding_order :
    (n : ℕ) → 1 ≤ n → length (seeding_order (bracket_size n)) ≡ bracket_size n
length-seeding_order n h =
    rw (round_count_lem n h, seeding_order-doubled) (length-doubled (round_count n))

count-pair_up :
    (n : ℕ) (s : ℕ) (xs : List ℕ)
    → All (InRange n) xs
    → 1 ≤ s
    → s ≤ 2 * n
    → count (λ x. x == s) (pair_up (2 * n + 1) xs)
      ≡ count (λ x. x == s) xs + count (λ x. x == 2 * n + 1 - s) xs
unfolding pair_up count
count-pair_up n s [] h lo hi = refl
count-pair_up n s (x ∷ xs) h lo hi = ground (arith, count-pair_up n s xs h.1 lo hi)

count-outside : (n s : ℕ) (xs : List ℕ) → All (InRange n) xs → n < s → count (λ x. x == s) xs ≡ 0
unfolding count
count-outside n s [] h out = refl
count-outside n s (x ∷ xs) h out = ground (arith, count-outside n s xs h.1 out)

count-doubled : (k s : ℕ) → 1 ≤ s → s ≤ pow2 k → count (λ x. x == s) (doubled k) ≡ 1
unfolding doubled
count-doubled zero s lo hi = unfold count in ground arith
count-doubled (suc k) s lo hi =
    rw (count-pair_up (pow2 k) s (doubled k) (doubled-InRange k) lo hi) (elim (dec_lt (pow2 k) s) [
      | yes upper ↦ omega (
        arith,
        count-outside (pow2 k) s (doubled k) (doubled-InRange k) upper,
        count-doubled k (2 * pow2 k + 1 - s) (omega arith) (omega arith),
      )
      | no lower ↦ omega (
        arith,
        count-outside (pow2 k) (2 * pow2 k + 1 - s) (doubled k) (doubled-InRange k) (omega arith),
        count-doubled k s lo (omega arith),
      )
    ])

-- For `n` participants the order has as many places as the bracket, holds every seed from 1 to
-- that size exactly once, and nothing else.
pub seeding_order-permutes :
    (n : ℕ)
    → 1 ≤ n
    → (length (seeding_order (bracket_size n)) ≡ bracket_size n)
      × ((s : ℕ)
          → 1 ≤ s
          → s ≤ bracket_size n
          → count (λ x. x == s) (seeding_order (bracket_size n)) ≡ 1)
      × ((i s : ℕ)
          → get_elem? (seeding_order (bracket_size n)) i ≡ some s
          → (1 ≤ s) × (s ≤ bracket_size n))
seeding_order-permutes n h =
    rw (round_count_lem n h, seeding_order-doubled)
      (length-doubled _, count-doubled _, get-doubled _)

first_round_sum :
    (size r i a b : ℕ)
    → size ≡ pow2 r
    → 2 ≤ size
    → get_elem? (seeding_order size) (2 * i) ≡ some a
    → get_elem? (seeding_order size) (suc (2 * i)) ≡ some b
    → a + b ≡ size + 1
first_round_sum size zero i a b e h ea eb = absurd (omega arith)
first_round_sum size (suc k) i a b e h ea eb =
    let order : seeding_order size ≡ doubled (suc k) =
      ap seeding_order e ∙ seeding_order-doubled (suc k) in
    rw e (doubled_pairs k i a b (rw order at ea) (rw order at eb))

-- With at least two participants, of two seeds that meet in the first round at least one is a
-- participant, so two byes never meet; and a seed has a bye for rival exactly when it is one of the
-- best `bracket_size n - n`.
pub byes_fall_on_best_seeds :
    (n i a b : ℕ)
    → 2 ≤ n
    → get_elem? (seeding_order (bracket_size n)) (2 * i) ≡ some a
    → get_elem? (seeding_order (bracket_size n)) (suc (2 * i)) ≡ some b
    → ((a ≤ n) ⊎ (b ≤ n))
      × ((n < b) ↔ (a ≤ bracket_size n - n))
      × ((n < a) ↔ (b ≤ bracket_size n - n))
byes_fall_on_best_seeds n i a b h ea eb =
    let (_, _, fits, tight) = bracket_size-IsSizeFor n (omega arith) in
    let total =
      first_round_sum (bracket_size n) (round_count n) i a b (round_count_lem n (omega arith))
        (omega arith) ea eb in
    ground arith

-- Two of the best `2 ^ j` seeds never stand in one block of `2 ^ d` places, where `j + d` is the number
-- of rounds: they cannot meet in the first `d` rounds.
pub best_seeds_meet_late :
    (n j d i i' s s' : ℕ)
    → 1 ≤ n
    → round_count n ≡ j + d
    → get_elem? (seeding_order (bracket_size n)) i ≡ some s
    → get_elem? (seeding_order (bracket_size n)) i' ≡ some s'
    → s ≤ pow2 j
    → s' ≤ pow2 j
    → i / pow2 d ≡ i' / pow2 d
    → s ≡ s'
best_seeds_meet_late n j d i i' s s' h rounds es es' le le' same =
    let order : seeding_order (bracket_size n) ≡ doubled (round_count n) =
      ap seeding_order (round_count_lem n h) ∙ seeding_order-doubled (round_count n) in
    let here = block-doubled d j (round_count n) i s rounds (rw order at es) le in
    let there = block-doubled d j (round_count n) i' s' rounds (rw order at es') le' in
    let both : some s ≡ some s' = sym here ∙ ap (get_elem? (doubled j)) same ∙ there in cc
