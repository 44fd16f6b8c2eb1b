-- ===== src/Arena/Seeding/Tests.antt =====
-- The bracket of six players, and the theorems on it.
use cpcjudge_site.Base.{
  ℕ, ◌-◌, ◌≤◌, ◌<◌, ◌≡◌, refl, ◌⊎◌, ◌↔◌, ◌==◌, some, [], ◌∷◌, length, get_elem?, count, arith,
}
use cpcjudge_site.Arena.Seeding.{seeding_order, bracket_size, round_count}
use cpcjudge_site.Arena.Seeding.Bracket.{
  bracket_size-IsSizeFor, seeding_order-permutes, byes_fall_on_best_seeds, best_seeds_meet_late,
}
use cpcjudge_site.Arena.Seeding.Doubling.{pow2}

-- the order of the module's docstring
eight : seeding_order 8 ≡ 1 ∷ 8 ∷ 4 ∷ 5 ∷ 2 ∷ 7 ∷ 3 ∷ 6 ∷ []
unfolding seeding_order
eight = refl

six : (bracket_size 6 ≡ 8) × (round_count 6 ≡ 3) × (round_count 5 ≡ 3) × (round_count 4 ≡ 2)
unfolding bracket_size round_count
six = (refl, refl, refl, refl)

bracket_size-IsSizeFor_example :
    (k : ℕ) × (bracket_size 6 ≡ pow2 k) × (6 ≤ bracket_size 6) × (bracket_size 6 < 12)
bracket_size-IsSizeFor_example = bracket_size-IsSizeFor 6 (omega arith)

seeding_order-permutes_example :
    (length (seeding_order (bracket_size 6)) ≡ bracket_size 6)
    × ((s : ℕ)
        → 1 ≤ s
        → s ≤ bracket_size 6
        → count (λ x. x == s) (seeding_order (bracket_size 6)) ≡ 1)
    × ((i s : ℕ)
        → get_elem? (seeding_order (bracket_size 6)) i ≡ some s
        → (1 ≤ s) × (s ≤ bracket_size 6))
seeding_order-permutes_example = seeding_order-permutes 6 (omega arith)

byes_fall_on_best_seeds_example :
    ((2 ≤ 6) ⊎ (7 ≤ 6))
    × ((6 < 7) ↔ (2 ≤ bracket_size 6 - 6))
    × ((6 < 2) ↔ (7 ≤ bracket_size 6 - 6))
unfolding seeding_order bracket_size
byes_fall_on_best_seeds_example = byes_fall_on_best_seeds 6 2 2 7 (omega arith) refl refl

best_seeds_meet_late_example : ◌≡◌ {A = ℕ} 2 2
unfolding seeding_order bracket_size round_count
best_seeds_meet_late_example =
    best_seeds_meet_late 6 1 2 4 4 2 2 (omega arith) refl refl refl (omega arith) (omega arith) refl
