-- ===== src/Arena/Seeding.antt =====
-- judge/arena/tournament.py: the order of the seeds in a bracket, its size and its rounds.
pub mod Doubling
pub mod Bracket
mod Tests
use cpcjudge_site.Base.{ℕ, zero, suc, ◌+◌, ◌-◌, ◌/◌, ◌*◌, List, [], ◌∷◌, ltb, if◌then◌else◌, length}

-- `[seed for current in order for seed in (current, total - current)]`
pub pair_up : ℕ → List ℕ → List ℕ
pair_up total [] = []
pair_up total (current ∷ rest) = current ∷ (total - current) ∷ pair_up total rest

-- The `while len(order) < size` loop on fuel: every round doubles the order, so `size` rounds do.
pub seeding_loop : ℕ → ℕ → List ℕ → List ℕ
seeding_loop zero size order = order
seeding_loop (suc fuel) size order =
    let next = seeding_loop fuel size (pair_up (length order * 2 + 1) order) in
    if ltb (length order) size then next else order

unfoldable pub seeding_order : ℕ → List ℕ
unfolding pair_up seeding_loop
seeding_order size = seeding_loop size size (1 ∷ [])

pub bracket_loop : ℕ → ℕ → ℕ → ℕ
bracket_loop zero count size = size
bracket_loop (suc fuel) count size =
    let next = bracket_loop fuel count (size * 2) in if ltb size count then next else size

unfoldable pub bracket_size : ℕ → ℕ
unfolding bracket_loop
bracket_size count = bracket_loop count count 1

pub round_loop : ℕ → ℕ → ℕ → ℕ
round_loop zero size rounds = rounds
round_loop (suc fuel) size rounds =
    let next = round_loop fuel (size / 2) (rounds + 1) in if ltb 1 size then next else rounds

unfoldable pub round_count : ℕ → ℕ
unfolding bracket_size round_loop
round_count count = round_loop (bracket_size count) (bracket_size count) 0
