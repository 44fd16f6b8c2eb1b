-- ===== src/ContestFormat.antt =====
-- judge/contest_format/icpc.py: the label of a problem, a text as the list of its characters' codes.
pub mod Labels
mod Tests
use cpcjudge_site.Base.{ℕ, zero, suc, ◌+◌, ◌-◌, ◌/◌, ◌%◌, List, [], ◌∷◌, ltb, if◌then◌else◌}
use mathlib.Core.List.{reverse}

-- the letters in the order the loop appends them, on fuel
unfoldable pub letters : ℕ → ℕ → List ℕ
letters zero index = []
letters (suc fuel) index =
    let rest = letters fuel ((index - 1) / 26) in
    if ltb 0 index then ((index - 1) % 26 + 65) ∷ rest else []

-- the index plus one is enough fuel: each round leaves less of it
unfoldable pub get_label_for_problem : ℕ → List ℕ
get_label_for_problem index = reverse (letters (index + 1) (index + 1))
