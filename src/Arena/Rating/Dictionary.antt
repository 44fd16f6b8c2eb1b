-- ===== src/Arena/Rating/Dictionary.antt =====
-- judge/arena/rating.py: dictionaries as lists of keys and values.
use cpcjudge_site.Base.{ℕ, ◌==◌, Bool, ◌&&◌, Option, none, some, List, [], ◌∷◌, if◌then◌else◌}

abbrev pub Table : Type 0 → Type 0 → Type 0
Table K V = List (K × V)

abbrev pub same_pair : ℕ × ℕ → ℕ × ℕ → Bool
same_pair (a, b) (c, d) = a == c && b == d

module _ {K V : Type 0} (same : K → K → Bool) where
  -- `table.get(k)`
  unfoldable pub find : K → Table K V → Option V
  find k [] = none
  find k ((j, v) ∷ rest) = let others = find k rest in if same j k then some v else others

  -- `table[k] = v`
  unfoldable pub put : K → V → Table K V → Table K V
  put k v [] = (k, v) ∷ []
  put k v ((j, w) ∷ rest) =
      let others = put k v rest in if same j k then (j, v) ∷ rest else (j, w) ∷ others
