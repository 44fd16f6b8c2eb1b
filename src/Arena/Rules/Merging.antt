-- ===== src/Arena/Rules/Merging.antt =====
-- judge/arena/rules.py: the rules of a new game.
use cpcjudge_site.Base.{
  true, false, Option, none, some, List, [], ◌∷◌, All, ◌≡◌, refl, sym, ◌∙◌, ap, subst, inl, inr,
  Bool-cases, arith,
}
use cpcjudge_site.Base.Int.{pos}
use cpcjudge_site.Arena.Rating.Dictionary.{find, put}
use cpcjudge_site.Arena.Rating.Keyed.{IsKeyed, differ-sym, find-put, find-put_other}
use cpcjudge_site.Arena.Rules.{
  Rule, kind, same_rule, Value, count_value, flag, names, Rules, defaults, add_layer, merge_over,
  merge, match_rules,
}
use cpcjudge_site.Arena.Rules.Cleaning.{IsGood, AreGood, rule-IsLawful}

-- The rule has a value within its bounds.
abbrev pub HasGood : Rules → Rule → Type 0
HasGood rules r = (v : Value) × (find same_rule r rules ≡ some v) × IsGood (kind r) v

defaults-HasGood : (r : Rule) → HasGood defaults r
unfolding find
defaults-HasGood Rule.duration = (count_value (pos 15), refl, (omega arith, omega arith))
defaults-HasGood Rule.countdown = (count_value (pos 10), refl, (omega arith, omega arith))
defaults-HasGood Rule.penalty = (count_value (pos 0), refl, (omega arith, omega arith))
defaults-HasGood Rule.max_attempts = (count_value (pos 0), refl, (omega arith, omega arith))
defaults-HasGood Rule.partial = (flag false, refl, tt)
defaults-HasGood Rule.block_paste = (flag true, refl, tt)
defaults-HasGood Rule.show_rival = (flag true, refl, tt)
defaults-HasGood Rule.screen_code = (flag true, refl, tt)
defaults-HasGood Rule.languages = (names [], refl, omega arith)

put-HasGood :
    (rules : Rules) (name : Rule) (value : Value) (r : Rule)
    → IsGood (kind name) value
    → HasGood rules r
    → HasGood (put same_rule name value rules) r
put-HasGood rules name value r good (v, found, ok) = elim (Bool-cases (same_rule r name)) [
  | inl e ↦
      let same : name ≡ r = sym ((rule-IsLawful r name).0 e) in
      (
        value,
        ap (λ k. find same_rule k (put same_rule name value rules)) (sym same)
            ∙ find-put same_rule rule-IsLawful name value rules,
        subst (λ k. IsGood (kind k) value) same good,
      )
  | inr e ↦ (v, find-put_other same_rule rule-IsLawful r name value rules e ∙ found, ok)
]

add_layer-HasGood :
    (rules layer : Rules)
    → AreGood layer
    → ((r : Rule) → HasGood rules r)
    → (r : Rule) → HasGood (add_layer rules layer) r
unfolding add_layer
add_layer-HasGood rules [] h all_ r = all_ r
add_layer-HasGood rules ((name, value) ∷ rest) (first, others) all_ r =
    add_layer-HasGood (put same_rule name value rules) rest others
      (λ k. put-HasGood rules name value k first (all_ k)) r

merge_over-HasGood :
    (rules : Rules) (layers : List Rules)
    → All AreGood layers
    → ((r : Rule) → HasGood rules r)
    → (r : Rule) → HasGood (merge_over rules layers) r
unfolding merge_over
merge_over-HasGood rules [] h all_ r = all_ r
merge_over-HasGood rules (layer ∷ rest) (first, others) all_ r =
    merge_over-HasGood (add_layer rules layer) rest others
      (add_layer-HasGood rules layer first all_) r

-- When the rules of the tournament, of the round and of the match are within their bounds, as
-- `clean_rules` leaves them, a new game of the match has every rule, within its bounds.
pub match_rules-HasGood :
    (tournament round : Option Rules) (own : Rules)
    → ((r : Rules) → tournament ≡ some r → AreGood r)
    → ((r : Rules) → round ≡ some r → AreGood r)
    → AreGood own
    → (r : Rule) → HasGood (match_rules tournament round own) r
unfolding match_rules merge
match_rules-HasGood none none own t_good r_good own_good r =
    merge_over-HasGood defaults (own ∷ []) (own_good, tt) defaults-HasGood r
match_rules-HasGood none (some b) own t_good r_good own_good r =
    merge_over-HasGood defaults (b ∷ own ∷ []) (r_good b refl, (own_good, tt)) defaults-HasGood r
match_rules-HasGood (some a) none own t_good r_good own_good r =
    merge_over-HasGood defaults (a ∷ own ∷ []) (t_good a refl, (own_good, tt)) defaults-HasGood r
match_rules-HasGood (some a) (some b) own t_good r_good own_good r =
    merge_over-HasGood defaults (a ∷ b ∷ own ∷ []) (t_good a refl, (r_good b refl, (own_good, tt)))
      defaults-HasGood r

-- a layer that does not have the rule
add_layer-other :
    (rules layer : Rules) (r : Rule)
    → All (λ (k, v). same_rule k r ≡ false) layer
    → find same_rule r (add_layer rules layer) ≡ find same_rule r rules
unfolding add_layer
add_layer-other rules [] r h = refl
add_layer-other rules ((name, value) ∷ rest) r (first, others) =
    add_layer-other (put same_rule name value rules) rest r others
    ∙ find-put_other same_rule rule-IsLawful r name value rules
        (differ-sym same_rule rule-IsLawful name r first)

add_layer-over :
    (rules layer : Rules) (r : Rule)
    → IsKeyed same_rule rule-IsLawful layer
    → find same_rule r (add_layer rules layer)
      ≡ elim (find same_rule r layer) [ none ↦ find same_rule r rules | some v ↦ some v ]
unfolding add_layer find
add_layer-over rules [] r keyed = refl
add_layer-over rules ((name, value) ∷ rest) r (fresh, keyed) =
    elim (Bool-cases (same_rule name r)) [
      | inl e ↦
          let same : name ≡ r = (rule-IsLawful name r).0 e in
          let now : find same_rule name (add_layer (put same_rule name value rules) rest)
              ≡ some value =
            add_layer-other (put same_rule name value rules) rest name fresh
            ∙ find-put same_rule rule-IsLawful name value rules in
          rw (e) (
            subst
              (λ k. find same_rule k (add_layer (put same_rule name value rules) rest) ≡ some value)
              same now)
      | inr e ↦ rw (e) (
          add_layer-over (put same_rule name value rules) rest r keyed
          ∙ ap (λ o. elim (find same_rule r rest) [ none ↦ o | some v ↦ some v ])
              (find-put_other same_rule rule-IsLawful r name value rules
                (differ-sym same_rule rule-IsLawful name r e)))
    ]

-- the value of a rule in a list of layers, the last one first, or else by default
abbrev pub last_of : Rule → Option Rules → Option Value → Option Value
last_of r none before = before
last_of r (some layer) before = elim (find same_rule r layer) [ none ↦ before | some v ↦ some v ]

abbrev pub IsLayer : Option Rules → Type 0
IsLayer none = Unit
IsLayer (some layer) = IsKeyed same_rule rule-IsLawful layer

-- A rule of a new game is the one of the match, or else of the round, or else of the tournament, or else
-- the default, when no layer has a rule twice.
pub match_rules-last :
    (tournament round : Option Rules) (own : Rules) (r : Rule)
    → IsLayer tournament
    → IsLayer round
    → IsKeyed same_rule rule-IsLawful own
    → find same_rule r (match_rules tournament round own)
      ≡ last_of r (some own) (last_of r round (last_of r tournament (find same_rule r defaults)))
unfolding match_rules merge merge_over
match_rules-last none none own r a b c = add_layer-over defaults own r c
match_rules-last none (some y) own r a b c =
    add_layer-over (add_layer defaults y) own r c
    ∙ ap (last_of r (some own)) (add_layer-over defaults y r b)
match_rules-last (some x) none own r a b c =
    add_layer-over (add_layer defaults x) own r c
    ∙ ap (last_of r (some own)) (add_layer-over defaults x r a)
match_rules-last (some x) (some y) own r a b c =
    add_layer-over (add_layer (add_layer defaults x) y) own r c
    ∙ ap (last_of r (some own)) (
        add_layer-over (add_layer defaults x) y r b
        ∙ ap (last_of r (some y)) (add_layer-over defaults x r a))
