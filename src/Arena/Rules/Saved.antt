-- ===== src/Arena/Rules/Saved.antt =====
-- judge/arena/rules.py: `with_draw` keeps what it does not change.
use cpcjudge_site.Base.{
  ℕ, ◌==◌, ==_iff, true, not, if◌then◌else◌, none, some, List, [], ◌∷◌, any, keep, ◌≡◌, refl, sym,
  ◌∙◌, ap, inl, inr, Bool-cases, Option-cases, arith,
}
use cpcjudge_site.Arena.Rating.Dictionary.{find, put}
use cpcjudge_site.Arena.Rating.Keyed.{IsLawful, find-put, find-put_other}
use cpcjudge_site.Arena.Rules.{Rule, same_rule}
use cpcjudge_site.Arena.Rules.Cleaning.{rule-IsLawful}
use cpcjudge_site.Arena.Rules.Draw.{
  DrawKey, draw_number, draw_keys, rule, draw, same_key, Setting, Settings, Draws, is_draw, pop,
  copy_draws, set_draws, with_draw,
}

abbrev draw_at : ℕ → DrawKey
draw_at n =
    if n == 0
    then DrawKey.auto_draw
    else if n == 1
    then DrawKey.draw_count
    else if n == 2
    then DrawKey.level_min
    else DrawKey.level_max

draw_at-draw_number : (d : DrawKey) → draw_at (draw_number d) ≡ d
draw_at-draw_number DrawKey.auto_draw = refl
draw_at-draw_number DrawKey.draw_count = refl
draw_at-draw_number DrawKey.level_min = refl
draw_at-draw_number DrawKey.level_max = refl

key-IsLawful : IsLawful same_key
key-IsLawful (rule a) (rule b) =
    (λ h. ap rule ((rule-IsLawful a b).0 h), λ e. (rule-IsLawful a b).1 (ground (arith, e)))
key-IsLawful (draw a) (draw b) = (
  λ h. ap draw (
      sym (draw_at-draw_number a)
      ∙ ap draw_at ((==_iff (draw_number a) (draw_number b)).0 h)
      ∙ draw_at-draw_number b),
  λ e. (==_iff (draw_number a) (draw_number b)).1 (ap draw_number (ground (arith, e))),
)
key-IsLawful (rule a) (draw b) = (λ h. absurd (ground arith), λ e. absurd (ground arith))
key-IsLawful (draw a) (rule b) = (λ h. absurd (ground arith), λ e. absurd (ground arith))

find-pop :
    (r : Rule) (d : DrawKey) (t : Settings)
    → find same_key (rule r) (pop (draw d) t) ≡ find same_key (rule r) t
unfolding find pop keep
find-pop r d [] = refl
find-pop r d ((rule k, v) ∷ rest) =
    ap (λ o. if same_rule k r then some v else o) (find-pop r d rest)
find-pop r d ((draw k, v) ∷ rest) = elim (Bool-cases (draw_number k == draw_number d)) [
  | inl e ↦ rw (e) (find-pop r d rest)
  | inr e ↦ rw (e) (find-pop r d rest)
]

find-rules_only :
    (r : Rule) (t : Settings)
    → find same_key (rule r) (keep (λ (k, v). not (is_draw k)) t) ≡ find same_key (rule r) t
unfolding find keep
find-rules_only r [] = refl
find-rules_only r ((rule k, v) ∷ rest) =
    ap (λ o. if same_rule k r then some v else o) (find-rules_only r rest)
find-rules_only r ((draw k, v) ∷ rest) = find-rules_only r rest

copy_draws-rule :
    (r : Rule) (stored : Settings) (l : List DrawKey) (t : Settings)
    → find same_key (rule r) (copy_draws stored l t) ≡ find same_key (rule r) t
unfolding copy_draws
copy_draws-rule r stored [] t = refl
copy_draws-rule r stored (d ∷ rest) t = elim (Option-cases (find same_key (draw d) stored)) [
  | inl e ↦ rw (copy_draws, e) (copy_draws-rule r stored rest t)
  | inr (v, e) ↦
      rw (copy_draws, e)
        (copy_draws-rule r stored rest (put same_key (draw d) v t)
          ∙ find-put_other same_key key-IsLawful (rule r) (draw d) v t refl)
]

set_draws-rule :
    (r : Rule) (draws : Draws) (t : Settings)
    → find same_key (rule r) (set_draws draws t) ≡ find same_key (rule r) t
unfolding set_draws
set_draws-rule r [] t = refl
set_draws-rule r ((d, none) ∷ rest) t = set_draws-rule r rest (pop (draw d) t) ∙ find-pop r d t
set_draws-rule r ((d, some v) ∷ rest) t =
    set_draws-rule r rest (put same_key (draw d) v t)
    ∙ find-put_other same_key key-IsLawful (rule r) (draw d) v t refl

-- a setting that is already as stored
copy_draws-keeps :
    (k : DrawKey) (v : Setting) (stored : Settings) (l : List DrawKey) (t : Settings)
    → find same_key (draw k) stored ≡ some v
    → find same_key (draw k) t ≡ some v
    → find same_key (draw k) (copy_draws stored l t) ≡ some v
unfolding copy_draws
copy_draws-keeps k v stored [] t h there = there
copy_draws-keeps k v stored (d ∷ rest) t h there =
    elim (Option-cases (find same_key (draw d) stored)) [
      | inl e ↦ rw (copy_draws, e) (copy_draws-keeps k v stored rest t h there)
      | inr (w, e) ↦
          rw (copy_draws, e)
            (copy_draws-keeps k v stored rest (put same_key (draw d) w t) h
              (elim (Bool-cases (same_key (draw k) (draw d))) [
                | inl f ↦
                    let same : draw k ≡ draw d = (key-IsLawful (draw k) (draw d)).0 f in
                    let value : w ≡ v =
                      ground (arith, sym e ∙ ap (λ x. find same_key x stored) (sym same) ∙ h) in
                    ap (λ x. find same_key x (put same_key (draw d) w t)) same
                    ∙ find-put same_key key-IsLawful (draw d) w t
                    ∙ ap some value
                | inr f ↦ find-put_other same_key key-IsLawful (draw k) (draw d) w t f ∙ there
              ]))
    ]

copy_draws-reaches :
    (k : DrawKey) (v : Setting) (stored : Settings) (l : List DrawKey) (t : Settings)
    → find same_key (draw k) stored ≡ some v
    → any (λ d. draw_number d == draw_number k) l ≡ true
    → find same_key (draw k) (copy_draws stored l t) ≡ some v
unfolding copy_draws any
copy_draws-reaches k v stored [] t h listed = absurd (ground arith)
copy_draws-reaches k v stored (d ∷ rest) t h listed =
    elim (Bool-cases (draw_number d == draw_number k)) [
      | inl f ↦
          let same : draw d ≡ draw k = (key-IsLawful (draw d) (draw k)).0 f in
          let stored_d : find same_key (draw d) stored ≡ some v =
            ap (λ x. find same_key x stored) same ∙ h in
          rw (copy_draws, stored_d)
            (copy_draws-keeps k v stored rest (put same_key (draw d) v t) h (
              ap (λ x. find same_key x (put same_key (draw d) v t)) (sym same)
              ∙ find-put same_key key-IsLawful (draw d) v t))
      | inr f ↦
          let others : any (λ x. draw_number x == draw_number k) rest ≡ true =
            sym (rw (f) refl) ∙ listed in
          elim (Option-cases (find same_key (draw d) stored)) [
            | inl e ↦ rw (copy_draws, e) (copy_draws-reaches k v stored rest t h others)
            | inr (w, e) ↦
                rw (copy_draws, e)
                  (copy_draws-reaches k v stored rest (put same_key (draw d) w t) h others)
          ]
    ]

draw_keys-all : (k : DrawKey) → any (λ d. draw_number d == draw_number k) draw_keys ≡ true
unfolding any
draw_keys-all DrawKey.auto_draw = refl
draw_keys-all DrawKey.draw_count = refl
draw_keys-all DrawKey.level_min = refl
draw_keys-all DrawKey.level_max = refl

-- Saving the rules of a game keeps the drawing settings, and saving drawing settings keeps the rules: a
-- drawing setting that was saved is read back after the rules are saved over it, and then every rule is
-- read back as it was saved, whatever drawing settings are saved after it.
pub with_draw_roundtrip :
    (stored rules : Settings) (draws : Draws) (k : DrawKey) (v : Setting) (r : Rule)
    → (let drawn = with_draw stored none ((k, some v) ∷ []) in
        let saved = with_draw drawn (some rules) [] in
        (find same_key (draw k) saved ≡ some v)
        × (find same_key (rule r) drawn ≡ find same_key (rule r) stored)
        × (find same_key (rule r) (with_draw saved none draws) ≡ find same_key (rule r) rules))
unfolding with_draw set_draws
with_draw_roundtrip stored rules draws k v r =
    let base = keep (λ (j, w). not (is_draw j)) stored in
    let copied = copy_draws stored draw_keys base in
    let drawn = put same_key (draw k) v copied in
    let saved = copy_draws drawn draw_keys rules in
    let rules_of : Settings → Settings = λ t. keep (λ (j, w). not (is_draw j)) t in
    (
      copy_draws-reaches k v drawn draw_keys rules
          (find-put same_key key-IsLawful (draw k) v copied) (draw_keys-all k),
      find-put_other same_key key-IsLawful (rule r) (draw k) v copied refl
          ∙ copy_draws-rule r stored draw_keys base
          ∙ find-rules_only r stored,
      set_draws-rule r draws (copy_draws saved draw_keys (rules_of saved))
          ∙ copy_draws-rule r saved draw_keys (rules_of saved)
          ∙ find-rules_only r saved
          ∙ copy_draws-rule r drawn draw_keys rules,
    )
