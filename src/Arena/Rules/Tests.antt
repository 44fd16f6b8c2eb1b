-- ===== src/Arena/Rules/Tests.antt =====
-- judge/arena/rules.py: rules of a request, and their layers.
use cpcjudge_site.Base.{
  ℕ, ◌==◌, true, ◌||◌, if◌then◌else◌, Option, none, some, [], ◌∷◌, any, ◌≡◌, refl, arith,
}
use cpcjudge_site.Base.Int.{pos}
use cpcjudge_site.Arena.Rating.Dictionary.{find}
use cpcjudge_site.Arena.Rules.{
  Texts, boolean, text, array, Request, object, Rule, same_rule, count_value, names, Rules, clean,
  crashed, clean_rules, defaults, match_rules,
}
use cpcjudge_site.Arena.Rules.Draw.{
  DrawKey, rule, draw, same_key, of_rule, amount, Settings, with_draw,
}
use cpcjudge_site.Arena.Rules.Saved.{with_draw_roundtrip}
use cpcjudge_site.Arena.Rules.Cleaning.{AreGood, clean_rules-AreGood}
use cpcjudge_site.Arena.Rules.Merging.{HasGood, match_rules-HasGood, match_rules-last, last_of}

-- Text 20 is "20", text 21 is "--5", which looks like a number with a sign.
abbrev texts : Texts
texts = record {
  looks_signed = λ s. s == 20 || s == 21;
  looks_unsigned = λ s. s == 20;
  int_of = λ s. if s == 20 then some (pos 20) else none;
  size = λ s. 3;
  sorted_set = λ l. l;
}

-- Names 0, 1 and 8 are the duration, the countdown and the languages; the others are not rules.
abbrev rule_named : ℕ → Option Rule
rule_named name =
    if name == 0
    then some Rule.duration
    else if name == 1
    then some Rule.countdown
    else if name == 8
    then some Rule.languages
    else none

abbrev request : Request
request = object ((0, text 20) ∷ (99, boolean true) ∷ (8, array (some 30 ∷ some 31 ∷ [])) ∷ [])

abbrev cleaned : Rules
cleaned = (Rule.duration, count_value (pos 20)) ∷ (Rule.languages, names (30 ∷ 31 ∷ [])) ∷ []

example_request : clean_rules texts rule_named request ≡ clean cleaned
unfolding clean_rules any
example_request = refl

-- Two signs before the digits end in a ValueError.
two_signs : clean_rules texts rule_named (object ((1, text 21) ∷ [])) ≡ crashed
unfolding clean_rules any
two_signs = refl

clean_rules-AreGood_example : AreGood cleaned
unfolding clean_rules any
clean_rules-AreGood_example =
    clean_rules-AreGood texts (λ l. omega arith) rule_named request cleaned refl

match_rules-HasGood_example : HasGood (match_rules none none cleaned) Rule.duration
match_rules-HasGood_example =
    match_rules-HasGood none none cleaned (λ r e. absurd (ground arith))
      (λ r e. absurd (ground arith)) ((omega arith, omega arith), (omega arith, tt)) Rule.duration

match_rules-last_example :
    find same_rule Rule.duration (match_rules none (some cleaned) [])
    ≡ last_of Rule.duration (some []) (
        last_of Rule.duration
          (some cleaned)
          (last_of Rule.duration none (find same_rule Rule.duration defaults)))
match_rules-last_example =
    match_rules-last none (some cleaned) [] Rule.duration tt ((refl, tt), (tt, tt)) tt

abbrev saved_rules : Settings
saved_rules = (rule Rule.duration, of_rule (count_value (pos 20))) ∷ []

with_draw_roundtrip_example :
    (let drawn = with_draw saved_rules none ((DrawKey.draw_count, some (amount 3)) ∷ []) in
      let saved = with_draw drawn (some saved_rules) [] in
      (find same_key (draw DrawKey.draw_count) saved ≡ some (amount 3))
      × (find same_key (rule Rule.duration) drawn ≡ find same_key (rule Rule.duration) saved_rules)
      × (find same_key (rule Rule.duration) (with_draw saved none [])
          ≡ find same_key (rule Rule.duration) saved_rules))
with_draw_roundtrip_example =
    with_draw_roundtrip saved_rules saved_rules [] DrawKey.draw_count (amount 3) Rule.duration
