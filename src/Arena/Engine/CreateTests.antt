-- ===== src/Arena/Engine/CreateTests.antt =====
-- judge/arena/engine.py: a battle of the best of three, with two games prepared.
use cpcjudge_site.Base.{
  ℕ, ◌==◌, true, false, if◌then◌else◌, Option, none, some, List, [], ◌∷◌, any, ◌≡◌, refl,
}
use cpcjudge_site.Base.Int.{pos}
use cpcjudge_site.Arena.Engine.Rows.{MatchStatus, raise, refused, require}
use cpcjudge_site.Arena.Rules.{
  Texts, integer, text, absent, Rule, clean_points, clean_best_of, clean_rules,
}
use cpcjudge_site.Arena.Engine.Create.{entry, Screen, ScreenMode, Duel, DuelRequest, create_duel}
use cpcjudge_site.Arena.Engine.Created.{IsDuel, create_duel-IsDuel}

abbrev texts : Texts
texts = record {
  looks_signed = λ s. false;
  looks_unsigned = λ s. s == 3;
  int_of = λ s. if s == 3 then some (pos 3) else none;
  size = λ s. 8;
  sorted_set = λ l. l;
}

abbrev no_rule : ℕ → Option Rule
no_rule name = none

abbrev requested : DuelRequest
requested = record {
  player_a = some 7;
  player_b = some 8;
  games =
      (entry (some 40) (integer (pos 100)) ∷ entry (some 41) (integer (pos 50)) ∷ [])
      ∷ (entry (some 42) (integer (pos 100)) ∷ [])
      ∷ [];
  best_of = text 3;
  rules = absent;
  display_a = none;
  display_b = some 5;
  call = true;
}

abbrev projectors : List Screen
projectors =
    record { id = 1; mode = ScreenMode.shows_match; battle_status = some MatchStatus.playing }
    ∷ record { id = 2; mode = ScreenMode.idle; battle_status = none }
    ∷ []

abbrev created : Duel
created = record {
  player_a = 7;
  player_b = 8;
  display_a = none;
  display_b = some 5;
  best_of = pos 3;
  rules = [];
  status = MatchStatus.called;
  called_at = some 60;
  created_by = 9;
  games = ((40, pos 100) ∷ (41, pos 50) ∷ []) ∷ ((42, pos 100) ∷ []) ∷ [];
  screen = some 2;
}

-- The same problem in two games is refused.
repeated_refused :
    create_duel texts no_rule (40 ∷ 41 ∷ 42 ∷ []) [] projectors 9 60 (record requested {
      games =
          (entry (some 40) (integer (pos 100)) ∷ [])
          ∷ (entry (some 40) (integer (pos 100)) ∷ [])
          ∷ [];
    })
    ≡ raise refused
unfolding create_duel any require clean_points clean_best_of clean_rules
repeated_refused = refl

create_duel-IsDuel_example : IsDuel texts (40 ∷ 41 ∷ 42 ∷ []) [] 9 created
unfolding create_duel any require clean_points clean_best_of clean_rules
create_duel-IsDuel_example =
    create_duel-IsDuel texts no_rule (40 ∷ 41 ∷ 42 ∷ []) [] projectors 9 60 requested created refl
