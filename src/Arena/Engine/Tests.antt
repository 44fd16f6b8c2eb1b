-- ===== src/Arena/Engine/Tests.antt =====
-- A battle of one game: what is prepared, and the theorems on it.
use cpcjudge_site.Base.{Option, ◌≡◌, refl, none, some, [], arith, count}
use cpcjudge_site.Arena.Outcome.{slot_a, Problems}
use cpcjudge_site.Arena.Engine.Rows.{Battle, Match, MatchStatus, MatchReason, Game, done, require}
use cpcjudge_site.Arena.Engine.Actions.{on_open_match, walkover, void_started}
use cpcjudge_site.Arena.Engine.Sound.{Sound}
use cpcjudge_site.Arena.Engine.Play.{tick, decide_match}
use cpcjudge_site.Arena.Engine.Reachable.{Reachable, Step, Reachable-Sound}
use cpcjudge_site.Arena.Scoring.{minute}
use cpcjudge_site.Arena.Engine.Rows.{
  GameStatus, new_game, find_game, save_game, is_open_status, moment_or,
}
use cpcjudge_site.Arena.Engine.Actions.{extend_game, with_game}
use cpcjudge_site.Arena.Engine.Extended.{extend_game-bounds}
use cpcjudge_site.Base.{ℕ, All, any, ◌==◌, ◌+◌, ◌*◌, ◌<◌, ◌≤◌, ◌∷◌, true}
use cpcjudge_site.Arena.Engine.Lock.{lock_until, called_moment, moments, lock_until-IsLatest}
use cpcjudge_site.Arena.Engine.Over.{over_stays}

abbrev no_bank : Match → Game → Option Problems
no_bank m g = none

abbrev battle : Battle
battle = record {
  match_row = record {
    tournament = none;
    player_a = some 4;
    player_b = some 9;
    best_of = 3;
    status = MatchStatus.ready;
    called_at = none;
    created_at = 0;
    wins_a = 0;
    wins_b = 0;
    winner_slot = none;
    decided_reason = none;
    decided_at = none;
    version = 0;
  };
  games = [];
  next_id = 1;
  attempts = λ id slot. [];
  advanced = [];
}

battle-Sound : Sound battle
unfolding count
battle-Sound = record {
  counted = record {
    distinct = λ id. omega arith;
    fresh = λ id le. refl;
    score_a = refl;
    score_b = refl;
  };
  one_active = omega arith;
  quiet = λ h. refl;
  below = λ h. (omega arith, omega arith);
}

-- player B does not show up
abbrev given_to_a : Battle
given_to_a = decide_match slot_a MatchReason.by_walkover 5 (some 1) battle

walked_over : walkover 1 slot_a 5 none battle ≡ done given_to_a
unfolding walkover on_open_match require void_started
walked_over = refl

Reachable-Sound_example : Sound given_to_a
Reachable-Sound_example =
    Reachable-Sound no_bank battle given_to_a battle-Sound
      (Reachable.next Reachable.here (Step.given 1 slot_a 5 none battle walked_over))

given_to_a-Sound : Sound given_to_a
given_to_a-Sound =
    Reachable-Sound no_bank battle given_to_a battle-Sound
      (Reachable.next Reachable.here (Step.given 1 slot_a 5 none battle walked_over))

over_stays_example : (tick no_bank 9 1 given_to_a).match_row ≡ given_to_a.match_row
unfolding decide_match
over_stays_example =
    over_stays no_bank given_to_a (tick no_bank 9 1 given_to_a) given_to_a-Sound refl
      (Reachable.next Reachable.here (Step.looked 9 1 given_to_a))

-- a game of fifteen minutes
abbrev live_game : Game
live_game = record (new_game 1 1) {
  status = GameStatus.live;
  started_at = some 0;
  ends_at = some 900000000;
  contest_end = some 900000000;
}

abbrev live_battle : Battle
live_battle = record battle { games = live_game ∷ []; next_id = 2 }

abbrev longer_battle : Battle
longer_battle = record live_battle {
  games = record live_game { ends_at = some 1200000000; contest_end = some 1200000000 } ∷ [];
  match_row = record battle.match_row { version = 1 };
}

extend_game-bounds_example :
    (g' : Game) × (find_game 1 longer_battle.games ≡ some g')
    × (is_open_status live_game.status ≡ true)
    × (900000000 < moment_or g'.ends_at 0)
    × (moment_or g'.ends_at 0 ≤ 900000000 + 60 * minute)
    × (moment_or g'.ends_at 0 ≤ moment_or g'.started_at 0 + 300 * minute)
    × (longer_battle.match_row.version ≡ live_battle.match_row.version + 1)
unfolding extend_game on_open_match with_game require find_game save_game
extend_game-bounds_example =
    extend_game-bounds 1 1 5 none live_battle longer_battle live_game refl refl

lock_until-IsLatest_example :
    (last : ℕ) × (lock_until 60 live_battle.match_row live_battle.games ≡ last + 60 * minute)
    × All (λ t. t ≤ last) (called_moment live_battle.match_row ∷ moments live_battle.games)
    × (any (λ t. t == last) (called_moment live_battle.match_row ∷ moments live_battle.games)
        ≡ true)
lock_until-IsLatest_example = lock_until-IsLatest 60 live_battle.match_row live_battle.games
