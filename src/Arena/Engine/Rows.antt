-- ===== src/Arena/Engine/Rows.antt =====
-- judge/models/arena.py: the rows of a battle, and the helpers of engine.py that read and save them.
-- Moments are microseconds; a text that only people read is left out.
use cpcjudge_site.Base.{
  ℕ, suc, ◌+◌, ◌/◌, Bool, true, false, not, ◌&&◌, ◌||◌, Option, none, some, List, [], ◌∷◌, ◌++◌,
  ltb, ◌==◌, if◌then◌else◌, any, count, max, is_some, same_option,
}
use cpcjudge_site.Arena.Scoring.{Attempt, Standing}
use cpcjudge_site.Arena.Outcome.{Problems, GameRules, Slot, slot_a, slot_b, Reason}

pub data MatchStatus : Type 0 where
  pending ready called playing decided cancelled : MatchStatus

pub data GameStatus : Type 0 where
  prepared countdown live verifying finished tie voided : GameStatus

pub data GameReason : Type 0 where
  by_score : Reason → GameReason
  by_organizer : GameReason

pub data MatchReason : Type 0 where
  by_games by_walkover : MatchReason

pub record PlayRules : Type 0 where
  pub duration : ℕ
  pub countdown : ℕ
  pub scoring : GameRules

pub record Game : Type 0 where
  pub id : ℕ
  pub number : ℕ
  pub status : GameStatus
  pub rules : GameRules
  pub problems : Problems
  pub contest_end : Option ℕ
  pub started_at : Option ℕ
  pub ends_at : Option ℕ
  pub closed_at : Option ℕ
  pub finished_at : Option ℕ
  pub winner_slot : Option Slot
  pub reason : Option GameReason
  pub result : Option (Standing × Standing)
  pub decided_by : Option ℕ

pub record Match : Type 0 where
  pub tournament : Option ℕ
  pub player_a : Option ℕ
  pub player_b : Option ℕ
  pub best_of : ℕ
  pub status : MatchStatus
  pub called_at : Option ℕ
  pub created_at : ℕ
  pub wins_a : ℕ
  pub wins_b : ℕ
  pub winner_slot : Option Slot
  pub decided_reason : Option MatchReason
  pub decided_at : Option ℕ
  pub version : ℕ

-- The match, its games in the order of their creation, the identifier that the next game gets, the
-- attempts of each game's players, and how many times the winner was sent forward in the bracket.
pub record Battle : Type 0 where
  pub match_row : Match
  pub games : List Game
  pub next_id : ℕ
  pub attempts : ℕ → Slot → List Attempt
  pub advanced : List Slot

pub data ArenaError : Type 0 where
  conflict not_found refused : ArenaError

pub data Result {ℓ} (A : Type ℓ) : Type ℓ where
  done : A → Result A
  raise : ArenaError → Result A

abbrev pub then_do {ℓ κ} : {A : Type ℓ} {B : Type κ} → Result A → (A → Result B) → Result B
then_do (done a) f = f a
then_do (raise e) f = raise e

-- a guard: `if not ok: raise`
unfoldable pub require {ℓ} : {A : Type ℓ} → Bool → ArenaError → Result A → Result A
require true e r = r
require false e r = raise e

-- `ACTIVE_STATUSES`
abbrev pub is_active : GameStatus → Bool
is_active countdown = true
is_active live = true
is_active verifying = true
is_active _ = false

-- `OPEN_STATUSES`
abbrev pub is_open_status : GameStatus → Bool
is_open_status countdown = true
is_open_status live = true
is_open_status _ = false

abbrev pub is_prepared : GameStatus → Bool
is_prepared prepared = true
is_prepared _ = false

abbrev pub is_tie : GameStatus → Bool
is_tie tie = true
is_tie _ = false

abbrev pub is_voided : GameStatus → Bool
is_voided voided = true
is_voided _ = false

abbrev pub is_verifying : GameStatus → Bool
is_verifying verifying = true
is_verifying _ = false

-- DECIDED or CANCELLED
abbrev pub is_over : MatchStatus → Bool
is_over decided = true
is_over cancelled = true
is_over _ = false

abbrev pub is_playing : MatchStatus → Bool
is_playing playing = true
is_playing _ = false

-- `LOCKING_STATUSES`
abbrev pub is_locking : MatchStatus → Bool
is_locking called = true
is_locking playing = true
is_locking _ = false

abbrev pub wins_needed : Match → ℕ
wins_needed m = m.best_of / 2 + 1

abbrev pub player_id : Match → Slot → Option ℕ
player_id m slot_a = m.player_a
player_id m slot_b = m.player_b

abbrev pub slot_of : Match → ℕ → Option Slot
slot_of m profile =
    if same_option m.player_a (some profile)
    then some slot_a
    else if same_option m.player_b (some profile)
    then some slot_b
    else none

abbrev pub other : Slot → Slot
other slot_a = slot_b
other slot_b = slot_a

-- `x or y` for a moment that may be missing
abbrev pub moment_or : Option ℕ → ℕ → ℕ
moment_or none d = d
moment_or (some t) d = t

-- `ArenaGame.objects.filter(pk=game_id, match=match).first()`
unfoldable pub find_game : ℕ → List Game → Option Game
find_game id [] = none
find_game id (g ∷ rest) = if g.id == id then some g else find_game id rest

-- `game.save()`
unfoldable pub save_game : Game → List Game → List Game
save_game g [] = []
save_game g (h ∷ rest) = if h.id == g.id then g ∷ rest else h ∷ save_game g rest

abbrev pub put : Game → Battle → Battle
put g b = record b { games = save_game g b.games }

unfoldable pub max_number : List Game → ℕ
max_number [] = 0
max_number (g ∷ rest) = max g.number (max_number rest)

abbrev pub new_game : ℕ → ℕ → Game
new_game id number = record {
  id = id;
  number = number;
  status = prepared;
  rules = record { partial = false; penalty = 0; max_attempts = 0 };
  problems = [];
  contest_end = none;
  started_at = none;
  ends_at = none;
  closed_at = none;
  finished_at = none;
  winner_slot = none;
  reason = none;
  result = none;
  decided_by = none;
}

-- `ArenaGame.objects.filter(status=PREPARED).order_by('number').first()`
unfoldable pub current_prepared_game : List Game → Option Game
current_prepared_game [] = none
current_prepared_game (g ∷ rest) =
    let later = current_prepared_game rest in
    if is_prepared g.status
    then elim later [ none ↦ some g | some h ↦ if ltb h.number g.number then some h else some g ]
    else later

abbrev pub ensure_next_game : Battle → Battle × Game
ensure_next_game b = elim (current_prepared_game b.games) [
  | some g ↦ (b, g)
  | none ↦
      let g = new_game b.next_id (max_number b.games + 1) in
      (record b { games = b.games ++ g ∷ []; next_id = suc b.next_id }, g)
]

-- `_check_version`
abbrev pub check_version : Option ℕ → Match → Bool
check_version none m = true
check_version (some v) m = v == m.version

-- `_bump`: what the game does by itself leaves the version alone
abbrev pub bump : Option ℕ → Match → Match
bump none m = m
bump (some actor) m = record m { version = suc m.version }

-- `_close_contest`
abbrev pub close_contest : ℕ → Option ℕ → Option ℕ
close_contest moment none = none
close_contest moment (some ends) = some (if ltb moment ends then moment else ends)

abbrev pub is_unplayed : Game → Bool
is_unplayed g = is_prepared g.status && not (is_some g.contest_end)

abbrev pub some_active : List Game → Bool
some_active games = any (λ g. is_active g.status) games

-- `max_game_number`
abbrev pub max_game_number : Battle → ℕ
max_game_number b = b.match_row.best_of + count (λ g. is_tie g.status || is_voided g.status) b.games

-- `voided_before_start`
abbrev pub voided_before_start : Game → Bool
voided_before_start g = is_voided g.status && elim g.started_at [
  | none ↦ false
  | some start ↦ elim g.finished_at [ none ↦ false | some finish ↦ ltb finish start ]
]
