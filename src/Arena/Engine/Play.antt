-- ===== src/Arena/Engine/Play.antt =====
-- judge/arena/engine.py: how a game moves on by itself, and how a game or a match ends.
use cpcjudge_site.Base.{
  ℕ, suc, Bool, true, false, not, Option, none, some, List, ◌∷◌, leb, if◌then◌else◌, keep, max, min,
  is_some,
}
use cpcjudge_site.Arena.Scoring.{Attempt, Standing}
use cpcjudge_site.Arena.Outcome.{
  Problems, Slot, slot_a, slot_b, Outcome, Decision, decide, confirmed,
}
use cpcjudge_site.Arena.Engine.Rows.{
  Battle, Match, Game, GameStatus, MatchStatus, GameReason, MatchReason, by_score, by_games, put,
  bump, ensure_next_game, moment_or, close_contest, is_active, is_over, is_unplayed, wins_needed,
  find_game,
}

-- `evaluate`. A started game has its end; Python would raise on one without.
abbrev pub evaluate : Game → ℕ → (Slot → List Attempt) → Option Decision
evaluate g now attempts =
    if is_active g.status
    then elim g.started_at [
      | none ↦ none
      | some started_at ↦ some (
          decide (attempts slot_a) (attempts slot_b) g.problems g.rules started_at
            (moment_or g.ends_at now) now (is_some g.closed_at))
    ]
    else none

-- `_result_snapshot`: the confirmed standings of both players
abbrev pub result_snapshot : Game → (Slot → List Attempt) → Standing × Standing
result_snapshot g attempts = (
  confirmed (attempts slot_a) g.problems g.rules.partial g.rules.penalty (moment_or g.started_at 0),
  confirmed (attempts slot_b) g.problems g.rules.partial g.rules.penalty (moment_or g.started_at 0),
)

-- `_expected`
abbrev pub expected : Decision → Option GameStatus
expected d = elim d.outcome [
  | Outcome.countdown ↦ some GameStatus.countdown
  | Outcome.live ↦ some GameStatus.live
  | Outcome.verifying ↦ some GameStatus.verifying
  | Outcome.finish ↦ none
  | Outcome.tie ↦ none
]

-- whether the status of an active game is the one expected
abbrev pub has_status : GameStatus → GameStatus → Bool
has_status GameStatus.countdown GameStatus.countdown = true
has_status GameStatus.live GameStatus.live = true
has_status GameStatus.verifying GameStatus.verifying = true
has_status _ _ = false

-- `_decide_match`: what was prepared and never played is dropped, and the winner moves on.
unfoldable pub decide_match : Slot → MatchReason → ℕ → Option ℕ → Battle → Battle
decide_match slot reason now actor b = record b {
  match_row = bump actor (record b.match_row {
    status = MatchStatus.decided;
    winner_slot = some slot;
    decided_reason = some reason;
    decided_at = some now;
  });
  games = keep (λ g. not (is_unplayed g)) b.games;
  advanced = slot ∷ b.advanced;
}

abbrev pub add_win : Slot → Match → Match
add_win slot_a m = record m { wins_a = suc m.wins_a }
add_win slot_b m = record m { wins_b = suc m.wins_b }

abbrev pub closed : Option ℕ → ℕ → Game → Game
closed actor now g =
    let moment = moment_or g.closed_at (min now (moment_or g.ends_at now)) in
    record g {
      finished_at = some now;
      closed_at = some moment;
      contest_end = close_contest moment g.contest_end;
    }

-- `bank` stands for `tournament.fill_from_bank`: the problems that a tournament gives a game to play.
module _ (bank : Match → Game → Option Problems) where
  abbrev pub from_bank : Game → Battle → Battle
  from_bank g b = elim (bank b.match_row g) [
    | none ↦ b
    | some ps ↦ put (record g { problems = ps }) b
  ]

  abbrev pub prepare_next : Battle → Battle
  prepare_next b = from_bank (ensure_next_game b).1 (ensure_next_game b).0

  -- `_finish`
  unfoldable pub finish :
      Slot → GameReason → Standing × Standing → ℕ → Option ℕ → Game → Battle → Battle
  finish slot reason result now actor g b =
      let ended : Game = record (closed actor now g) {
        status = GameStatus.finished;
        winner_slot = some slot;
        reason = some reason;
        result = some result;
        decided_by = actor;
      } in
      let saved = put ended b in
      if is_over b.match_row.status
      then saved
      else let won = bump actor (add_win slot b.match_row) in
        let counted = record saved { match_row = won } in
        if leb (wins_needed won) (max won.wins_a won.wins_b)
        then decide_match slot by_games now actor counted
        else prepare_next counted

  -- `_tie`
  unfoldable pub tie : Standing × Standing → ℕ → Option ℕ → Game → Battle → Battle
  tie result now actor g b =
      let ended : Game = record (closed actor now g) {
        status = GameStatus.tie;
        result = some result;
      } in
      let saved = put ended b in
      let bumped = record saved { match_row = bump actor b.match_row } in
      if is_over b.match_row.status then bumped else prepare_next bumped

  -- `_apply`, with a decision that changes the status
  unfoldable pub apply : Decision → ℕ → (Slot → List Attempt) → Game → Battle → Battle
  apply d now attempts g b = elim d.outcome [
    | Outcome.countdown ↦ b
    | Outcome.live ↦
        if has_status g.status GameStatus.live
        then b
        else put (record g { status = GameStatus.live }) b
    | Outcome.verifying ↦
        if has_status g.status GameStatus.verifying
        then b
        else let moment = moment_or g.closed_at (min now (moment_or g.ends_at now)) in
          put
            (record g {
              status = GameStatus.verifying;
              closed_at = some moment;
              contest_end = close_contest moment g.contest_end;
            })
            b
    | Outcome.finish ↦ elim d.winner [
      | none ↦ b
      | some slot ↦ elim d.reason [
        | none ↦ b
        | some reason ↦ finish slot (by_score reason) (result_snapshot g attempts) now none g b
      ]
    ]
    | Outcome.tie ↦ tie (result_snapshot g attempts) now none g b
  ]

  -- `_tick_locked`
  unfoldable pub tick_locked : ℕ → Game → Battle → Battle
  tick_locked now g b = elim (evaluate g now (b.attempts g.id)) [
    | none ↦ b
    | some d ↦ elim (expected d) [
      | none ↦ apply d now (b.attempts g.id) g b
      | some status ↦ if has_status status g.status then b else apply d now (b.attempts g.id) g b
    ]
  ]

  -- `tick`
  unfoldable pub tick : ℕ → ℕ → Battle → Battle
  tick now game_id b = elim (find_game game_id b.games) [ none ↦ b | some g ↦ tick_locked now g b ]
