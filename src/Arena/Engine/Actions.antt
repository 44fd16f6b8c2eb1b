-- ===== src/Arena/Engine/Actions.antt =====
-- judge/arena/engine.py: what an organizer does with a battle. Every action runs in a transaction, so
-- one that raises leaves nothing behind; `now` is the time it reads.
use cpcjudge_site.Base.{
  ℕ, ◌+◌, ◌-◌, ◌*◌, ◌/◌, Bool, true, false, not, ◌&&◌, ◌||◌, Option, none, some, List, [], ◌∷◌, ltb,
  leb, ◌==◌, if◌then◌else◌, keep, any, max, min, is_some, same_option, contains,
}
use cpcjudge_site.Arena.Scoring.{Attempt, minute}
use cpcjudge_site.Arena.Outcome.{Problems, Slot, slot_a, slot_b, decide_ignoring_pending}
use cpcjudge_site.Arena.Scoring.{pending}
use cpcjudge_site.Arena.Engine.Rows.{
  Battle, Match, Game, GameStatus, MatchStatus, PlayRules, Result, done, raise, require, by_score,
  by_organizer, by_walkover, conflict, not_found, refused, put, bump, check_version,
  ensure_next_game, moment_or, close_contest, is_active, is_open_status, is_over, is_prepared,
  is_tie, is_verifying, is_playing, is_unplayed, is_locking, some_active, find_game,
  current_prepared_game, player_id, other,
}
use cpcjudge_site.Arena.Engine.Play.{finish, tie, decide_match, prepare_next, result_snapshot}

-- `_require_not_over`, with the version first
unfoldable pub on_open_match : {A : Type 0} → Option ℕ → Battle → Result A → Result A
on_open_match version b r =
    require (check_version version b.match_row) conflict
      (require (not (is_over b.match_row.status)) refused r)

-- `_game_of`
unfoldable pub with_game : {A : Type 0} → ℕ → Battle → (Game → Result A) → Result A
with_game id b f = elim (find_game id b.games) [ none ↦ raise not_found | some g ↦ f g ]

abbrev pub started_or_tied : GameStatus → Bool
started_or_tied s = is_active s || is_tie s

-- the test of `_refuse_while_another_runs`
abbrev pub another_runs : Game → Battle → Bool
another_runs g b = is_tie g.status && any (λ h. is_active h.status && not (h.id == g.id)) b.games

-- A game voided at `now`, by whom: `cancel_match` leaves `decided_by` as it was.
abbrev pub void_game : ℕ → Option ℕ → Game → Game
void_game now by g = record g {
  status = GameStatus.voided;
  finished_at = some now;
  closed_at = some (moment_or g.closed_at now);
  decided_by = by;
  contest_end =
      close_contest (max (moment_or g.started_at 0) (min now (moment_or g.ends_at now)))
        g.contest_end;
}

unfoldable pub void_started : ℕ → (Game → Option ℕ) → List Game → List Game
void_started now by [] = []
void_started now by (g ∷ rest) =
    (if started_or_tied g.status then void_game now (by g) g else g) ∷ void_started now by rest

unfoldable pub extend_game : ℕ → ℕ → ℕ → Option ℕ → Battle → Result Battle
extend_game actor game_id minutes version b = on_open_match version b (
    with_game game_id b (λ g. require (is_open_status g.status) refused (
      require (leb 1 minutes && leb minutes 60) refused (
        let ends_at = moment_or g.ends_at 0 + minutes * minute in
        require (leb (ends_at - moment_or g.started_at 0) (300 * minute)) refused (
          let longer : Game = record g {
            ends_at = some ends_at;
            contest_end = elim g.contest_end [ none ↦ none | some _ ↦ some ends_at ];
          } in
          done (record (put longer b) { match_row = bump (some actor) b.match_row }))))))

-- `best_of` and the rest of what `update_match` changes and this model keeps
unfoldable pub update_match : ℕ → Option ℕ → Option ℕ → Battle → Result Battle
update_match actor version best_of b = on_open_match version b (elim best_of [
  | none ↦ done (record b { match_row = bump (some actor) b.match_row })
  | some n ↦ require (contains n (1 ∷ 3 ∷ 5 ∷ 7 ∷ 9 ∷ [])) refused (
      require (ltb (max b.match_row.wins_a b.match_row.wins_b) (n / 2 + 1)) refused
        (done (record b { match_row = bump (some actor) (record b.match_row { best_of = n }) })))
])

-- `busy` tells which profiles are called or playing in another battle; `organizes` whether the
-- profile is the one who acts.
unfoldable pub replace_player : ℕ → Slot → ℕ → (ℕ → Bool) → Option ℕ → Battle → Result Battle
replace_player actor slot profile busy version b = on_open_match version b (
    require (not (any (λ g. is_some g.contest_end) b.games)) refused (
      require (not (same_option (player_id b.match_row (other slot)) (some profile))) refused (
        require (not (profile == actor)) refused (
          require (not (busy profile)) refused (
            let seated : Match = elim slot [
              | slot_a ↦ record b.match_row { player_a = some profile }
              | slot_b ↦ record b.match_row { player_b = some profile }
            ] in
            let ready : Match =
              if is_waiting seated then record seated { status = MatchStatus.ready } else seated in
            done (record b { match_row = bump (some actor) ready }))))))
  where
    is_waiting : Match → Bool
    is_waiting m = elim m.status [
      | MatchStatus.pending ↦ is_some m.player_a && is_some m.player_b
      | _ ↦ false
    ]

unfoldable pub cancel_match : ℕ → ℕ → Option ℕ → Battle → Result Battle
cancel_match actor now version b = require (check_version version b.match_row) conflict (
    require (not (is_some b.match_row.tournament)) refused (
      require (not (is_over b.match_row.status)) refused (
        done (record b {
          games = keep (λ g. not (is_unplayed g)) (void_started now (λ g. g.decided_by) b.games);
          match_row =
              bump (some actor)
                (record b.match_row { status = MatchStatus.cancelled; decided_at = some now });
        }))))

unfoldable pub walkover : ℕ → Slot → ℕ → Option ℕ → Battle → Result Battle
walkover actor slot now version b = on_open_match version b (
    require (is_some (player_id b.match_row slot)) refused (
      done (
        decide_match slot by_walkover now (some actor)
          (record b { games = void_started now (λ g. some actor) b.games }))))

abbrev pub can_start : MatchStatus → Bool
can_start MatchStatus.ready = true
can_start MatchStatus.called = true
can_start MatchStatus.playing = true
can_start _ = false

abbrev pub has_problems : Game → Bool
has_problems g = elim g.problems [ [] ↦ false | p ∷ rest ↦ true ]

abbrev pub second : ℕ
second = 1000000

abbrev pub started : PlayRules → ℕ → Game → Game
started rules now g =
    let started_at = now + rules.countdown * second in
    let ends_at = started_at + rules.duration * minute in
    record g {
      status = GameStatus.countdown;
      rules = rules.scoring;
      started_at = some started_at;
      ends_at = some ends_at;
      contest_end = some ends_at;
    }

-- `_require_running_tournament` is `running`; `languages` says whether each problem of the game has a
-- language the rules allow, and `warned` whether there is something to warn about.
module _ (bank : Match → Game → Option Problems) where
  unfoldable pub call_match : ℕ → ℕ → Bool → (ℕ → Bool) → Option ℕ → Battle → Result Battle
  call_match actor now running busy version b =
      require (check_version version b.match_row) conflict (
        if is_locking b.match_row.status
        then done b
        else require
            (is_ready b.match_row.status
              && is_some b.match_row.player_a
              && is_some b.match_row.player_b)
            refused
            (require running refused (
              require (not (is_busy b.match_row.player_a) && not (is_busy b.match_row.player_b))
                refused
                (done (
                  prepare_next bank (record b {
                    match_row =
                        bump (some actor) (record b.match_row {
                          status = MatchStatus.called;
                          called_at = some now;
                        });
                  }))))))
    where
      is_ready : MatchStatus → Bool
      is_ready MatchStatus.ready = true
      is_ready _ = false

      is_busy : Option ℕ → Bool
      is_busy none = false
      is_busy (some p) = busy p

  unfoldable pub add_game : ℕ → Option ℕ → Battle → Result Battle
  add_game actor version b = on_open_match version b (
      let next = (ensure_next_game b).0 in
      done (record next { match_row = bump (some actor) next.match_row }))

  -- the prepared game to start: the one asked for, or the first
  abbrev pub game_to_start : Option ℕ → Battle → Option Game
  game_to_start none b = current_prepared_game b.games
  game_to_start (some id) b = elim (find_game id b.games) [
    | none ↦ none
    | some g ↦ if is_prepared g.status then some g else none
  ]

  -- the game once it has its problems
  abbrev pub with_problems : Game → Match → Game
  with_problems g m =
      if has_problems g
      then g
      else elim (bank m g) [ none ↦ g | some ps ↦ record g { problems = ps } ]

  unfoldable pub start_game :
      ℕ
      → ℕ
      → PlayRules
      → Bool
      → Bool
      → (ℕ → Bool)
      → (Game → Bool)
      → (Game → Bool)
      → Option ℕ
      → Option ℕ
      → Battle
      → Result Battle
  start_game actor now rules force running busy languages warned game_id version b =
      require (check_version version b.match_row) conflict (
        require (can_start b.match_row.status) refused (
          require (is_some b.match_row.player_a && is_some b.match_row.player_b) refused (
            require running refused (
              require (not (some_active b.games)) refused (elim (game_to_start game_id b) [
                | none ↦ raise refused
                | some chosen ↦
                    let g = with_problems chosen b.match_row in
                    require
                      (not (is_busy b.match_row.player_a) && not (is_busy b.match_row.player_b))
                      refused
                      (require (has_problems g && languages g) refused (
                        if not force && warned g
                        then done (put g b)
                        else done (record (put (started rules now g) b) {
                          match_row = bump (some actor) (record b.match_row {
                            status = MatchStatus.playing;
                            called_at =
                                if is_playing b.match_row.status
                                then b.match_row.called_at
                                else some (moment_or b.match_row.called_at now);
                          });
                        })))
              ])))))
    where
      is_busy : Option ℕ → Bool
      is_busy none = false
      is_busy (some p) = busy p

  unfoldable pub cancel_game : ℕ → ℕ → ℕ → Option ℕ → Battle → Result Battle
  cancel_game actor game_id now version b = on_open_match version b (
      with_game game_id b (λ g. require (started_or_tied g.status) refused (
        require (not (another_runs g b)) refused (
          let voided = record (put (void_game now (some actor) g) b) {
            match_row = bump (some actor) b.match_row;
          } in
          done (if is_playing b.match_row.status then prepare_next bank voided else voided)))))

  unfoldable pub declare_winner : ℕ → ℕ → Slot → ℕ → Option ℕ → Battle → Result Battle
  declare_winner actor game_id slot now version b =
      require (check_version version b.match_row) conflict (
        with_game game_id b (λ g. require (started_or_tied g.status) refused (
          require (is_playing b.match_row.status) refused (
            require (not (another_runs g b)) refused (
              let stopped : Game =
                if is_open_status g.status then record g { closed_at = some now } else g in
              done (
                finish bank slot by_organizer (result_snapshot g (b.attempts g.id)) now (some actor)
                  stopped b))))))

  judged_only : (Slot → List Attempt) → Slot → List Attempt
  judged_only attempts slot = keep (λ a. not (pending a)) (attempts slot)

  unfoldable pub finalize_verification : ℕ → ℕ → ℕ → Option ℕ → Battle → Result Battle
  unfolding judged_only
  finalize_verification actor game_id now version b = on_open_match version b (
      with_game game_id b (λ g. require (is_verifying g.status) refused (
        let attempts = b.attempts g.id in
        let d =
          decide_ignoring_pending (attempts slot_a) (attempts slot_b) g.problems g.rules
            (moment_or g.started_at 0) (moment_or g.ends_at 0) now in
        let result = result_snapshot g (judged_only attempts) in
        done (elim d.winner [
          | none ↦ tie bank result now (some actor) g b
          | some slot ↦ elim d.reason [
            | none ↦ tie bank result now (some actor) g b
            | some reason ↦ finish bank slot (by_score reason) result now (some actor) g b
          ]
        ]))))
