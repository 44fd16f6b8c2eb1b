-- ===== src/Arena/Bracket.antt =====
-- judge/arena/tournament.py: a tournament's matches, how winners move through the bracket, and how a
-- tournament starts, finishes and is archived. A match of the bracket is the row of
-- judge/models/arena.py with the fields that these functions read or write; `played` says whether a
-- game of it has a contest.
pub mod Placement
pub mod Rounds
pub mod Build
pub mod Links
pub mod Seats
pub mod Entered
mod BuildTests
mod Tests
use cpcjudge_site.Base.{
  ℕ, zero, suc, ◌+◌, Bool, true, false, not, ◌&&◌, ◌||◌, Option, none, some, List, [], ◌∷◌, ◌==◌,
  ltb, if◌then◌else◌, any, is_some, same_option, contains,
}
use cpcjudge_site.Arena.Outcome.{Slot, slot_a, slot_b}
use cpcjudge_site.Arena.Engine.Rows.{
  MatchStatus, other, is_over, is_locking, Result, done, raise, require, then_do, refused,
  not_found, conflict,
}

pub data Reason : Type 0 where
  games walkover organizer bye : Reason

pub record BracketMatch : Type 0 where
  pub id : ℕ
  pub round : ℕ
  pub position : ℕ
  pub best_of : ℕ
  pub is_third_place : Bool
  pub status : MatchStatus
  pub player_a : Option ℕ
  pub player_b : Option ℕ
  pub seed_a : Option ℕ
  pub seed_b : Option ℕ
  pub next_match : Option (ℕ × Slot)
  pub loser_next_match : Option (ℕ × Slot)
  pub winner_slot : Option Slot
  pub decided_reason : Option Reason
  pub decided_at : Option ℕ
  pub version : ℕ
  pub played : Bool

pub data TournamentStatus : Type 0 where
  draft running finished archived : TournamentStatus

pub record Tournament : Type 0 where
  pub status : TournamentStatus
  pub started_at : Option ℕ
  pub finished_at : Option ℕ
  pub version : ℕ
  pub matches : List BracketMatch

abbrev pub player : BracketMatch → Slot → Option ℕ
player m slot_a = m.player_a
player m slot_b = m.player_b

abbrev pub seed : BracketMatch → Slot → Option ℕ
seed m slot_a = m.seed_a
seed m slot_b = m.seed_b

unfoldable pub find_match : ℕ → List BracketMatch → Option BracketMatch
find_match id [] = none
find_match id (m ∷ rest) = if m.id == id then some m else find_match id rest

unfoldable pub save_match : BracketMatch → List BracketMatch → List BracketMatch
save_match m [] = []
save_match m (k ∷ rest) = if k.id == m.id then m ∷ rest else k ∷ save_match m rest

abbrev pub has_both : BracketMatch → Bool
has_both m = is_some m.player_a && is_some m.player_b

abbrev pub set_player : Slot → Option ℕ → Option ℕ → BracketMatch → BracketMatch
set_player slot_a profile seed m = record m { player_a = profile; seed_a = seed }
set_player slot_b profile seed m = record m { player_b = profile; seed_b = seed }

-- PENDING with both players becomes READY, READY without one becomes PENDING.
abbrev pub settle_status : Bool → MatchStatus → MatchStatus
settle_status true MatchStatus.pending = MatchStatus.ready
settle_status false MatchStatus.ready = MatchStatus.pending
settle_status _ status = status

-- the match that `_place` saves
abbrev pub placed : Slot → Option ℕ → Option ℕ → BracketMatch → BracketMatch
placed slot profile seed m =
    let seated = set_player slot profile seed m in
    record seated {
      status = settle_status (has_both seated) seated.status;
      version = suc seated.version;
    }

-- `_place`
pub place : ℕ → Slot → Option ℕ → Option ℕ → Tournament → Result Tournament
place id slot profile seed t = elim (find_match id t.matches) [
  | none ↦ raise not_found
  | some target ↦
      require (not target.played) refused
        (done (record t { matches = save_match (placed slot profile seed target) t.matches }))
]

abbrev pub is_decided : MatchStatus → Bool
is_decided MatchStatus.decided = true
is_decided _ = false

-- The last match of the bracket proper: no match comes after it, and it is not for third place.
pub final_match : List BracketMatch → Option BracketMatch
final_match [] = none
final_match (m ∷ rest) =
    let later = final_match rest in
    if not (is_some m.next_match) && not m.is_third_place
    then elim later [ none ↦ some m | some k ↦ if ltb m.round k.round then some k else some m ]
    else later

pub third_place : List BracketMatch → Option BracketMatch
third_place [] = none
third_place (m ∷ rest) = if m.is_third_place then some m else third_place rest

abbrev pub is_complete : List BracketMatch → Bool
is_complete matches =
    elim (final_match matches) [ none ↦ false | some m ↦ is_decided m.status ]
    && elim (third_place matches) [ none ↦ true | some m ↦ is_over m.status ]

-- `_check_finished`
pub check_finished : ℕ → Tournament → Tournament
unfolding final_match third_place
check_finished now t = elim t.status [
  | TournamentStatus.running ↦
      if is_complete t.matches
      then record t {
        status = TournamentStatus.finished;
        finished_at = some now;
        version = suc t.version;
      }
      else t
  | _ ↦ t
]

-- a player is sent where the bracket says, if it says so
pub send_on : Option (ℕ × Slot) → Option ℕ → Option ℕ → Tournament → Result Tournament
unfolding place
send_on none profile seed t = done t
send_on (some (id, slot)) profile seed t = place id slot profile seed t

-- `advance`, of a match of the tournament
pub advance : BracketMatch → ℕ → Tournament → Result Tournament
unfolding send_on check_finished
advance m now t = elim m.winner_slot [
  | none ↦ done t
  | some winner ↦ then_do (send_on m.next_match (player m winner) (seed m winner) t) (λ t1.
      then_do
        (if is_some (player m (other winner))
          then send_on m.loser_next_match (player m (other winner)) (seed m (other winner)) t1
          else done t1)
        (λ t2. done (check_finished now t2)))
]

-- the next match, if it is not over, has the profile among its players
abbrev pub plays_next : ℕ → Option (ℕ × Slot) → Tournament → Bool
plays_next profile none t = false
plays_next profile (some (id, _)) t = elim (find_match id t.matches) [
  | none ↦ false
  | some k ↦
      not (is_over k.status)
      && (same_option k.player_a (some profile) || same_option k.player_b (some profile))
]

abbrev pub target_played : Option (ℕ × Slot) → Tournament → Bool
target_played none t = false
target_played (some (id, _)) t = elim (find_match id t.matches) [ none ↦ false | some k ↦ k.played ]

abbrev pub same_slot : Slot → Slot → Bool
same_slot slot_a slot_a = true
same_slot slot_b slot_b = true
same_slot _ _ = false

abbrev pub is_winner : Slot → Option Slot → Bool
is_winner slot none = false
is_winner slot (some w) = same_slot slot w

abbrev pub corrected_reason : Option Reason → Option Reason
corrected_reason (some Reason.walkover) = some Reason.walkover
corrected_reason _ = some Reason.organizer

abbrev pub is_finished : TournamentStatus → Bool
is_finished TournamentStatus.finished = true
is_finished _ = false

abbrev pub is_draft : TournamentStatus → Bool
is_draft TournamentStatus.draft = true
is_draft _ = false

-- a version that was given and is not the row's
abbrev pub is_current : Option ℕ → ℕ → Bool
is_current none v = true
is_current (some w) v = w == v

-- `set_winner`, of a match of the tournament
pub set_winner : ℕ → ℕ → Slot → ℕ → Option ℕ → Tournament → Result Tournament
unfolding advance
set_winner actor match_id slot now version t = elim (find_match match_id t.matches) [
  | none ↦ raise not_found
  | some m ↦ require (is_current version m.version) conflict (
      require (is_decided m.status && not (is_winner slot m.winner_slot)) refused (
        require (is_some (player m slot)) refused (
          require
            (not (
              same_option m.player_a (some actor)
              || same_option m.player_b (some actor)
              || plays_next actor m.next_match t
              || plays_next actor m.loser_next_match t))
            refused
            (require
              (not (target_played m.next_match t) && not (target_played m.loser_next_match t))
              refused
              (let corrected : BracketMatch = record m {
                winner_slot = some slot;
                decided_reason = corrected_reason m.decided_reason;
                decided_at = some now;
                version = suc m.version;
              } in
                let saved : Tournament = record t { matches = save_match corrected t.matches } in
                let reopened : Tournament =
                  if is_finished t.status
                  then record saved { status = TournamentStatus.running; finished_at = none }
                  else saved in
                advance corrected now reopened)))))
]

pub start_tournament : ℕ → Option ℕ → Tournament → Result Tournament
start_tournament now version t = require (is_current version t.version) conflict (
    require (is_draft t.status) refused (elim t.matches [
      | [] ↦ raise refused
      | m ∷ rest ↦ done (record t {
        status = TournamentStatus.running;
        started_at = some now;
        version = suc t.version;
      })
    ]))

pub archive_tournament : Option ℕ → Tournament → Result Tournament
archive_tournament version t = require (is_current version t.version) conflict (
    require (is_finished t.status) refused (
      require (not (any (λ m. is_locking m.status) t.matches)) refused
        (done (record t { status = TournamentStatus.archived; version = suc t.version }))))
