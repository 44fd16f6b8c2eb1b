-- ===== src/Arena/Bracket/BuildTests.antt =====
-- judge/arena/tournament.py: the bracket of three players.
use cpcjudge_site.Base.{
  ℕ, ◌≤◌, ◌==◌, true, false, not, ◌&&◌, ◌||◌, Option, none, some, is_some, List, [], ◌∷◌, length,
  contains, map, any, keep, get_elem?, leb, find?, ◌≡◌, refl, arith,
}
use cpcjudge_site.Arena.Engine.Rows.{MatchStatus, Result, done, raise, require}
use cpcjudge_site.Arena.Seeding.{bracket_size, round_count, seeding_order}
use cpcjudge_site.Arena.Bracket.{BracketMatch, TournamentStatus, advance, find_match, save_match}
use cpcjudge_site.Arena.Bracket.Rounds.{Seeding, clean_participants, numbers, sync_rounds}
use cpcjudge_site.Arena.Bracket.Build.{Draft, new_match, levels, seat, bye, build_bracket}
use cpcjudge_site.Arena.Bracket.Links.{AreLinked, levels-AreLinked}
use cpcjudge_site.Arena.Bracket.Seats.{IsWonAlone, seat-HasPlayer}
use cpcjudge_site.Arena.Bracket.Entered.{
  AreDistinct, clean_participants-AreDistinct, sync_rounds-numbers,
}

abbrev three : Draft
three = record {
  tournament = record {
    status = TournamentStatus.draft;
    started_at = none;
    finished_at = none;
    version = 1;
    matches = [];
  };
  third_place_match = true;
  seeding = Seeding.manual;
  participants = 7 ∷ 8 ∷ 9 ∷ [];
  rounds = record { number = 3; best_of = 5 } ∷ record { number = 2; best_of = 3 } ∷ [];
  games = [];
  next_id = 10;
}

-- the players of every match of the bracket that was built
abbrev players_of : Result Draft → List (ℕ × Option ℕ × Option ℕ)
players_of (raise e) = []
players_of (done d) = map (λ m. (m.id, m.player_a, m.player_b)) d.tournament.matches

-- The best seed has a bye and waits in the final.
three_players :
    players_of (build_bracket 0 three)
    ≡ (10, some 7, none) ∷ (11, some 7, none) ∷ (12, some 8, some 9) ∷ []
unfolding build_bracket seeding_order bracket_size round_count advance keep any find? require
    sync_rounds find_match save_match
three_players = refl

levels-AreLinked_example : AreLinked (levels (round_count 3) (bracket_size 3) [] 10 [])
levels-AreLinked_example = levels-AreLinked 3 [] 10 (omega arith)

abbrev opening : List BracketMatch
opening = new_match 11 1 0 1 false none ∷ new_match 12 1 1 1 false none ∷ []

seat-HasPlayer_example :
    (let order = seeding_order (bracket_size 3) in
      (k : BracketMatch) × (get_elem? (seat (7 ∷ 8 ∷ 9 ∷ []) order opening) 0 ≡ some k)
      × ((is_some k.player_a || is_some k.player_b) ≡ true)
      × (k.status ≡ MatchStatus.pending
          → (is_some k.player_a ≡ not (is_some k.player_b)) × IsWonAlone (bye 100 k)))
unfolding seeding_order bracket_size
seat-HasPlayer_example =
    seat-HasPlayer 100 (7 ∷ 8 ∷ 9 ∷ []) opening 0 1 4 (new_match 11 1 0 1 false none) (omega arith)
      refl refl refl

abbrev given : List (Option ℕ)
given = some 7 ∷ none ∷ some 8 ∷ some 7 ∷ []

abbrev accepted : List ℕ
accepted = 7 ∷ 8 ∷ []

clean_participants-AreDistinct_example :
    (2 ≤ length accepted)
    × (length accepted ≤ 64)
    × AreDistinct accepted
    × ((q : ℕ)
        → contains q accepted ≡ true
        → any (λ o. elim o [ none ↦ false | some p ↦ p == q ]) given ≡ true)
unfolding clean_participants any require
clean_participants-AreDistinct_example = clean_participants-AreDistinct given accepted refl

sync_rounds-numbers_example :
    contains 1 (numbers (sync_rounds 3 three.rounds)) ≡ (leb 1 1 && leb 1 (round_count 3))
sync_rounds-numbers_example = sync_rounds-numbers 1 3 three.rounds (omega arith, (omega arith, tt))
