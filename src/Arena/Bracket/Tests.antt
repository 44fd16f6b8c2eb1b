-- ===== src/Arena/Bracket/Tests.antt =====
-- A final that waits for its first player.
use cpcjudge_site.Base.{ℕ, ◌≡◌, ◌==◌, refl, false, none, some, [], ◌∷◌}
use cpcjudge_site.Arena.Outcome.{slot_a, slot_b}
use cpcjudge_site.Arena.Engine.Rows.{MatchStatus, require}
use cpcjudge_site.Arena.Bracket.{
  BracketMatch, Tournament, TournamentStatus, find_match, save_match, place, player, seed,
}
use cpcjudge_site.Arena.Bracket.Placement.{IsConsistent, place-IsConsistent}

abbrev final : BracketMatch
final = record {
  id = 3;
  round = 2;
  position = 0;
  best_of = 1;
  is_third_place = false;
  status = MatchStatus.pending;
  player_a = none;
  player_b = some 8;
  seed_a = none;
  seed_b = some 2;
  next_match = none;
  loser_next_match = none;
  winner_slot = none;
  decided_reason = none;
  decided_at = none;
  version = 1;
  played = false;
}

abbrev cup : Tournament
cup = record {
  status = TournamentStatus.running;
  started_at = some 0;
  finished_at = none;
  version = 4;
  matches = final ∷ [];
}

abbrev filled : Tournament
filled = record cup {
  matches =
      record final { player_a = some 7; seed_a = some 1; status = MatchStatus.ready; version = 2 }
      ∷ [];
}

place-IsConsistent_example :
    (m' : BracketMatch) × (find_match 3 filled.matches ≡ some m')
    × (final.played ≡ false)
    × (player m' slot_a ≡ some 7)
    × (seed m' slot_a ≡ some 1)
    × (player m' slot_b ≡ some 8)
    × IsConsistent m'
    × ((k : ℕ) → (3 == k) ≡ false → find_match k filled.matches ≡ find_match k cup.matches)
unfolding place require find_match save_match
place-IsConsistent_example =
    place-IsConsistent 3 slot_a (some 7) (some 1) cup filled final refl refl
