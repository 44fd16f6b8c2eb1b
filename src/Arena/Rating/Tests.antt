-- ===== src/Arena/Rating/Tests.antt =====
-- judge/arena/rating.py: a ranking of three players.
use cpcjudge_site.Base.{
  ℕ, ◌+◌, ◌*◌, ◌==◌, ==_refl, true, ◌&&◌, none, some, List, [], ◌∷◌, length, count, keep, All, ◌≡◌,
  refl,
}
use cpcjudge_site.Arena.Outcome.{Slot, slot_a, slot_b}
use cpcjudge_site.Arena.Engine.Rows.{MatchStatus, GameStatus}
use cpcjudge_site.Arena.Rating.{
  Ranking, DecidedReason, RatedGame, RatedMatch, is_decided, counts_q, after_decided, battles,
  query,
}
use cpcjudge_site.Arena.Rating.Compute.{Formula, compute}
use cpcjudge_site.Arena.Rating.Counting.{counts_q-after_decided, IsOrdered}
use cpcjudge_site.Arena.Rating.Times.{IsMadeOf, has_id, once, battles-AreMade}
use cpcjudge_site.Arena.Rating.Found.{last_of}
use cpcjudge_site.Arena.Rating.Totals.{sum, games_counted, IsCounted, compute-counts}
use cpcjudge_site.Arena.Rating.Sync.{Stored, check, recompute}
use cpcjudge_site.Arena.Rating.Recompute.{recompute-check}

abbrev won : Slot → ℕ → RatedGame
won slot time = record {
  status = GameStatus.finished;
  winner_slot = some slot;
  finished_at = some time;
}

abbrev duel : ℕ → ℕ → ℕ → List RatedGame → RatedMatch
duel id a b games = record {
  id = id;
  tournament_ranking = none;
  ranking = Ranking.ranked;
  status = MatchStatus.decided;
  decided_reason = DecidedReason.played;
  player_a = some a;
  player_b = some b;
  display_name_a = none;
  display_name_b = none;
  games = games;
}

-- a battle of three games that ended last, one of one game, and one that was left out
abbrev duels : List RatedMatch
duels =
    duel 1 7 8 (won slot_a 10 ∷ won slot_b 20 ∷ won slot_a 90 ∷ [])
    ∷ duel 2 8 9 (won slot_b 50 ∷ [])
    ∷ record (duel 3 7 9 (won slot_b 70 ∷ [])) { ranking = Ranking.excluded }
    ∷ []

-- a rating that grows by one with each game won
abbrev wins_only : Formula ℕ
wins_only = record {
  start = record { rating = 0; deviation = 0; volatility = 0 };
  rate = λ own results. record own { rating = own.rating + count (λ r. r.2) results };
  grow = λ deviation volatility weeks. deviation + weeks;
}

abbrev nothing : Stored ℕ
nothing = record { ratings = []; changes = [] }

first_recompute : (recompute wins_only ◌==◌ duels nothing).1 ≡ 7
unfolding recompute counts_q count keep
first_recompute = refl

counts_q-after_decided_example :
    counts_q (duel 2 8 9 [])
    ≡ ((is_decided MatchStatus.decided && true && true) && after_decided (duel 2 8 9 []))
counts_q-after_decided_example = counts_q-after_decided (duel 2 8 9 [])

battles-AreMade_example :
    IsOrdered (battles duels)
    × All (IsMadeOf (query duels)) (battles duels)
    × ((id : ℕ) → count (has_id id) (battles duels) ≡ once (last_of id (query duels)))
battles-AreMade_example = battles-AreMade duels

compute-counts_example :
    (let players = (compute wins_only (battles duels)).0 in
      (sum (λ p. p.wins) players ≡ games_counted (battles duels))
      × (sum (λ p. p.games) players ≡ 2 * games_counted (battles duels))
      × (sum (λ p. p.battles) players ≡ 2 * length (battles duels))
      × All (IsCounted wins_only) players)
compute-counts_example = compute-counts wins_only (battles duels)

recompute-check_example :
    check wins_only ◌==◌ duels ((recompute wins_only ◌==◌ duels nothing).0) ≡ 0
recompute-check_example = recompute-check wins_only ◌==◌ ==_refl duels nothing
