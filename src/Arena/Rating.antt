-- ===== src/Arena/Rating.antt =====
-- judge/arena/rating.py: which battles count for the ranking, and the ranking from the start. The ratings
-- are floating-point numbers of a type that is left open, and the formulas on them (`rate`, which is
-- Glicko-2, and `grown_deviation`) are arguments.
pub mod Counting
pub mod Found
pub mod Times
pub mod Totals
pub mod Dictionary
pub mod Compute
pub mod Sync
pub mod Keyed
pub mod Settled
pub mod Recompute
mod Tests
use cpcjudge_site.Base.{
  ℕ, zero, suc, ◌+◌, ◌-◌, ◌/◌, ◌==◌, Bool, true, false, not, ◌&&◌, ◌||◌, if◌then◌else◌, Option,
  none, some, is_some, List, [], ◌∷◌, ◌++◌, map, length, count, keep, ltb,
}
use cpcjudge_site.Arena.Outcome.{Slot, slot_a, slot_b}
use cpcjudge_site.Arena.Engine.Rows.{MatchStatus, GameStatus}
use cpcjudge_site.Arena.Rating.Dictionary.{Table, find, put}

pub data Ranking : Type 0 where
  undecided ranked excluded : Ranking

-- the reasons of a decided battle that rating.py asks about
pub data DecidedReason : Type 0 where
  played bye walkover : DecidedReason

pub data NeverReason : Type 0 where
  was_cancelled was_bye was_walkover was_guest : NeverReason

pub record RatedGame : Type 0 where
  pub status : GameStatus
  pub winner_slot : Option Slot
  pub finished_at : Option ℕ

-- A battle, with the ranking of its tournament, if it has one, and its games by number. An empty name is
-- `none`.
pub record RatedMatch : Type 0 where
  pub id : ℕ
  pub tournament_ranking : Option Ranking
  pub ranking : Ranking
  pub status : MatchStatus
  pub decided_reason : DecidedReason
  pub player_a : Option ℕ
  pub player_b : Option ℕ
  pub display_name_a : Option ℕ
  pub display_name_b : Option ℕ
  pub games : List RatedGame

abbrev pub is_cancelled : MatchStatus → Bool
is_cancelled MatchStatus.cancelled = true
is_cancelled _ = false

abbrev pub is_decided : MatchStatus → Bool
is_decided MatchStatus.decided = true
is_decided _ = false

abbrev pub is_ranked : Ranking → Bool
is_ranked Ranking.ranked = true
is_ranked _ = false

abbrev pub is_excluded : Ranking → Bool
is_excluded Ranking.excluded = true
is_excluded _ = false

abbrev pub is_unplayed : DecidedReason → Bool
is_unplayed DecidedReason.played = false
is_unplayed _ = true

unfoldable pub never_reason : RatedMatch → Option NeverReason
never_reason m = if is_cancelled m.status then some was_cancelled else elim m.decided_reason [
  | DecidedReason.bye ↦ some was_bye
  | DecidedReason.walkover ↦ some was_walkover
  | DecidedReason.played ↦
      if is_some m.display_name_a || is_some m.display_name_b then some was_guest else none
]

unfoldable pub decision : RatedMatch → Ranking
decision m = elim m.tournament_ranking [
  | none ↦ m.ranking
  | some tournament ↦ if is_excluded m.ranking then Ranking.excluded else tournament
]

-- `counts_q`, as a test of a battle
unfoldable pub counts_q : RatedMatch → Bool
counts_q m =
    elim m.tournament_ranking [
      | none ↦ is_ranked m.ranking
      | some tournament ↦ is_ranked tournament && not (is_excluded m.ranking)
    ]
    && (is_decided m.status
        && is_some m.player_a
        && is_some m.player_b
        && not (is_some m.display_name_a)
        && not (is_some m.display_name_b))
    && not (is_unplayed m.decided_reason)

-- Whether `after_decided` works the ranking out again.
unfoldable pub after_decided : RatedMatch → Bool
unfolding decision never_reason
after_decided m = is_ranked (decision m) && not (is_some (never_reason m))

-- a row of the query of `_battles`
pub record GameRow : Type 0 where
  pub match_id : ℕ
  pub a : ℕ
  pub b : ℕ
  pub winner : Slot
  pub finished_at : Option ℕ

abbrev pub is_finished : GameStatus → Bool
is_finished GameStatus.finished = true
is_finished _ = false

-- the rows of a battle that counts, whose finished games have a winner
unfoldable pub game_rows : ℕ → ℕ → ℕ → List RatedGame → List GameRow
game_rows id a b [] = []
game_rows id a b (g ∷ rest) =
    let others = game_rows id a b rest in
    elim g.winner_slot [
      | none ↦ others
      | some winner ↦
          if is_finished g.status
          then record { match_id = id; a = a; b = b; winner = winner; finished_at = g.finished_at }
            ∷ others
          else others
    ]

abbrev pub match_rows : RatedMatch → List GameRow
match_rows m = elim m.player_a [
  | none ↦ []
  | some a ↦ elim m.player_b [ none ↦ [] | some b ↦ game_rows m.id a b m.games ]
]

-- the query, for the battles in the order of their keys
unfoldable pub query : List RatedMatch → List GameRow
unfolding counts_q game_rows
query [] = []
query (m ∷ rest) = (if counts_q m then match_rows m else []) ++ query rest

pub record FoundBattle : Type 0 where
  pub a : ℕ
  pub b : ℕ
  pub winners : List Slot
  pub last : Option ℕ

abbrev pub latest : Option ℕ → Option ℕ → Option ℕ
latest none last = last
latest (some t) none = some t
latest (some t) (some last) = if ltb last t then some t else some last

-- one turn of the loop over the games
unfoldable pub count_game : Table ℕ FoundBattle → GameRow → Table ℕ FoundBattle
unfolding find put
count_game battles g =
    let found : FoundBattle = elim (find ◌==◌ g.match_id battles) [
      | none ↦ record { a = g.a; b = g.b; winners = []; last = g.finished_at }
      | some f ↦ f
    ] in
    put ◌==◌ g.match_id
      (record found {
        winners = found.winners ++ g.winner ∷ [];
        last = latest g.finished_at found.last;
      })
      battles

unfoldable pub count_games : Table ℕ FoundBattle → List GameRow → Table ℕ FoundBattle
unfolding count_game
count_games battles [] = battles
count_games battles (g ∷ rest) = count_games (count_game battles g) rest

pub record RatedBattle : Type 0 where
  pub match_id : ℕ
  pub a : ℕ
  pub b : ℕ
  pub winners : List Slot
  pub time : ℕ

-- the battles with a time
unfoldable pub timed : Table ℕ FoundBattle → List RatedBattle
timed [] = []
timed ((id, f) ∷ rest) =
    let others = timed rest in
    elim f.last [
      | none ↦ others
      | some time ↦
          record { match_id = id; a = f.a; b = f.b; winners = f.winners; time = time } ∷ others
    ]

-- `(battle[4], battle[0])` in order
abbrev pub comes_first : RatedBattle → RatedBattle → Bool
comes_first x y = ltb x.time y.time || (x.time == y.time && ltb x.match_id y.match_id)

unfoldable pub insert : RatedBattle → List RatedBattle → List RatedBattle
insert x [] = x ∷ []
insert x (y ∷ rest) =
    let others = insert x rest in if comes_first y x then y ∷ others else x ∷ y ∷ rest

unfoldable pub sorted : List RatedBattle → List RatedBattle
unfolding insert
sorted [] = []
sorted (x ∷ rest) = insert x (sorted rest)

-- `_battles`
unfoldable pub battles : List RatedMatch → List RatedBattle
unfolding query count_games timed sorted
battles matches = sorted (timed (count_games [] (query matches)))
