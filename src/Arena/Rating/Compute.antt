-- ===== src/Arena/Rating/Compute.antt =====
-- judge/arena/rating.py: `compute`, the ranking from the start.
use cpcjudge_site.Base.{
  ℕ, ◌+◌, ◌-◌, ◌/◌, ◌==◌, if◌then◌else◌, Bool, Option, none, some, List, [], ◌∷◌, map, length,
  count,
}
use cpcjudge_site.Arena.Outcome.{Slot, slot_a, slot_b}
use cpcjudge_site.Arena.Bracket.{same_slot}
use cpcjudge_site.Arena.Rating.Dictionary.{Table, find, put, same_pair}
use cpcjudge_site.Arena.Rating.{RatedBattle}

-- `PERIOD`, a week in microseconds
abbrev pub period : ℕ
period = 604800000000

pub record Strength (F : Type 0) : Type 0 where
  pub rating : F
  pub deviation : F
  pub volatility : F

-- The numbers and the formulas: `grow` is the deviation after some whole weeks, at least one, and a result is the rival's rating and deviation, and whether the game was won.
pub record Formula (F : Type 0) : Type 0 where
  pub start : Strength F
  pub rate : Strength F → List (F × F × Bool) → Strength F
  pub grow : F → F → ℕ → F

pub record Player (F : Type 0) : Type 0 where
  pub strength : Strength F
  pub games : ℕ
  pub wins : ℕ
  pub battles : ℕ
  pub last_played : ℕ

pub record Change (F : Type 0) : Type 0 where
  pub time : ℕ
  pub rating_before : F
  pub after : Strength F
  pub games : ℕ
  pub wins : ℕ
  pub games_total : ℕ

abbrev pub Players : Type 0 → Type 0
Players F = Table ℕ (Player F)

abbrev pub Changes : Type 0 → Type 0
Changes F = Table (ℕ × ℕ) (Change F)

module _ {F : Type 0} (f : Formula F) where
  abbrev pub grown_deviation : F → F → ℕ → F
  grown_deviation deviation volatility weeks =
      if weeks == 0 then deviation else f.grow deviation volatility weeks

  -- `before[profile_id]`
  unfoldable pub before_of : Players F → ℕ → ℕ → Strength F
  unfolding find
  before_of players time profile = elim (find ◌==◌ profile players) [
    | none ↦ f.start
    | some state ↦
        let weeks = (time - state.last_played) / period in
        record state.strength {
          deviation = grown_deviation state.strength.deviation state.strength.volatility weeks;
        }
  ]

  abbrev pub totals : Option (Player F) → ℕ × ℕ × ℕ
  totals none = (0, 0, 0)
  totals (some state) = (state.games, state.wins, state.battles)

  -- what one player gets from a battle
  unfoldable pub player_after :
      Players F → RatedBattle → ℕ → Slot → Strength F → Strength F → Player F
  unfolding find
  player_after players battle profile slot own rival =
      let (games, wins, battles) = totals (find ◌==◌ profile players) in
      let results = map (λ w. (rival.rating, rival.deviation, same_slot w slot)) battle.winners in
      record {
        strength = f.rate own results;
        games = games + length battle.winners;
        wins = wins + count (λ w. same_slot w slot) battle.winners;
        battles = battles + 1;
        last_played = battle.time;
      }

  -- one turn of the loop over the two players
  unfoldable pub rate_player :
      RatedBattle
      → ℕ
      → Slot
      → Strength F
      → Strength F
      → Players F × Changes F
      → Players F × Changes F
  unfolding put player_after
  rate_player battle profile slot own rival (players, changes) =
      let state = player_after players battle profile slot own rival in
      (
        put ◌==◌ profile state players,
        put same_pair (battle.match_id, profile)
            (record {
              time = battle.time;
              rating_before = own.rating;
              after = state.strength;
              games = length battle.winners;
              wins = count (λ w. same_slot w slot) battle.winners;
              games_total = state.games;
            })
            changes,
      )

  unfoldable pub rate_battle : RatedBattle → Players F × Changes F → Players F × Changes F
  unfolding before_of rate_player
  rate_battle battle (players, changes) =
      let a = before_of players battle.time battle.a in
      let b = before_of players battle.time battle.b in
      rate_player battle battle.b slot_b b a
        (rate_player battle battle.a slot_a a b (players, changes))

  unfoldable pub rate_battles : List RatedBattle → Players F × Changes F → Players F × Changes F
  unfolding rate_battle
  rate_battles [] st = st
  rate_battles (battle ∷ rest) st = rate_battles rest (rate_battle battle st)

  -- `compute`, of the battles that count
  unfoldable pub compute : List RatedBattle → Players F × Changes F
  unfolding rate_battles
  compute battles = rate_battles battles ([], [])
