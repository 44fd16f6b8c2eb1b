-- ===== src/Arena/Rating/Sync.antt =====
-- judge/arena/rating.py: `_differences`, `check` and `recompute`. A stored table is a dictionary by its
-- unique key.
use cpcjudge_site.Base.{
  ℕ, ◌+◌, ◌==◌, Bool, true, not, ◌&&◌, Option, none, some, is_some, List, [], ◌∷◌, length, keep,
}
use cpcjudge_site.Arena.Rating.Dictionary.{Table, find, put, same_pair}
use cpcjudge_site.Arena.Rating.{RatedMatch, battles}
use cpcjudge_site.Arena.Rating.Compute.{
  Strength, Formula, Player, Change, Players, Changes, compute,
}

module _ {K V : Type 0} (same_key : K → K → Bool) where
  -- the rows to delete
  unfoldable pub gone : Table K V → Table K V → Table K V
  unfolding find
  gone stored computed = keep (λ (k, v). not (is_some (find same_key k computed))) stored

  -- the rows left after deleting those
  unfoldable pub kept_rows : Table K V → Table K V → Table K V
  unfolding find
  kept_rows stored computed = keep (λ (k, v). is_some (find same_key k computed)) stored

  unfoldable pub write : Table K V → Table K V → Table K V
  unfolding put
  write stored [] = stored
  write stored ((k, v) ∷ rest) = write (put same_key k v stored) rest

module _ {K V : Type 0} (same_key : K → K → Bool) (same : V → V → Bool) where
  -- whether a row must be written
  abbrev pub differs : Option V → V → Bool
  differs none v = true
  differs (some old) v = not (same old v)

  -- the rows to write
  unfoldable pub changed_rows : Table K V → Table K V → Table K V
  unfolding find
  changed_rows stored computed = keep (λ (k, v). differs (find same_key k stored) v) computed

  unfoldable pub sync : Table K V → Table K V → Table K V
  unfolding kept_rows changed_rows write
  sync stored computed =
      write same_key (kept_rows same_key stored computed) (changed_rows stored computed)

  -- how many rows are not as computed
  unfoldable pub behind : Table K V → Table K V → ℕ
  unfolding gone changed_rows
  behind stored computed =
      length (changed_rows stored computed) + length (gone same_key stored computed)

pub record Stored (F : Type 0) : Type 0 where
  pub ratings : Players F
  pub changes : Changes F

-- `_same`, of the fields of a rating and of a change: `close` says whether two floating-point numbers are
-- within its tolerance.
module _ {F : Type 0} (close : F → F → Bool) where
  abbrev pub same_strength : Strength F → Strength F → Bool
  same_strength old new =
      close old.rating new.rating
      && close old.deviation new.deviation
      && close old.volatility new.volatility

  unfoldable pub same_rating : Player F → Player F → Bool
  same_rating old new =
      same_strength old.strength new.strength
      && old.games == new.games
      && old.wins == new.wins
      && old.battles == new.battles
      && old.last_played == new.last_played

  unfoldable pub same_change : Change F → Change F → Bool
  same_change old new =
      old.time == new.time
      && close old.rating_before new.rating_before
      && same_strength old.after new.after
      && old.games == new.games
      && old.wins == new.wins
      && old.games_total == new.games_total

module _ {F : Type 0} (f : Formula F) (close : F → F → Bool) where
  -- `check`
  unfoldable pub check : List RatedMatch → Stored F → ℕ
  unfolding compute battles behind same_rating same_change
  check matches stored =
      let (players, changes) = compute f (battles matches) in
      behind ◌==◌ (same_rating close) stored.ratings players
      + behind same_pair (same_change close) stored.changes changes

  -- `recompute`, with what it returns
  unfoldable pub recompute : List RatedMatch → Stored F → Stored F × ℕ
  unfolding compute battles behind sync same_rating same_change
  recompute matches stored =
      let (players, changes) = compute f (battles matches) in
      (
        record {
          ratings = sync ◌==◌ (same_rating close) stored.ratings players;
          changes = sync same_pair (same_change close) stored.changes changes;
        },
        behind ◌==◌ (same_rating close) stored.ratings players
            + behind same_pair (same_change close) stored.changes changes,
      )
