-- ===== src/Arena/Engine/Extended.antt =====
-- judge/arena/engine.py: what more time does to a game.
use cpcjudge_site.Base.{
  ℕ, ◌+◌, ◌-◌, ◌*◌, ◌≤◌, ◌<◌, ◌≡◌, refl, ap, sym, ◌∙◌, inl, inr, Bool, true, false, Option, none,
  some, List, [], ◌∷◌, leb→le, ==_refl, ◌==◌, Bool-cases, arith,
}
use cpcjudge_site.Arena.Scoring.{minute}
use cpcjudge_site.Arena.Engine.Rows.{
  ArenaError, Battle, Game, Result, done, require, find_game, save_game, put, is_open_status,
  moment_or, bump,
}
use cpcjudge_site.Arena.Engine.Actions.{extend_game, on_open_match, with_game}
use cpcjudge_site.Arena.Engine.Counting.{find_game-id}

find-save :
    (g old : Game) (games : List Game)
    → find_game g.id games ≡ some old
    → find_game g.id (save_game g games) ≡ some g
unfolding find_game save_game
find-save g old [] h = absurd (ground arith)
find-save g old (k ∷ rest) h = elim (Bool-cases (k.id == g.id)) [
  | inl e ↦ rw (e, ==_refl g.id) refl
  | inr e ↦ rw (e, e) (find-save g old rest (ground arith))
]

require-done :
    {b' : Battle} (ok : Bool) (e : ArenaError) (r : Result Battle)
    → require ok e r ≡ done b'
    → (ok ≡ true) × (r ≡ done b')
unfolding require
require-done true e r h = (refl, h)
require-done false e r h = absurd (ground arith)

on_open_match-done :
    {b' : Battle} (version : Option ℕ) (b : Battle) (r : Result Battle)
    → on_open_match version b r ≡ done b'
    → r ≡ done b'
unfolding on_open_match
on_open_match-done version b r h = (require-done _ _ _ ((require-done _ _ _ h).1)).1

with_game-done :
    {b' : Battle} (id : ℕ) (b : Battle) (g : Game) (f : Game → Result Battle)
    → find_game id b.games ≡ some g
    → with_game id b f ≡ done b'
    → f g ≡ done b'
unfolding with_game
with_game-done id b g f e h = sym (rw (with_game, e) refl) ∙ h

done_same : {b b' : Battle} → done b ≡ done b' → b ≡ b'
done_same h = ground arith

-- When more time is given, the game is one being played, and it ends later than before, by an hour at
-- most, and at most 300 minutes after it started; the match's version moves on.
pub extend_game-bounds :
    (actor game_id minutes : ℕ) (version : Option ℕ) (b b' : Battle) (g : Game)
    → find_game game_id b.games ≡ some g
    → extend_game actor game_id minutes version b ≡ done b'
    → (g' : Game) × (find_game game_id b'.games ≡ some g')
      × (is_open_status g.status ≡ true)
      × (moment_or g.ends_at 0 < moment_or g'.ends_at 0)
      × (moment_or g'.ends_at 0 ≤ moment_or g.ends_at 0 + 60 * minute)
      × (moment_or g'.ends_at 0 ≤ moment_or g'.started_at 0 + 300 * minute)
      × (b'.match_row.version ≡ b.match_row.version + 1)
unfolding extend_game
extend_game-bounds actor game_id minutes version b b' g found h =
    let (playing, h1) =
      require-done _ _ _ (with_game-done game_id b g _ found (on_open_match-done version b _ h)) in
    let (few, h2) = require-done _ _ _ h1 in
    let (short, h3) = require-done _ _ _ h2 in
    let ends = moment_or g.ends_at 0 + minutes * minute in
    let longer : Game = record g {
      ends_at = some ends;
      contest_end = elim g.contest_end [ none ↦ none | some _ ↦ some ends ];
    } in
    let same : record (put longer b) { match_row = bump (some actor) b.match_row } ≡ b' =
      done_same h3 in
    let same_id = find_game-id game_id g b.games found in
    let stored : find_game g.id b.games ≡ some g = ap (λ i. find_game i b.games) same_id ∙ found in
    let saved : find_game game_id (save_game longer b.games) ≡ some longer =
      ap (λ i. find_game i (save_game longer b.games)) (sym same_id)
      ∙ find-save longer g b.games stored in
    let least = leb→le 1 minutes (ground arith) in
    let most = leb→le minutes 60 (ground arith) in
    let total = leb→le (ends - moment_or g.started_at 0) (300 * minute) short in
    (
      longer,
      ap (λ x. find_game game_id x.games) (sym same) ∙ saved,
      playing,
      omega arith,
      omega arith,
      omega arith,
      ap (λ x. x.match_row.version) (sym same) ∙ omega arith,
    )
