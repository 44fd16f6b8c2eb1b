-- ===== src/Arena/Engine/Reachable.antt =====
-- judge/arena/engine.py: every sequence of actions and of looks at a game leaves a sound battle.
use cpcjudge_site.Base.{ℕ, ◌≡◌, subst, Bool, Option, List, arith}
use cpcjudge_site.Arena.Scoring.{Attempt}
use cpcjudge_site.Arena.Outcome.{Slot, Problems}
use cpcjudge_site.Arena.Engine.Rows.{Battle, Match, Game, PlayRules, Result, done}
use cpcjudge_site.Arena.Engine.Play.{tick}
use cpcjudge_site.Arena.Engine.Actions.{
  extend_game, update_match, walkover, cancel_match, add_game, cancel_game, declare_winner,
  finalize_verification, call_match, start_game, replace_player,
}
use cpcjudge_site.Arena.Engine.Sound.{Sound}
use cpcjudge_site.Arena.Engine.Endings.{tick-Sound}
use cpcjudge_site.Arena.Engine.Leaves.{
  Leaves, extend_game-Sound, update_match-Sound, walkover-Sound, cancel_match-Sound,
  replace_player-Sound,
}
use cpcjudge_site.Arena.Engine.Games.{
  add_game-Sound, declare_winner-Sound, finalize_verification-Sound, cancel_game-Sound,
  call_match-Sound, start_game-Sound,
}

-- what an action that does not raise gives
abbrev Gives : Result Battle → Battle → Type 0
Gives r b = r ≡ done b

-- What changes a battle, and how: an action that does not raise, or somebody looking at a game; and
-- submissions may arrive and be judged at any time.
pub data Step (bank : Match → Game → Option Problems) : Battle → Battle → Type 0 where
  looked : (now game_id : ℕ) (b : Battle) → Step bank b (tick bank now game_id b)
  judged :
      (attempts : ℕ → Slot → List Attempt) (b : Battle)
      → Step bank b (record b { attempts = attempts })
  added :
      {b' : Battle} (actor : ℕ) (version : Option ℕ) (b : Battle)
      → Gives (add_game bank actor version b) b'
      → Step bank b b'
  called :
      {b' : Battle} (actor now : ℕ) (running : Bool) (busy : ℕ → Bool) (version : Option ℕ)
      (b : Battle)
      → Gives (call_match bank actor now running busy version b) b'
      → Step bank b b'
  began :
      {b' : Battle} (actor now : ℕ) (rules : PlayRules) (force running : Bool) (busy : ℕ → Bool)
      (languages warned : Game → Bool) (game_id version : Option ℕ) (b : Battle)
      → Gives
          (start_game bank actor now rules force running busy languages warned game_id version b)
          b'
      → Step bank b b'
  extended :
      {b' : Battle} (actor game_id minutes : ℕ) (version : Option ℕ) (b : Battle)
      → Gives (extend_game actor game_id minutes version b) b'
      → Step bank b b'
  voided :
      {b' : Battle} (actor game_id now : ℕ) (version : Option ℕ) (b : Battle)
      → Gives (cancel_game bank actor game_id now version b) b'
      → Step bank b b'
  declared :
      {b' : Battle} (actor game_id : ℕ) (slot : Slot) (now : ℕ) (version : Option ℕ) (b : Battle)
      → Gives (declare_winner bank actor game_id slot now version b) b'
      → Step bank b b'
  verified :
      {b' : Battle} (actor game_id now : ℕ) (version : Option ℕ) (b : Battle)
      → Gives (finalize_verification bank actor game_id now version b) b'
      → Step bank b b'
  given :
      {b' : Battle} (actor : ℕ) (slot : Slot) (now : ℕ) (version : Option ℕ) (b : Battle)
      → Gives (walkover actor slot now version b) b'
      → Step bank b b'
  cancelled :
      {b' : Battle} (actor now : ℕ) (version : Option ℕ) (b : Battle)
      → Gives (cancel_match actor now version b) b'
      → Step bank b b'
  changed :
      {b' : Battle} (actor : ℕ) (version best_of : Option ℕ) (b : Battle)
      → Gives (update_match actor version best_of b) b'
      → Step bank b b'
  replaced :
      {b' : Battle} (actor : ℕ) (slot : Slot) (profile : ℕ) (busy : ℕ → Bool) (version : Option ℕ)
      (b : Battle)
      → Gives (replace_player actor slot profile busy version b) b'
      → Step bank b b'

pub data Reachable (bank : Match → Game → Option Problems) (b : Battle) : Battle → Type 0 where
  here : Reachable bank b b
  next : {b' b'' : Battle} → Reachable bank b b' → Step bank b' b'' → Reachable bank b b''

Gives-Sound : {r : Result Battle} {b : Battle} → Leaves r → Gives r b → Sound b
Gives-Sound {b = b} (Leaves.left {b = c} s) e =
    let same : c ≡ b = ground arith in subst Sound same s
Gives-Sound Leaves.raised e = absurd (ground arith)

step-Sound :
    {bank : Match → Game → Option Problems} {b b' : Battle} → Step bank b b' → Sound b → Sound b'
step-Sound {bank = k} (Step.looked now id b) s = tick-Sound k now id b s
step-Sound (Step.judged attempts b) s = record {
  counted = s.counted;
  one_active = s.one_active;
  quiet = s.quiet;
  below = s.below;
}
step-Sound {bank = k} (Step.added a v b e) s = Gives-Sound (add_game-Sound k a v b s) e
step-Sound {bank = k} (Step.called a n r bu v b e) s =
    Gives-Sound (call_match-Sound k a n r bu v b s) e
step-Sound {bank = k} (Step.began a n ru f r bu l w g v b e) s =
    Gives-Sound (start_game-Sound k a n ru f r bu l w g v b s) e
step-Sound (Step.extended a g m v b e) s = Gives-Sound (extend_game-Sound a g m v b s) e
step-Sound {bank = k} (Step.voided a g n v b e) s = Gives-Sound (cancel_game-Sound k a g n v b s) e
step-Sound {bank = k} (Step.declared a g l n v b e) s =
    Gives-Sound (declare_winner-Sound k a g l n v b s) e
step-Sound {bank = k} (Step.verified a g n v b e) s =
    Gives-Sound (finalize_verification-Sound k a g n v b s) e
step-Sound (Step.given a l n v b e) s = Gives-Sound (walkover-Sound a l n v b s) e
step-Sound (Step.cancelled a n v b e) s = Gives-Sound (cancel_match-Sound a n v b s) e
step-Sound (Step.changed a v o b e) s = Gives-Sound (update_match-Sound a v o b s) e
step-Sound (Step.replaced a l p bu v b e) s = Gives-Sound (replace_player-Sound a l p bu v b s) e

-- Whichever of the modelled actions are taken, in any order, and whenever a game is looked at: if a battle is sound, it
-- stays so. The wins of each player are the games they won, at most one game is played at a time, none
-- once the match is over, and nobody has the wins needed before it is.
pub Reachable-Sound :
    (bank : Match → Game → Option Problems) (b b' : Battle)
    → Sound b
    → Reachable bank b b'
    → Sound b'
Reachable-Sound bank b b' s Reachable.here = s
Reachable-Sound bank b b' s (Reachable.next before step) =
    step-Sound step (Reachable-Sound bank b _ s before)
