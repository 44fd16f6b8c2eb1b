-- ===== src/Arena/Engine/Lock.antt =====
-- judge/arena/engine.py: until when the players of a battle are kept inside the arena. `idle` is what
-- `lock_idle_minutes` returns.
use cpcjudge_site.Base.{
  ℕ, ◌+◌, ◌*◌, ◌≤◌, ◌≡◌, refl, subst, true, Bool, false, Option, none, some, List, [], ◌∷◌, ◌++◌,
  ◌==◌, ==_refl, All, any, if◌then◌else◌, max, arith,
}
use cpcjudge_site.Arena.Scoring.{minute}
use cpcjudge_site.Arena.Engine.Rows.{Match, Game, is_active, moment_or}

abbrev pub later : Option ℕ → ℕ → ℕ
later none moment = moment
later (some t) moment = max t moment

-- the latest of `moment` and the moments of the game
abbrev pub game_moment : ℕ → Game → ℕ
game_moment moment g =
    let past = later g.finished_at (later g.started_at moment) in
    if is_active g.status then later g.ends_at past else past

pub last_moment : ℕ → List Game → ℕ
last_moment moment [] = moment
last_moment moment (g ∷ rest) = last_moment (game_moment moment g) rest

pub lock_until : ℕ → Match → List Game → ℕ
unfolding last_moment
lock_until idle m games = last_moment (moment_or m.called_at m.created_at) games + idle * minute

abbrev pub present : Option ℕ → List ℕ
present none = []
present (some t) = t ∷ []

-- the moments of the games: started, finished, and the end of one that is being played
abbrev pub moments : List Game → List ℕ
moments [] = []
moments (g ∷ rest) =
    present g.started_at
    ++ (present g.finished_at
        ++ ((if is_active g.status then present g.ends_at else []) ++ moments rest))

-- `t` and what comes after it: how the loop's moment is the greatest of them
abbrev IsLatest : ℕ → List ℕ → Type 0
IsLatest last l = All (λ t. t ≤ last) l × (any (λ t. t == last) l ≡ true)

-- One more moment, when the first of the list is the latest so far.
later-IsLatest :
    (last x : ℕ) (t : Option ℕ) (l : List ℕ)
    → IsLatest last (later t x ∷ l)
    → IsLatest last (x ∷ (present t ++ l))
unfolding any
later-IsLatest last x none l h = h
later-IsLatest last x (some t) l ((first, rest), attained) =
    ((ground arith, (ground arith, rest)), ground arith)

if_active-IsLatest :
    (last x : ℕ) (t : Option ℕ) (l : List ℕ) (active : Bool)
    → IsLatest last ((if active then later t x else x) ∷ l)
    → IsLatest last (x ∷ ((if active then present t else []) ++ l))
if_active-IsLatest last x t l true h = later-IsLatest last x t l h
if_active-IsLatest last x t l false h = h

last_moment-IsLatest :
    (x : ℕ) (games : List Game) → IsLatest (last_moment x games) (x ∷ moments games)
unfolding last_moment any
last_moment-IsLatest x [] = ((ground arith, tt), ground (arith, ==_refl x))
last_moment-IsLatest x (g ∷ rest) =
    let last = last_moment (game_moment x g) rest in
    let past : ℕ = later g.finished_at (later g.started_at x) in
    let ending : List ℕ = if is_active g.status then present g.ends_at else [] in
    let others : IsLatest last (game_moment x g ∷ moments rest) =
      last_moment-IsLatest (game_moment x g) rest in
    let ended : IsLatest last (past ∷ (ending ++ moments rest)) =
      if_active-IsLatest last past g.ends_at (moments rest) (is_active g.status) others in
    later-IsLatest last x g.started_at (present g.finished_at ++ (ending ++ moments rest))
      (later-IsLatest last (later g.started_at x) g.finished_at (ending ++ moments rest) ended)

-- when the battle was called, or made if it was not called
abbrev pub called_moment : Match → ℕ
called_moment m = elim m.called_at [ none ↦ m.created_at | some t ↦ t ]

called-moment_or : (m : Match) → moment_or m.called_at m.created_at ≡ called_moment m
called-moment_or m = ground arith

-- The players of a battle are kept inside for the idle time after the latest of these moments: when the
-- battle was called, or made if it was not called, when each game started and finished, and the end of each
-- game that is being played.
pub lock_until-IsLatest :
    (idle : ℕ) (m : Match) (games : List Game)
    → (last : ℕ) × (lock_until idle m games ≡ last + idle * minute)
      × All (λ t. t ≤ last) (called_moment m ∷ moments games)
      × (any (λ t. t == last) (called_moment m ∷ moments games) ≡ true)
unfolding lock_until
lock_until-IsLatest idle m games =
    let first = moment_or m.called_at m.created_at in
    let (covered, attained) =
      subst (λ t. IsLatest (last_moment first games) (t ∷ moments games)) (called-moment_or m)
        (last_moment-IsLatest first games) in
    (last_moment first games, refl, covered, attained)
