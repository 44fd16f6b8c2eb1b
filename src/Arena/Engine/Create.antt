-- ===== src/Arena/Engine/Create.antt =====
-- judge/arena/engine.py: `create_duel`, and what it calls. The visible problems, the battles that are not
-- over and the screens are what the queries find; names and titles are left out but for their lengths.
use cpcjudge_site.Base.{
  ℕ, ◌==◌, Bool, true, false, not, ◌&&◌, ◌||◌, Option, none, some, List, [], ◌∷◌, ◌++◌, map, any,
  contains, length, leb, if◌then◌else◌, same_option,
}
use cpcjudge_site.Base.Int.{ℤ, pos, negsuc}
use cpcjudge_site.Arena.Engine.Rows.{
  Match, MatchStatus, refused, Result, done, raise, require, is_over, is_locking,
}
use cpcjudge_site.Arena.Rules.{
  Texts, Json, Request, Rule, Rules, Cleaned, clean, invalid, crashed, clean_points, clean_best_of,
  clean_rules,
}

-- An entry of a list of problems: a problem, `none` when its key is not a number, and its points, which
-- are `DEFAULT_POINTS` when they are left out.
pub data ProblemEntry : Type 0 where
  entry : Option ℕ → Json → ProblemEntry
  malformed : ProblemEntry

abbrev pub max_problems : ℕ
max_problems = 5

abbrev pub max_display : ℕ
max_display = 40

-- a step, and what follows if it does not raise
unfoldable pub chain {ℓ κ} : {A : Type ℓ} {B : Type κ} → Result A → (A → Result B) → Result B
chain (done a) f = f a
chain (raise e) f = raise e

-- An error of rules.py, of either kind, ends the call.
abbrev pub or_raise {ℓ} : {A : Type ℓ} → Cleaned A → Result A
or_raise (clean a) = done a
or_raise invalid = raise refused
or_raise crashed = raise refused

abbrev pub Problem : Type 0
Problem = ℕ × ℤ

abbrev pub problem_ids : List Problem → List ℕ
problem_ids problems = map (λ p. p.0) problems

-- `len(set(ids)) != len(ids)`
unfoldable pub repeats : List ℕ → Bool
repeats [] = false
repeats (id ∷ rest) = contains id rest || repeats rest

unfoldable pub shares : List ℕ → List ℕ → Bool
shares [] used = false
shares (id ∷ rest) used = contains id used || shares rest used

-- a problem that the organizer sees, or that the game already has
abbrev pub is_found : List ℕ → List ℕ → List ℕ → ℕ → Bool
is_found visible kept existing id =
    contains id visible || (contains id kept && contains id existing)

unfoldable pub all_found : List ℕ → List ℕ → List ℕ → List ℕ → Bool
all_found visible kept existing [] = true
all_found visible kept existing (id ∷ rest) =
    is_found visible kept existing id && all_found visible kept existing rest

module _ (t : Texts) where
  unfoldable pub clean_problem_entries : List ProblemEntry → Result (List Problem)
  unfolding chain
  clean_problem_entries [] = done []
  clean_problem_entries (malformed ∷ rest) = raise refused
  clean_problem_entries (entry none points ∷ rest) = raise refused
  clean_problem_entries (entry (some id) points ∷ rest) =
      let others = clean_problem_entries rest in
      chain (or_raise (clean_points t points)) (λ z. chain others (λ l. done ((id, z) ∷ l)))

  -- `_clean_problem_list`
  unfoldable pub clean_problem_list :
      List ℕ → List ℕ → List ℕ → List ℕ → List ProblemEntry → Result (List Problem)
  unfolding chain clean_problem_entries repeats shares all_found require
  clean_problem_list visible used kept existing entries =
      require (leb (length entries) max_problems) refused (
        chain (clean_problem_entries entries) (λ problems.
          require (not (repeats (problem_ids problems))) refused (
            require (not (shares (problem_ids problems) used)) refused (
              require (all_found visible kept existing (problem_ids problems)) refused
                (done problems)))))

  -- the loop over the games
  unfoldable pub clean_games :
      List ℕ → List ℕ → List (List ProblemEntry) → Result (List (List Problem))
  unfolding chain clean_problem_list
  clean_games visible used [] = done []
  clean_games visible used (entries ∷ rest) =
      chain (clean_problem_list visible used [] [] entries) (λ problems.
        chain (clean_games visible (problem_ids problems ++ used) rest)
          (λ others. done (problems ∷ others)))

  unfoldable pub clean_display : Option ℕ → Result (Option ℕ)
  unfolding require
  clean_display none = done none
  clean_display (some name) = require (leb (t.size name) max_display) refused (done (some name))

-- `_busy_elsewhere`
abbrev pub busy_elsewhere : List Match → ℕ → Bool
busy_elsewhere matches p =
    any
      (λ m.
        is_locking m.status && (same_option m.player_a (some p) || same_option m.player_b (some p)))
      matches

pub data ScreenMode : Type 0 where
  idle bracket shows_match message : ScreenMode

-- a screen, with the status of the battle that it shows, if that battle exists
pub record Screen : Type 0 where
  pub id : ℕ
  pub mode : ScreenMode
  pub battle_status : Option MatchStatus

abbrev pub is_free : Screen → Bool
is_free s = elim s.mode [
  | ScreenMode.idle ↦ true
  | ScreenMode.shows_match ↦ elim s.battle_status [ none ↦ true | some status ↦ is_over status ]
  | _ ↦ false
]

-- `_free_screen`
unfoldable pub free_screen : List Screen → Option Screen
free_screen [] = none
free_screen (s ∷ rest) = let later = free_screen rest in if is_free s then some s else later

pub record Duel : Type 0 where
  pub player_a : ℕ
  pub player_b : ℕ
  pub display_a : Option ℕ
  pub display_b : Option ℕ
  pub best_of : ℤ
  pub rules : Rules
  pub status : MatchStatus
  pub called_at : Option ℕ
  pub created_by : ℕ
  pub games : List (List Problem)
  pub screen : Option ℕ

-- what the form asks for
pub record DuelRequest : Type 0 where
  pub player_a : Option ℕ
  pub player_b : Option ℕ
  pub games : List (List ProblemEntry)
  pub best_of : Json
  pub rules : Request
  pub display_a : Option ℕ
  pub display_b : Option ℕ
  pub call : Bool

abbrev pub is_filled : List (List Problem) → Bool
is_filled [] = false
is_filled ([] ∷ rest) = false
is_filled ((p ∷ ps) ∷ rest) = true

-- whether there are at most as many games as the series has
abbrev pub fits : ℕ → ℤ → Bool
fits n (pos k) = leb n k
fits n (negsuc k) = false

module _ (t : Texts) (rule_of : ℕ → Option Rule) (visible : List ℕ) (matches : List Match)
    (screens : List Screen) where
  -- `create_duel` once both players are known
  unfoldable pub create_between : ℕ → ℕ → DuelRequest → ℕ → ℕ → Result Duel
  unfolding chain clean_display clean_games free_screen require
  create_between actor now r a b = require (not (a == b)) refused (
      require (not (a == actor || b == actor)) refused (
        chain (or_raise (clean_best_of t r.best_of)) (λ best_of.
          chain (or_raise (clean_rules t rule_of r.rules)) (λ rules.
            chain (clean_display t r.display_a) (λ display_a.
              chain (clean_display t r.display_b) (λ display_b.
                require (not (busy_elsewhere matches a || busy_elsewhere matches b)) refused (
                  require (fits (length r.games) best_of) refused (
                    chain (clean_games t visible [] r.games) (λ games.
                      require (is_filled games) refused (
                        done (record {
                          player_a = a;
                          player_b = b;
                          display_a = display_a;
                          display_b = display_b;
                          best_of = best_of;
                          rules = rules;
                          status = if r.call then MatchStatus.called else MatchStatus.ready;
                          called_at = if r.call then some now else none;
                          created_by = actor;
                          games = games;
                          screen = elim (free_screen screens) [ none ↦ none | some s ↦ some s.id ];
                        })))))))))))

  unfoldable pub create_duel : ℕ → ℕ → DuelRequest → Result Duel
  unfolding create_between
  create_duel actor now r = elim r.player_a [
    | none ↦ raise refused
    | some a ↦ elim r.player_b [ none ↦ raise refused | some b ↦ create_between actor now r a b ]
  ]
