-- ===== src/Arena/Outcome.antt =====
-- judge/arena/scoring.py: what a game is at a moment, from the attempts of its two players.
pub mod Better
pub mod Ordered
pub mod First
pub mod Rows
pub mod Future
pub mod Chances
pub mod Collected
pub mod Compare
pub mod Finality
pub mod Stuck
mod Tests
use cpcjudge_site.Base.{
  ℕ, zero, suc, ◌+◌, ◌-◌, ◌*◌, ◌≡◌, Bool, true, false, not, ◌&&◌, ◌||◌, Option, none, some, List,
  [], ◌∷◌, ◌++◌, ltb, leb, ◌==◌, if◌then◌else◌, keep, any, count, max,
}
use cpcjudge_site.Base.Int.{ℤ, ltb_ℤ}
use cpcjudge_site.Arena.Scoring.{
  Attempt, Event, Standing, ProblemStanding, pending, counts, penalizable, points_of, standing,
}

-- `problems`: the points of each problem by its key
abbrev pub Problems : Type 0
Problems = List (ℕ × ℕ)

pub lookup : ℕ → Problems → Option ℕ
lookup k [] = none
lookup k ((j, full) ∷ rest) = if j == k then some full else lookup k rest

-- A Python dict holds a key once.
abbrev pub IsDict : Problems → Type 0
IsDict [] = Unit
IsDict ((k, _) ∷ rest) = (lookup k rest ≡ none) × IsDict rest

-- `[f(a) for a in attempts if ...]`
pub collect : (Attempt → Option Event) → List Attempt → List Event
collect f [] = []
collect f (a ∷ rest) = elim (f a) [ none ↦ collect f rest | some e ↦ e ∷ collect f rest ]

abbrev pub event_of : Attempt → ℕ → Bool → Event
event_of a points penalizes = record {
  problem = a.problem;
  date = a.date;
  order_id = some a.id;
  points = points;
  penalizes = penalizes;
}

module _ (problems : Problems) (partial : Bool) where
  -- one item of `_judged_events`
  pub judged : Attempt → Option Event
  judged a = elim (lookup a.problem problems) [
    | none ↦ none
    | some full ↦
        if pending a then none else some (event_of a (points_of a full partial) (penalizable a))
  ]

  -- a pending submission in `worst_case`
  pub failed : Attempt → Option Event
  failed a = elim (lookup a.problem problems) [
    | none ↦ none
    | some full ↦ if pending a then some (event_of a 0 true) else none
  ]

  -- a pending submission in `best_case`
  pub solved : Attempt → Option Event
  solved a = elim (lookup a.problem problems) [
    | none ↦ none
    | some full ↦ if pending a then some (event_of a full false) else none
  ]

-- `_annotate`, for one problem
pub annotate_row : List Attempt → ℕ × ProblemStanding → ℕ × ProblemStanding
annotate_row attempts (key, row) = (
  key,
  record row {
    attempts = count (λ a. a.problem == key && counts a) attempts;
    pending_count = count (λ a. a.problem == key && pending a) attempts;
  },
)

annotate_rows : List Attempt → List (ℕ × ProblemStanding) → List (ℕ × ProblemStanding)
annotate_rows attempts [] = []
annotate_rows attempts (r ∷ rest) = annotate_row attempts r ∷ annotate_rows attempts rest

pub confirmed : List Attempt → Problems → Bool → ℕ → ℕ → Standing
unfolding annotate_rows annotate_row
confirmed attempts problems partial penalty started_at =
    let s = standing (collect (judged problems partial) attempts) problems penalty started_at in
    record s { problems = annotate_rows attempts s.problems }

pub worst_case : List Attempt → Problems → Bool → ℕ → ℕ → Standing
worst_case attempts problems partial penalty started_at =
    standing
      (collect (judged problems partial) attempts ++ collect (failed problems partial) attempts)
      problems penalty started_at

pub attempts_left : List Attempt → ℕ → ℕ → Option ℕ
attempts_left attempts problem max_attempts =
    if max_attempts == 0
    then none
    else some (max_attempts - count (λ a. a.problem == problem && counts a) attempts)

-- `left is None or left > 0`
abbrev pub can_attempt : Option ℕ → Bool
can_attempt none = true
can_attempt (some left) = ltb 0 left

-- whether `best_case` adds a full solve of the problem at `future_at`
pub solvable : List Attempt → ℕ → List Event → ℕ → ℕ → Bool
unfolding attempts_left
solvable attempts max_attempts events key full =
    not (any (λ e. e.problem == key && leb full e.points) events)
    && can_attempt (attempts_left attempts key max_attempts)

abbrev pub future_event : ℕ → ℕ → ℕ → Event
future_event future_at key full = record {
  problem = key;
  date = future_at;
  order_id = none;
  points = full;
  penalizes = false;
}

pub add_future : List Attempt → ℕ → ℕ → List Event → Problems → List Event
add_future attempts max_attempts future_at events [] = events
add_future attempts max_attempts future_at events ((key, full) ∷ rest) =
    add_future attempts max_attempts future_at
      (if solvable attempts max_attempts events key full
        then events ++ future_event future_at key full ∷ []
        else events)
      rest

abbrev pub best_events : List Attempt → Problems → Bool → List Event
best_events attempts problems partial =
    collect (judged problems partial) attempts ++ collect (solved problems partial) attempts

pub best_case : List Attempt → Problems → Bool → ℕ → ℕ → Option ℕ → ℕ → Standing
unfolding add_future
best_case attempts problems partial penalty started_at none max_attempts =
    standing (best_events attempts problems partial) problems penalty started_at
best_case attempts problems partial penalty started_at (some future_at) max_attempts =
    standing
      (add_future attempts max_attempts future_at (best_events attempts problems partial) problems)
      problems penalty started_at

-- `first.effective < second.effective`. Python would raise if one were `None`; the caller's test
-- that both scores are equal and above zero rules that out.
abbrev pub effective_before : Option ℤ → Option ℤ → Bool
effective_before (some a) (some b) = ltb_ℤ a b
effective_before _ _ = false

pub beats : Standing → Standing → Bool
beats first second =
    if ltb second.score first.score
    then true
    else if first.score == second.score && ltb 0 first.score
    then effective_before first.effective second.effective
    else false

pub data Slot : Type 0 where
  slot_a slot_b : Slot

pub data Outcome : Type 0 where
  countdown live verifying finish tie : Outcome

pub data Reason : Type 0 where
  all_solved unreachable more_points earlier : Reason

pub record Decision : Type 0 where
  pub outcome : Outcome
  pub winner : Option Slot
  pub reason : Option Reason

-- The rules that `decide` reads, as `merge` of rules.py leaves them.
pub record GameRules : Type 0 where
  pub partial : Bool
  pub penalty : ℕ
  pub max_attempts : ℕ

pub total_points : Problems → ℕ
total_points [] = 0
total_points ((_, full) ∷ rest) = full + total_points rest

-- the reason recorded when `worst`, of the leader, beats `best`, of the rival
pub reason_of : Bool → ℕ → Standing → Standing → Reason
reason_of open_future total worst best =
    if open_future
    then (if leb total worst.score then all_solved else unreachable)
    else if ltb best.score worst.score
    then more_points
    else earlier

abbrev undecided : Outcome → Decision
undecided outcome = record { outcome = outcome; winner = none; reason = none }

abbrev finished : Slot → Reason → Decision
finished slot reason = record { outcome = finish; winner = some slot; reason = some reason }

-- the `for leader, rival` loop of `decide`, and what follows it
pub decide_started : List Attempt → List Attempt → Problems → GameRules → ℕ → Bool → ℕ → Decision
unfolding total_points reason_of
decide_started attempts_a attempts_b problems rules started_at open_future now =
    let future_at = if open_future then some now else none in
    let total = total_points problems in
    let worst = λ (attempts : List Attempt).
      worst_case attempts problems rules.partial rules.penalty started_at in
    let best = λ (attempts : List Attempt).
      best_case attempts problems rules.partial rules.penalty started_at future_at
        rules.max_attempts in
    if beats (worst attempts_a) (best attempts_b)
    then finished slot_a (reason_of open_future total (worst attempts_a) (best attempts_b))
    else if beats (worst attempts_b) (best attempts_a)
    then finished slot_b (reason_of open_future total (worst attempts_b) (best attempts_a))
    else if open_future
    then undecided live
    else if any pending attempts_a || any pending attempts_b
    then undecided verifying
    else undecided tie

-- `open_future`
abbrev pub is_open : Bool → ℕ → ℕ → Bool
is_open closed now ends_at = not closed && ltb now ends_at

pub decide : List Attempt → List Attempt → Problems → GameRules → ℕ → ℕ → ℕ → Bool → Decision
unfolding decide_started
decide attempts_a attempts_b problems rules started_at ends_at now closed =
    if ltb now started_at
    then undecided countdown
    else decide_started attempts_a attempts_b problems rules started_at (is_open closed now ends_at)
        now

pub decide_ignoring_pending :
    List Attempt → List Attempt → Problems → GameRules → ℕ → ℕ → ℕ → Decision
unfolding decide
decide_ignoring_pending attempts_a attempts_b problems rules started_at ends_at now =
    decide (keep (λ x. not (pending x)) attempts_a) (keep (λ x. not (pending x)) attempts_b)
      problems rules started_at ends_at (max now ends_at) true
