-- ===== src/Arena/Scoring.antt =====
-- judge/arena/scoring.py: the standings of two players and the outcome of a game.
-- Points are whole thousandths of a point and dates whole microseconds, the grids on which the
-- source rounds and compares (its EPSILON is below both), so its comparisons are exact here.
use cpcjudge_site.Base.{
  ℕ, ◌+◌, ◌*◌, ◌/◌, ◌%◌, Bool, true, false, not, ◌&&◌, ◌||◌, Option, none, some, List, [], ◌∷◌, ltb,
  leb, ◌==◌, if◌then◌else◌, max, min, keep,
}
use cpcjudge_site.Base.Int.{ℤ, sub_ℕ}

-- `Submission.status`
pub data Status : Type 0 where
  queued processing grading completed internal_error compile_error aborted : Status

-- `Submission.result`
pub data Verdict : Type 0 where
  ac wa tle mle ole ir rte ce ie sc ab : Verdict

pub record Attempt : Type 0 where
  pub id : ℕ
  pub date : ℕ
  pub status : Status
  pub result : Option Verdict
  pub case_points : ℕ
  pub case_total : ℕ
  pub problem : ℕ

-- `status in PENDING`
abbrev pub is_pending : Status → Bool
is_pending Status.queued = true
is_pending Status.processing = true
is_pending Status.grading = true
is_pending _ = false

-- `status not in NOT_ATTEMPTS`
abbrev pub is_attempt : Status → Bool
is_attempt Status.internal_error = false
is_attempt Status.compile_error = false
is_attempt _ = true

abbrev is_completed : Status → Bool
is_completed Status.completed = true
is_completed _ = false

abbrev is_accepted : Option Verdict → Bool
is_accepted (some Verdict.ac) = true
is_accepted _ = false

abbrev pub pending : Attempt → Bool
pending a = is_pending a.status

abbrev pub counts : Attempt → Bool
counts a = is_attempt a.status

abbrev pub penalizable : Attempt → Bool
penalizable a = not (pending a) && is_attempt a.status

-- `round` of a quotient: to the nearest, halves to the even neighbour
pub round_div : ℕ → ℕ → ℕ
round_div n d =
    let q = n / d in
    let r = n % d in
    if ltb (2 * r) d then q else if ltb d (2 * r) then q + 1 else if q % 2 == 0 then q else q + 1

unfoldable pub points_of : Attempt → ℕ → Bool → ℕ
points_of a full partial =
    if not (is_completed a.status) || a.case_total == 0
    then 0
    else if is_accepted a.result && leb a.case_total a.case_points
    then full
    else if partial
    then min full (round_div (a.case_points * full) a.case_total)
    else 0

-- `_Event`; its order is the pair of the date and the id, where `none` is `float('inf')`.
pub record Event : Type 0 where
  pub problem : ℕ
  pub date : ℕ
  pub order_id : Option ℕ
  pub points : ℕ
  pub penalizes : Bool

abbrev id_before : Option ℕ → Option ℕ → Bool
id_before (some i) (some j) = ltb i j
id_before (some _) none = true
id_before none _ = false

-- `e.order < f.order`
unfoldable pub before : Event → Event → Bool
before e f = ltb e.date f.date || (e.date == f.date && id_before e.order_id f.order_id)

-- `sorted(events, key=order)`: a stable insertion sort
unfoldable pub insert_event : Event → List Event → List Event
insert_event e [] = e ∷ []
insert_event e (f ∷ rest) = if before f e then f ∷ insert_event e rest else e ∷ f ∷ rest

unfoldable pub sort_events : List Event → List Event
sort_events [] = []
sort_events (e ∷ rest) = insert_event e (sort_events rest)

-- `max((event.points for event in ordered), default=0.0)`
unfoldable pub best_points : List Event → ℕ
best_points [] = 0
best_points (e ∷ rest) = max e.points (best_points rest)

-- The date of the first event with at least `best` points, and how many events before it penalize.
unfoldable pub first_at : ℕ → List Event → Option (ℕ × ℕ)
first_at best [] = none
first_at best (e ∷ rest) =
    if leb best e.points then some (e.date, 0) else elim (first_at best rest) [
      | none ↦ none
      | some (date, penalized) ↦ some (date, (if e.penalizes then 1 else 0) + penalized)
    ]

pub record ProblemStanding : Type 0 where
  pub best : ℕ
  pub full : Bool
  pub attempts : ℕ
  pub pending_count : ℕ
  pub penalized : ℕ
  pub best_at : Option ℕ
  pub solved_at : Option ℕ

abbrev pub empty_row : ProblemStanding
empty_row = record {
  best = 0;
  full = false;
  attempts = 0;
  pending_count = 0;
  penalized = 0;
  best_at = none;
  solved_at = none;
}

unfoldable pub row_of : List Event → ℕ → ProblemStanding
row_of ordered full =
    let best = best_points ordered in
    if ltb 0 best
    then elim (first_at best ordered) [
      | none ↦ empty_row
      | some (date, penalized) ↦ record {
        best = best;
        full = leb full best;
        attempts = 0;
        pending_count = 0;
        penalized = penalized;
        best_at = some date;
        solved_at = if leb full best then some date else none;
      }
    ]
    else empty_row

-- `score`, `reach` and `penalized` while the rows are added up
pub record Totals : Type 0 where
  pub score : ℕ
  pub reach : Option ℕ
  pub penalized : ℕ

-- `row.best_at if standing.reach is None else max(standing.reach, row.best_at)`
abbrev latest : Option ℕ → Option ℕ → Option ℕ
latest none date = date
latest (some reach) none = some reach
latest (some reach) (some date) = some (max reach date)

unfoldable pub add_row : Totals → ProblemStanding → Totals
add_row t row =
    if ltb 0 row.best
    then record {
      score = t.score + row.best;
      reach = latest t.reach row.best_at;
      penalized = t.penalized + row.penalized;
    }
    else t

pub record Standing : Type 0 where
  pub score : ℕ
  pub reach : Option ℕ
  pub penalized : ℕ
  pub effective : Option ℤ
  pub problems : List (ℕ × ProblemStanding)

unfoldable pub add_rows : Totals → List (ℕ × ProblemStanding) → Totals
add_rows t [] = t
add_rows t ((_, row) ∷ rest) = add_rows (add_row t row) rest

-- A problem is its key and its points.
unfoldable pub rows_of : List Event → List (ℕ × ℕ) → List (ℕ × ProblemStanding)
rows_of events [] = []
rows_of events ((key, full) ∷ rest) =
    (key, row_of (sort_events (keep (λ e. e.problem == key) events)) full) ∷ rows_of events rest

abbrev pub minute : ℕ
minute = 60000000

-- `(reach - started_at) + penalty minutes for each failed attempt`, which may be below zero
abbrev pub effective_of : ℕ → ℕ → Totals → Option ℤ
effective_of penalty started_at t = elim t.reach [
  | none ↦ none
  | some reach ↦ some (sub_ℕ (reach + penalty * minute * t.penalized) started_at)
]

abbrev pub standing_from : ℕ → ℕ → Totals → List (ℕ × ProblemStanding) → Standing
standing_from penalty started_at t rows = record {
  score = t.score;
  reach = t.reach;
  penalized = t.penalized;
  effective = effective_of penalty started_at t;
  problems = rows;
}

abbrev pub no_totals : Totals
no_totals = record { score = 0; reach = none; penalized = 0 }

unfoldable pub standing : List Event → List (ℕ × ℕ) → ℕ → ℕ → Standing
unfolding rows_of add_rows
standing events problems penalty started_at =
    let rows = rows_of events problems in
    standing_from penalty started_at (add_rows no_totals rows) rows
