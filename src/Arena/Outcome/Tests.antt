-- ===== src/Arena/Outcome/Tests.antt =====
-- A game of one problem, called for player A while B still has a verdict to come.
use cpcjudge_site.Base.{
  ℕ, ◌≡◌, refl, inl, inr, false, true, none, some, List, [], ◌∷◌, arith, Option, keep, any, count,
  ◌≤◌,
}
use cpcjudge_site.Arena.Scoring.{
  Attempt, Status, Verdict, standing, add_row, row_of, best_points, sort_events, insert_event,
  first_at, points_of, add_rows, before, rows_of,
}
use cpcjudge_site.Arena.Outcome.{
  Problems, GameRules, Reason, all_solved, decide, finished, slot_a, decide_started, lookup, beats,
  best_case, solvable, collect, judged, solved, failed, worst_case, add_future, attempts_left,
  reason_of, total_points,
}
use cpcjudge_site.Arena.Outcome.Compare.{Continues}
use cpcjudge_site.Arena.Outcome.Chances.{on_problem}
use cpcjudge_site.Arena.Outcome.{decide_ignoring_pending}
use cpcjudge_site.Arena.Outcome.Stuck.{IsSettled, decide_ignoring_pending-IsSettled}
use cpcjudge_site.Arena.Outcome.Finality.{finish_is_final}

abbrev attempt : ℕ → ℕ → Status → Option Verdict → Attempt
attempt id date status result = record {
  id = id;
  date = date;
  status = status;
  result = result;
  case_points = 5;
  case_total = 5;
  problem = 0;
}

abbrev one_problem : Problems
one_problem = (0, 100000) ∷ []

abbrev rules : GameRules
rules = record { partial = true; penalty = 10; max_attempts = 3 }

abbrev solved_by_a : List Attempt
solved_by_a = attempt 1 10 Status.completed (some Verdict.ac) ∷ []

abbrev waiting_of_b : List Attempt
waiting_of_b = attempt 2 15 Status.queued none ∷ []

-- B's waiting attempt did not compile, and B solved the problem later on.
abbrev final_of_b : List Attempt
final_of_b =
    attempt 2 15 Status.compile_error (some Verdict.ce)
    ∷ attempt 3 30 Status.completed (some Verdict.ac)
    ∷ []

called_early :
    decide solved_by_a waiting_of_b one_problem rules 5 100 20 false ≡ finished slot_a all_solved
unfolding decide decide_started standing lookup beats best_case add_row row_of best_points
    sort_events insert_event first_at keep solvable any collect judged solved failed worst_case
    points_of add_future attempts_left reason_of total_points add_rows before rows_of count
called_early = refl

limit_a : (k : ℕ) → count (on_problem k) solved_by_a ≤ 3
unfolding count
limit_a k = ground arith

a-Continues : Continues 3 20 true solved_by_a solved_by_a
a-Continues = record {
  settled_part = solved_by_a;
  new_part = [];
  parts = refl;
  settled = (
    record {
      same_id = refl;
      same_date = refl;
      same_problem = refl;
      is_judged = refl;
      kept = λ _. refl;
    },
    tt,
  );
  ordered = (tt, tt);
  ordered_after = (tt, tt);
  past = (omega arith, tt);
  late = tt;
  closed = λ h. refl;
  limit = λ k. inr (limit_a k);
}

limit_b : (k : ℕ) → count (on_problem k) final_of_b ≤ 3
unfolding count
limit_b k = ground arith

b-Continues : Continues 3 20 true waiting_of_b final_of_b
b-Continues = record {
  settled_part = attempt 2 15 Status.compile_error (some Verdict.ce) ∷ [];
  new_part = attempt 3 30 Status.completed (some Verdict.ac) ∷ [];
  parts = refl;
  settled = (
    record {
      same_id = refl;
      same_date = refl;
      same_problem = refl;
      is_judged = refl;
      kept = λ h. cc;
    },
    tt,
  );
  ordered = (tt, tt);
  ordered_after = ((inl (omega arith), tt), (tt, tt));
  past = (omega arith, tt);
  late = ((omega arith, refl), tt);
  closed = λ h. cc;
  limit = λ k. inr (limit_b k);
}

finish_is_final_example :
    (reason' : Reason) × (decide solved_by_a final_of_b one_problem rules 5 110 120 true
      ≡ finished slot_a reason')
unfolding lookup
finish_is_final_example =
    finish_is_final one_problem rules 5 100 110 20 120 false true solved_by_a waiting_of_b
      solved_by_a final_of_b slot_a all_solved (refl, tt) a-Continues b-Continues (omega arith) refl
      called_early

decide_ignoring_pending-IsSettled_example :
    IsSettled (decide_ignoring_pending solved_by_a waiting_of_b one_problem rules 5 100 20)
decide_ignoring_pending-IsSettled_example =
    decide_ignoring_pending-IsSettled solved_by_a waiting_of_b one_problem rules 5 100 20
      (omega arith)
