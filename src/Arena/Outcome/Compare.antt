-- ===== src/Arena/Outcome/Compare.antt =====
-- judge/arena/scoring.py: the worst case of a player is no better, and the best case no worse, than
-- any standing the player may end with.
use mathlib.Core.List.{append-nil}
use cpcjudge_site.Base.{
  ℕ, ◌≤◌, ◌≡◌, refl, sym, ◌∙◌, ap, subst, ◌⊎◌, inl, inr, Bool, true, false, Option, none, some,
  List, [], ◌∷◌, ◌++◌, All, count, keep, Bool-cases, arith,
}
use cpcjudge_site.Arena.Scoring.{Attempt, Event, pending, before, best_points, sort_events, row_of}
use cpcjudge_site.Arena.Outcome.{
  Problems, lookup, IsDict, collect, judged, failed, solved, add_future, best_events, future_event,
  solvable,
}
use cpcjudge_site.Arena.Outcome.Better.{Better, BetterTotals}
use cpcjudge_site.Arena.Outcome.Ordered.{
  on, either, IsStamp, Ascending, sort-collect, sort-snoc, IsStamp-either,
}
use cpcjudge_site.Arena.Outcome.Rows.{Better-prefix, Better-future, IsFuture}
use cpcjudge_site.Arena.Outcome.Future.{
  AllSettle, IsStamp-judged, IsStamp-failed, IsStamp-solved, IsApart-failed, IsApart-solved,
  settled_over_worst, best_over_settled, Dominates-each, Dominates-back,
}
use cpcjudge_site.Arena.Outcome.Chances.{on-append, promise, on-add_future, on_problem, best-new}
use cpcjudge_site.Arena.Outcome.Collected.{
  collect-append, All-collect, DatesUp-collect, sort-judged, Ascending-append, best-sort, totals_of,
  totals-Better, All-always, All-map, IsDict-lookup, All-join,
}

-- How the attempts `xs` of a player at the moment `now` may go on to be `ys`: verdicts arrive, and,
-- while submissions are open, later attempts are sent, within the attempts allowed.
pub record Continues (mx now : ℕ) (opened : Bool) (xs ys : List Attempt) : Type 0 where
  pub settled_part : List Attempt
  pub new_part : List Attempt
  pub parts : ys ≡ settled_part ++ new_part
  pub settled : AllSettle xs settled_part
  pub ordered : Ascending xs
  pub ordered_after : Ascending ys
  pub past : All (λ x. x.date ≤ now) xs
  pub late : All (λ y. (now ≤ y.date) × (pending y ≡ false)) new_part
  pub closed : opened ≡ false → new_part ≡ []
  pub limit : (k : ℕ) → (mx ≡ 0) ⊎ (count (on_problem k) ys ≤ mx)

module _ (problems : Problems) (partial : Bool) {mx now : ℕ} {opened : Bool} {xs ys : List Attempt}
    (c : Continues mx now opened xs ys) where
  open c use {
    settled_part, new_part, parts, settled, ordered, ordered_after, past, late, closed, limit,
  }

  judged_events : List Event
  judged_events = collect (judged problems partial) ys

  sorted-final :
      (k : ℕ)
      → sort_events (on k (collect (judged problems partial) ys))
        ≡ on k (collect (judged problems partial) settled_part)
          ++ on k (collect (judged problems partial) new_part)
  sorted-final k =
      sort-judged k (judged problems partial) (IsStamp-judged problems partial) ys ordered_after
      ∙ ap (λ l. on k (collect (judged problems partial) l)) parts
      ∙ ap (on k) (collect-append (judged problems partial) settled_part new_part)
      ∙ on-append k (collect (judged problems partial) settled_part)
          (collect (judged problems partial) new_part)

  sorted-worst :
      (k : ℕ)
      → sort_events
          (on k (collect (judged problems partial) xs ++ collect (failed problems partial) xs))
        ≡ on k (collect (either (judged problems partial) (failed problems partial)) xs)
  sorted-worst k =
      ap sort_events
        (on-append k (collect (judged problems partial) xs) (collect (failed problems partial) xs))
      ∙ sort-collect k (judged problems partial) (failed problems partial)
          (IsStamp-judged problems partial) (IsStamp-failed problems partial)
          (IsApart-failed problems partial) xs ordered

  -- Whatever the verdicts, the player ends at least as well as in the worst case.
  pub final-over-worst : BetterTotals (totals_of (collect (judged problems partial) ys) problems) (
      totals_of
        (collect (judged problems partial) xs ++ collect (failed problems partial) xs)
        problems)
  final-over-worst = totals-Better _ _ problems (
      All-always _
        (λ p.
          rw (sorted-final p.0, sorted-worst p.0)
            (Better-prefix (on p.0 (collect (judged problems partial) settled_part))
              (on p.0 (collect (either (judged problems partial) (failed problems partial)) xs))
              (on p.0 (collect (judged problems partial) new_part)) p.1
              (Dominates-each problems partial (judged problems partial)
                (either (judged problems partial) (failed problems partial))
                (settled_over_worst problems partial) p.0 xs settled_part settled)
              (DatesUp-collect p.0 (either (judged problems partial) (failed problems partial))
                (IsStamp-either p.0 (judged problems partial) (failed problems partial)
                  (IsStamp-judged problems partial) (IsStamp-failed problems partial)
                  (IsApart-failed problems partial))
                xs ordered)))
        problems)

  before-future :
      (k full : ℕ) (f : Attempt → Option Event)
      → IsStamp f
      → All (λ g. before g (future_event now k full) ≡ true) (on k (collect f xs))
  before-future k full f stamp =
      All-collect (λ g. before g (future_event now k full) ≡ true) (λ x. x.date ≤ now) k f
        (λ x e made le. let s = stamp x e made in (unfold before in ground arith)) xs past

  sorted-both :
      (k : ℕ)
      → sort_events (on k (best_events xs problems partial))
        ≡ on k (collect (either (judged problems partial) (solved problems partial)) xs)
  sorted-both k =
      ap sort_events
        (on-append k (collect (judged problems partial) xs) (collect (solved problems partial) xs))
      ∙ sort-collect k (judged problems partial) (solved problems partial)
          (IsStamp-judged problems partial) (IsStamp-solved problems partial)
          (IsApart-solved problems partial) xs ordered

  before-both :
      (k full : ℕ)
      → All
          (λ g. before g (future_event now k full) ≡ true)
          (on k (best_events xs problems partial))
  before-both k full =
      rw (on-append k (collect (judged problems partial) xs) (collect (solved problems partial) xs))
        (All-join (λ g. before g (future_event now k full) ≡ true)
          (on k (collect (judged problems partial) xs))
          (on k (collect (solved problems partial) xs))
          (before-future k full (judged problems partial) (IsStamp-judged problems partial))
          (before-future k full (solved problems partial) (IsStamp-solved problems partial)))

  no_promise :
      (k : ℕ)
      → sort_events (on k (best_events xs problems partial) ++ [])
        ≡ on k (collect (either (judged problems partial) (solved problems partial)) xs) ++ []
  no_promise k =
      ap sort_events (append-nil (on k (best_events xs problems partial)))
      ∙ sorted-both k
      ∙ sym (
          append-nil
            (on k (collect (either (judged problems partial) (solved problems partial)) xs)))

  -- The promise stays last.
  sort-promise :
      (k : ℕ) (o : Option ℕ)
      → sort_events (
          on k (best_events xs problems partial)
          ++ promise xs mx now (best_events xs problems partial) k o)
        ≡ on k (collect (either (judged problems partial) (solved problems partial)) xs)
          ++ promise xs mx now (best_events xs problems partial) k o
  sort-promise k none = no_promise k
  sort-promise k (some full) =
      elim (Bool-cases (solvable xs mx (best_events xs problems partial) k full)) [
        | inl promised ↦ rw promised (
            sort-snoc (future_event now k full) (on k (best_events xs problems partial))
              (before-both k full)
            ∙ ap (λ l. l ++ future_event now k full ∷ []) (sorted-both k))
        | inr refused ↦ rw refused (no_promise k)
      ]

  IsFuture-promise :
      (k : ℕ) (o : Option ℕ)
      → All (IsFuture now) (promise xs mx now (best_events xs problems partial) k o)
  IsFuture-promise k none = tt
  IsFuture-promise k (some full) =
      elim (Bool-cases (solvable xs mx (best_events xs problems partial) k full)) [
        | inl promised ↦ rw promised ((omega arith, refl), tt)
        | inr refused ↦ rw refused tt
      ]

  IsStamp-both : IsStamp (either (judged problems partial) (solved problems partial))
  IsStamp-both =
      IsStamp-either 0 (judged problems partial) (solved problems partial)
        (IsStamp-judged problems partial) (IsStamp-solved problems partial)
        (IsApart-solved problems partial)

  -- One problem of the best case, with `extra` for what it promises, against the end.
  rival_row :
      (k full : ℕ) (extra : List Event)
      → All (IsFuture now) extra
      → best_points (on k (collect (judged problems partial) new_part))
        ≤ best_points (
            on k (collect (either (judged problems partial) (solved problems partial)) xs) ++ extra)
      → Better
          (row_of
            (on k (collect (either (judged problems partial) (solved problems partial)) xs)
              ++ extra)
            full)
          (row_of
            (on k (collect (judged problems partial) settled_part)
              ++ on k (collect (judged problems partial) new_part))
            full)
  rival_row k full extra future enough =
      Better-future now
        (on k (collect (either (judged problems partial) (solved problems partial)) xs))
        (on k (collect (judged problems partial) settled_part)) extra
        (on k (collect (judged problems partial) new_part)) full
        (Dominates-back problems partial
          (either (judged problems partial) (solved problems partial)) (judged problems partial)
          (best_over_settled problems partial) k xs settled_part settled)
        (DatesUp-collect k (judged problems partial) (IsStamp-judged problems partial) settled_part
          (Ascending-append settled_part new_part (subst Ascending parts ordered_after)))
        (All-collect (λ e. e.date ≤ now) (λ x. x.date ≤ now) k
          (either (judged problems partial) (solved problems partial))
          (λ x e made le. let s = IsStamp-both x e made in omega arith) xs past)
        future
        (All-collect (λ e. now ≤ e.date) (λ y. (now ≤ y.date) × (pending y ≡ false)) k
          (judged problems partial)
          (λ y e made h. let s = IsStamp-judged problems partial y e made in omega arith) new_part
          late)
        enough

  sorted-future :
      IsDict problems
      → (k : ℕ)
      → sort_events (on k (add_future xs mx now (best_events xs problems partial) problems))
        ≡ on k (collect (either (judged problems partial) (solved problems partial)) xs)
          ++ promise xs mx now (best_events xs problems partial) k (lookup k problems)
  sorted-future d k =
      ap sort_events (on-add_future xs mx now k (best_events xs problems partial) problems d)
      ∙ sort-promise k (lookup k problems)

  enough_promised :
      (k full : ℕ)
      → lookup k problems ≡ some full
      → best_points (on k (collect (judged problems partial) new_part))
        ≤ best_points (
            on k (collect (either (judged problems partial) (solved problems partial)) xs)
            ++ promise xs mx now (best_events xs problems partial) k (lookup k problems))
  enough_promised k full known =
      subst (λ n. best_points (on k (collect (judged problems partial) new_part)) ≤ n)
        (sym (
            best-sort (
              on k (best_events xs problems partial)
              ++ promise xs mx now (best_events xs problems partial) k (lookup k problems)))
          ∙ ap best_points (sort-promise k (lookup k problems)))
        (best-new problems partial k full known xs settled_part new_part mx now settled
          (subst (λ l. (mx ≡ 0) ⊎ (count (on_problem k) l ≤ mx)) parts (limit k)))

  -- However it goes on while submissions are open, the player ends no better than in the best case.
  pub best-over-final :
      IsDict problems
      → BetterTotals
          (totals_of (add_future xs mx now (best_events xs problems partial) problems) problems)
          (totals_of (collect (judged problems partial) ys) problems)
  best-over-final d = totals-Better _ _ problems (
      All-map (λ p. lookup p.0 problems ≡ some p.1) _
        (λ p known.
          rw (sorted-future d p.0, sorted-final p.0)
            (rival_row p.0 p.1
              (promise xs mx now (best_events xs problems partial) p.0 (lookup p.0 problems))
              (IsFuture-promise p.0 (lookup p.0 problems)) (enough_promised p.0 p.1 known)))
        problems (IsDict-lookup problems d))

  -- The same once submissions are closed, when only verdicts are missing.
  pub best-over-final_closed :
      opened ≡ false
      → BetterTotals
          (totals_of (best_events xs problems partial) problems)
          (totals_of (collect (judged problems partial) ys) problems)
  best-over-final_closed shut = totals-Better _ _ problems (
      All-always _
        (λ p.
          rw (sorted-both p.0, sorted-final p.0)
            (subst
              (λ l. Better (row_of l p.1) (
                row_of
                  (on p.0 (collect (judged problems partial) settled_part)
                    ++ on p.0 (collect (judged problems partial) new_part))
                  p.1))
              (append-nil
                (on p.0 (collect (either (judged problems partial) (solved problems partial)) xs)))
              (rival_row p.0 p.1 [] tt (
                subst
                  (λ l.
                    best_points (on p.0 (collect (judged problems partial) l))
                    ≤ best_points (
                        on p.0
                          (collect (either (judged problems partial) (solved problems partial)) xs)
                        ++ []))
                  (sym (closed shut)) (unfold collect keep best_points in omega arith)))))
        problems)
