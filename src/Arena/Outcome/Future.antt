-- ===== src/Arena/Outcome/Future.antt =====
-- judge/arena/scoring.py: what may still happen to the attempts of a player after a moment `now`,
-- and the events it gives beside those of the worst and the best case.
use cpcjudge_site.Base.{
  ℕ, ◌≤◌, ◌≡◌, refl, sym, ◌∙◌, ap, inl, inr, Bool, true, false, Option, none, some, List, [], ◌∷◌,
  ◌==◌, keep, Bool-cases, Option-cases, arith,
}
use cpcjudge_site.Arena.Scoring.{Attempt, Event, points_of, pending, penalizable}
use cpcjudge_site.Arena.Outcome.{Problems, lookup, collect, judged, failed, solved, event_of}
use cpcjudge_site.Arena.Outcome.Ordered.{on, put, on-collect, either, IsStamp, IsApart}
use cpcjudge_site.Arena.Outcome.First.{Dominates}

-- A verdict arrives for what was pending; what was judged stays as it was.
pub record Settles (x y : Attempt) : Type 0 where
  pub same_id : y.id ≡ x.id
  pub same_date : y.date ≡ x.date
  pub same_problem : y.problem ≡ x.problem
  pub is_judged : pending y ≡ false
  pub kept : pending x ≡ false → y ≡ x

abbrev pub AllSettle : List Attempt → List Attempt → Type 0
AllSettle [] [] = Unit
AllSettle (x ∷ xs) (y ∷ ys) = Settles x y × AllSettle xs ys
AllSettle _ _ = ⊥

pub points_of-le : (x : Attempt) (full : ℕ) (partial : Bool) → points_of x full partial ≤ full
unfolding points_of
points_of-le x full partial = ground arith

-- Both none, or two events of one problem of which the first is at least as good.
abbrev pub DominatesAt : Option Event → Option Event → Type 0
DominatesAt none none = Unit
DominatesAt (some e) (some f) =
    (e.problem ≡ f.problem)
    × (e.date ≡ f.date)
    × (f.points ≤ e.points)
    × (e.penalizes ≡ true → f.penalizes ≡ true)
DominatesAt _ _ = ⊥

Dominates-put :
    (k : ℕ) (o q : Option Event) (l m : List Event)
    → DominatesAt o q
    → Dominates l m
    → Dominates (put k o l) (put k q m)
Dominates-put k none none l m h d = d
Dominates-put k none (some f) l m h d = absurd h
Dominates-put k (some e) none l m h d = absurd h
Dominates-put k (some e) (some f) l m h d = elim (Bool-cases (f.problem == k)) [
  | inl here ↦ rw (h.0, here) ((h.1, h.2, h.3), d)
  | inr other ↦ rw (h.0, other) d
]

module _ (problems : Problems) (partial : Bool) where
  pub IsStamp-judged : IsStamp (judged problems partial)
  unfolding judged
  IsStamp-judged x e h = ground arith

  pub IsStamp-failed : IsStamp (failed problems partial)
  unfolding failed
  IsStamp-failed x e h = ground arith

  pub IsStamp-solved : IsStamp (solved problems partial)
  unfolding solved
  IsStamp-solved x e h = ground arith

  pub IsApart-failed : IsApart (judged problems partial) (failed problems partial)
  unfolding judged failed
  IsApart-failed x e h = ground arith

  pub IsApart-solved : IsApart (judged problems partial) (solved problems partial)
  unfolding judged solved
  IsApart-solved x e h = ground arith

  judged_known :
      (x : Attempt) (full : ℕ)
      → lookup x.problem problems ≡ some full
      → pending x ≡ false
      → judged problems partial x ≡ some (event_of x (points_of x full partial) (penalizable x))
  unfolding judged
  judged_known x full h p = ground arith

  judged_unknown :
      (x : Attempt) → lookup x.problem problems ≡ none → judged problems partial x ≡ none
  unfolding judged
  judged_unknown x h = ground arith

  judged-pending : (x : Attempt) → pending x ≡ true → judged problems partial x ≡ none
  unfolding judged
  judged-pending x p = ground arith

  -- What a pending attempt is in the worst and in the best case.
  failed_known :
      (x : Attempt) (full : ℕ)
      → lookup x.problem problems ≡ some full
      → pending x ≡ true
      → failed problems partial x ≡ some (event_of x 0 true)
  unfolding failed
  failed_known x full h p = ground arith

  solved_known :
      (x : Attempt) (full : ℕ)
      → lookup x.problem problems ≡ some full
      → pending x ≡ true
      → solved problems partial x ≡ some (event_of x full false)
  unfolding solved
  solved_known x full h p = ground arith

  failed_unknown :
      (x : Attempt) → lookup x.problem problems ≡ none → failed problems partial x ≡ none
  unfolding failed
  failed_unknown x h = ground arith

  solved_unknown :
      (x : Attempt) → lookup x.problem problems ≡ none → solved problems partial x ≡ none
  unfolding solved
  solved_unknown x h = ground arith

  by_second :
      (f g : Attempt → Option Event) (x : Attempt) (q : Option Event)
      → f x ≡ none
      → g x ≡ q
      → either f g x ≡ q
  by_second f g x q h e = rw (h, either) e

  judged_self :
      (g : Attempt → Option Event) (x : Attempt)
      → pending x ≡ false
      → (lookup x.problem problems ≡ none → g x ≡ none)
      → either (judged problems partial) g x ≡ judged problems partial x
  judged_self g x done none_too = elim (Option-cases (lookup x.problem problems)) [
    | inl unknown ↦ rw (judged_unknown x unknown, either) (none_too unknown)
    | inr (full, known) ↦ rw (judged_known x full known done, either) refl
  ]

  DominatesAt-refl : (o : Option Event) → DominatesAt o o
  DominatesAt-refl none = tt
  DominatesAt-refl (some e) = (refl, refl, omega arith, λ h. h)

  DominatesAt-eq :
      {o o' q q' : Option Event} → o ≡ o' → q ≡ q' → DominatesAt o' q' → DominatesAt o q
  DominatesAt-eq e f h = rw (e, f) h

  -- The verdict of a pending attempt is at least as good as a failure, and at most a full solve.
  pub settled_over_worst :
      (x y : Attempt)
      → Settles x y
      → DominatesAt
          (judged problems partial y)
          (either (judged problems partial) (failed problems partial) x)
  settled_over_worst x y h = elim (Bool-cases (pending x)) [
    | inl waiting ↦ elim (Option-cases (lookup x.problem problems)) [
      | inl unknown ↦
          DominatesAt-eq (judged_unknown y (ap (λ k. lookup k problems) h.same_problem ∙ unknown))
            (by_second (judged problems partial) (failed problems partial) x none
              (judged_unknown x unknown) (failed_unknown x unknown))
            tt
      | inr (full, known) ↦
          DominatesAt-eq
            (judged_known y full (ap (λ k. lookup k problems) h.same_problem ∙ known) h.is_judged)
            (by_second (judged problems partial) (failed problems partial) x
              (some (event_of x 0 true)) (judged-pending x waiting)
              (failed_known x full known waiting))
            (h.same_problem, h.same_date, omega arith, λ _. refl)
    ]
    | inr done ↦
        DominatesAt-eq (ap (judged problems partial) (h.kept done))
          (judged_self (failed problems partial) x done (failed_unknown x))
          (DominatesAt-refl (judged problems partial x))
  ]

  pub best_over_settled :
      (x y : Attempt)
      → Settles x y
      → DominatesAt
          (either (judged problems partial) (solved problems partial) x)
          (judged problems partial y)
  best_over_settled x y h = elim (Bool-cases (pending x)) [
    | inl waiting ↦ elim (Option-cases (lookup x.problem problems)) [
      | inl unknown ↦
          DominatesAt-eq
            (by_second (judged problems partial) (solved problems partial) x none
              (judged_unknown x unknown) (solved_unknown x unknown))
            (judged_unknown y (ap (λ k. lookup k problems) h.same_problem ∙ unknown)) tt
      | inr (full, known) ↦
          DominatesAt-eq
            (by_second (judged problems partial) (solved problems partial) x
              (some (event_of x full false)) (judged-pending x waiting)
              (solved_known x full known waiting))
            (judged_known y full (ap (λ k. lookup k problems) h.same_problem ∙ known) h.is_judged)
            (sym h.same_problem, sym h.same_date, points_of-le y full partial, λ no_penalty. cc)
    ]
    | inr done ↦
        DominatesAt-eq (judged_self (solved problems partial) x done (solved_unknown x))
          (ap (judged problems partial) (h.kept done))
          (DominatesAt-refl (judged problems partial x))
  ]

  pub Dominates-each :
      (f g : Attempt → Option Event)
      → ((x y : Attempt) → Settles x y → DominatesAt (f y) (g x))
      → (k : ℕ) (xs ys : List Attempt) → AllSettle xs ys
      → Dominates (on k (collect f ys)) (on k (collect g xs))
  Dominates-each f g each k [] [] h = unfold collect keep in tt
  Dominates-each f g each k [] (y ∷ ys) h = absurd h
  Dominates-each f g each k (x ∷ xs) [] h = absurd h
  Dominates-each f g each k (x ∷ xs) (y ∷ ys) h =
      rw (on-collect k f y ys, on-collect k g x xs)
        (Dominates-put k (f y) (g x) (on k (collect f ys)) (on k (collect g xs)) (each x y h.0)
          (Dominates-each f g each k xs ys h.1))

  pub Dominates-back :
      (f g : Attempt → Option Event)
      → ((x y : Attempt) → Settles x y → DominatesAt (f x) (g y))
      → (k : ℕ) (xs ys : List Attempt) → AllSettle xs ys
      → Dominates (on k (collect f xs)) (on k (collect g ys))
  Dominates-back f g each k [] [] h = unfold collect keep in tt
  Dominates-back f g each k [] (y ∷ ys) h = absurd h
  Dominates-back f g each k (x ∷ xs) [] h = absurd h
  Dominates-back f g each k (x ∷ xs) (y ∷ ys) h =
      rw (on-collect k f x xs, on-collect k g y ys)
        (Dominates-put k (f x) (g y) (on k (collect f xs)) (on k (collect g ys)) (each x y h.0)
          (Dominates-back f g each k xs ys h.1))
