-- ===== src/Arena/Outcome/Collected.antt =====
-- judge/arena/scoring.py: events collected from attempts, sorted, and the totals of their rows.
use mathlib.Core.Path.{fun_ext}
use mathlib.Core.List.{append-nil}
use cpcjudge_site.Base.{
  ℕ, ◌≤◌, ◌≡◌, refl, sym, ◌∙◌, ap, inl, inr, Option, none, some, List, [], ◌∷◌, ◌++◌, ◌==◌, ==_refl,
  ==_iff, All, max, keep, Bool-cases, arith,
}
use cpcjudge_site.Arena.Scoring.{
  Attempt, Event, Totals, best_points, insert_event, sort_events, row_of, rows_of, add_rows,
  no_totals,
}
use cpcjudge_site.Arena.Outcome.{Problems, lookup, IsDict, collect}
use cpcjudge_site.Arena.Outcome.Better.{Better, BetterRows, BetterTotals, add_rows-BetterTotals}
use cpcjudge_site.Arena.Outcome.Ordered.{
  on, put, on-collect, either, IsStamp, Ascending, After, sort-collect, All-put,
}
use cpcjudge_site.Arena.Outcome.First.{DatesUp}

pub collect-append :
    (f : Attempt → Option Event) (xs ys : List Attempt)
    → collect f (xs ++ ys) ≡ collect f xs ++ collect f ys
unfolding collect
collect-append f [] ys = refl
collect-append f (x ∷ xs) ys = ground (arith, collect-append f xs ys)

pub All-collect {ℓ κ} :
    (P : Event → Type ℓ) (Q : Attempt → Type κ) (k : ℕ) (f : Attempt → Option Event)
    → ((x : Attempt) (e : Event) → f x ≡ some e → Q x → P e)
    → (xs : List Attempt) → All Q xs
    → All P (on k (collect f xs))
All-collect P Q k f each [] h = unfold collect keep in tt
All-collect P Q k f each (x ∷ xs) h = rw on-collect (
    All-put P k (f x) (on k (collect f xs)) (λ e made. each x e made h.0)
      (All-collect P Q k f each xs h.1))

DatesUp-put :
    (k : ℕ) (o : Option Event) (l : List Event)
    → ((e : Event) → o ≡ some e → All (λ g. e.date ≤ g.date) l)
    → DatesUp l
    → DatesUp (put k o l)
DatesUp-put k none l h d = d
DatesUp-put k (some e) l h d = elim (Bool-cases (e.problem == k)) [
  | inl here ↦ rw here (h e refl, d)
  | inr other ↦ rw other d
]

pub DatesUp-collect :
    (k : ℕ) (f : Attempt → Option Event)
    → IsStamp f
    → (xs : List Attempt) → Ascending xs
    → DatesUp (on k (collect f xs))
DatesUp-collect k f stamp [] h = unfold collect keep in tt
DatesUp-collect k f stamp (x ∷ xs) h = rw on-collect (
    DatesUp-put k (f x) (on k (collect f xs))
      (λ e made.
        All-collect (λ g. e.date ≤ g.date) (After x) k f
          (λ y g made' after.
            let here = stamp x e made in let there = stamp y g made' in ground arith)
          xs h.0)
      (DatesUp-collect k f stamp xs h.1))

nothing : Attempt → Option Event
nothing x = none

collect-nothing : (xs : List Attempt) → collect nothing xs ≡ []
unfolding collect nothing
collect-nothing [] = refl
collect-nothing (x ∷ xs) = collect-nothing xs

either-nothing : (f : Attempt → Option Event) → either f nothing ≡ f
unfolding nothing
either-nothing f = fun_ext (λ x. by_result (f x))
  where
    by_result : (o : Option Event) → elim o [ none ↦ none | some e ↦ some e ] ≡ o
    by_result none = refl
    by_result (some e) = refl

-- Events collected in one go are sorted already.
pub sort-judged :
    (k : ℕ) (f : Attempt → Option Event)
    → IsStamp f
    → (xs : List Attempt) → Ascending xs
    → sort_events (on k (collect f xs)) ≡ on k (collect f xs)
sort-judged k f stamp xs h =
    let sorted =
      sort-collect k f nothing stamp (unfold nothing in λ x e made. cc)
        (unfold nothing in λ x e made. refl) xs h in
    let none_more : on k (collect nothing xs) ≡ [] =
      ap (on k) (collect-nothing xs) ∙ (unfold keep in refl) in
    ap sort_events
      (sym (append-nil (on k (collect f xs))) ∙ ap (λ l. on k (collect f xs) ++ l) (sym none_more))
    ∙ sorted
    ∙ ap (λ g. on k (collect g xs)) (either-nothing f)

pub Ascending-append : (xs ys : List Attempt) → Ascending (xs ++ ys) → Ascending xs
Ascending-append [] ys h = tt
Ascending-append (x ∷ xs) ys h = (All-append (After x) xs ys h.0, Ascending-append xs ys h.1)
  where
    All-append : (P : Attempt → Type 0) (xs ys : List Attempt) → All P (xs ++ ys) → All P xs
    All-append P [] ys h = tt
    All-append P (x ∷ xs) ys h = (h.0, All-append P xs ys h.1)

best-insert :
    (e : Event) (l : List Event) → best_points (insert_event e l) ≡ max e.points (best_points l)
unfolding insert_event best_points
best-insert e [] = refl
best-insert e (f ∷ l) = ground (arith, best-insert e l)

pub best-sort : (l : List Event) → best_points (sort_events l) ≡ best_points l
unfolding sort_events best_points
best-sort [] = refl
best-sort (e ∷ l) = best-insert e (sort_events l) ∙ ap (max e.points) (best-sort l)

unfoldable pub totals_of : List Event → Problems → Totals
totals_of events problems = add_rows no_totals (rows_of events problems)

rows-BetterRows :
    (l m : List Event) (ps : Problems)
    → All
        (λ p. Better (row_of (sort_events (on p.0 l)) p.1) (row_of (sort_events (on p.0 m)) p.1))
        ps
    → BetterRows (rows_of l ps) (rows_of m ps)
unfolding rows_of
rows-BetterRows l m [] h = tt
rows-BetterRows l m ((k, full) ∷ ps) h = (h.0, rows-BetterRows l m ps h.1)

no_totals-Better : BetterTotals no_totals no_totals
no_totals-Better = record { score_le = omega arith; reached = λ _. tt; fewer = λ _. omega arith }

pub totals-Better :
    (l m : List Event) (ps : Problems)
    → All
        (λ p. Better (row_of (sort_events (on p.0 l)) p.1) (row_of (sort_events (on p.0 m)) p.1))
        ps
    → BetterTotals (totals_of l ps) (totals_of m ps)
unfolding totals_of
totals-Better l m ps h =
    add_rows-BetterTotals no_totals no_totals (rows_of l ps) (rows_of m ps) no_totals-Better
      (rows-BetterRows l m ps h)

pub All-always {ℓ κ} : {A : Type ℓ} (P : A → Type κ) → ((x : A) → P x) → (xs : List A) → All P xs
All-always P h [] = tt
All-always P h (x ∷ xs) = (h x, All-always P h xs)

pub All-map {ℓ κ λ'} :
    {A : Type ℓ} (P : A → Type κ) (Q : A → Type λ')
    → ((x : A) → P x → Q x)
    → (xs : List A) → All P xs
    → All Q xs
All-map P Q f [] h = tt
All-map P Q f (x ∷ xs) h = (f x h.0, All-map P Q f xs h.1)

-- Every entry of a dict is found under its key.
pub IsDict-lookup : (ps : Problems) → IsDict ps → All (λ p. lookup p.0 ps ≡ some p.1) ps
unfolding lookup
IsDict-lookup [] d = tt
IsDict-lookup ((k, full) ∷ ps) d = (
  rw (==_refl k) refl,
  All-map (λ p. lookup p.0 ps ≡ some p.1) (λ p. lookup p.0 ((k, full) ∷ ps) ≡ some p.1)
      (λ p h. elim (Bool-cases (k == p.0)) [
        | inl here ↦ absurd (
            let same : lookup k ps ≡ some p.1 = ap (λ j. lookup j ps) ((==_iff k p.0).0 here) ∙ h in
            let clash : none ≡ some p.1 = sym d.0 ∙ same in cc)
        | inr other ↦ rw other h
      ])
      ps (IsDict-lookup ps d.1),
)

pub All-join {ℓ κ} :
    {A : Type ℓ} (P : A → Type κ) (xs ys : List A) → All P xs → All P ys → All P (xs ++ ys)
All-join P [] ys h k = k
All-join P (x ∷ xs) ys h k = (h.0, All-join P xs ys h.1 k)
