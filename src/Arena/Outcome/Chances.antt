-- ===== src/Arena/Outcome/Chances.antt =====
-- judge/arena/scoring.py: the full solves that `best_case` promises for a moment `now`, and what a
-- problem without such a promise can still give.
use mathlib.Core.Path.{ap₂}
use mathlib.Core.List.{append-nil}
use native.Mathlib.Nat.{le_trans}
use cpcjudge_site.Base.{
  ℕ, ◌+◌, ◌≤◌, ◌≡◌, refl, sym, ◌∙◌, ap, subst, ◌⊎◌, inl, inr, Bool, true, false, ◌&&◌, ◌||◌, Option,
  none, some, List, [], ◌∷◌, ◌++◌, leb, ◌==◌, ==_iff, ==_refl, if◌then◌else◌, All, any, count, keep,
  Bool-cases, Option-cases, arith,
}
use cpcjudge_site.Arena.Scoring.{Attempt, Event, points_of, pending, counts, best_points}
use cpcjudge_site.Arena.Outcome.{
  Problems, lookup, IsDict, collect, judged, solved, solvable, can_attempt, attempts_left,
  add_future, future_event, best_events,
}
use cpcjudge_site.Arena.Outcome.Ordered.{on, put, on-collect}
use cpcjudge_site.Arena.Outcome.Future.{AllSettle, points_of-le}

pub on-append : (k : ℕ) (l m : List Event) → on k (l ++ m) ≡ on k l ++ on k m
unfolding keep
on-append k [] m = refl
on-append k (e ∷ l) m = ground (arith, on-append k l m)

any-append : {A : Type 0} (p : A → Bool) (l m : List A) → any p (l ++ m) ≡ (any p l || any p m)
unfolding any
any-append p [] m = refl
any-append p (e ∷ l) m = ground (arith, any-append p l m)

abbrev reaches : ℕ → ℕ → Event → Bool
reaches key full e = e.problem == key && leb full e.points

-- Reaching a number on problem `k` is a matter of its own events.
reaches-best :
    (k full : ℕ) (l : List Event) → any (reaches k full) l ≡ true → full ≤ best_points (on k l)
unfolding any keep best_points
reaches-best k full [] h = cc
reaches-best k full (e ∷ l) h = ground (arith, reaches-best k full l)

solvable-other :
    (attempts : List Attempt) (mx : ℕ) (events : List Event) (e : Event) (k full : ℕ)
    → (e.problem == k) ≡ false
    → solvable attempts mx (events ++ e ∷ []) k full ≡ solvable attempts mx events k full
unfolding solvable
solvable-other attempts mx events e k full h =
    let same : any (reaches k full) (events ++ e ∷ []) ≡ any (reaches k full) events =
      any-append (reaches k full) events (e ∷ []) ∙ (unfold any in ground arith) in
    rw same

-- The promise for problem `k`, if there is one.
abbrev pub promise : List Attempt → ℕ → ℕ → List Event → ℕ → Option ℕ → List Event
promise attempts mx now events k none = []
promise attempts mx now events k (some full) =
    if solvable attempts mx events k full then future_event now k full ∷ [] else []

module _ (attempts : List Attempt) (mx now k : ℕ) where
  -- one round of the loop of `best_case`
  abbrev added : List Event → ℕ → ℕ → List Event
  added events j full =
      if solvable attempts mx events j full then events ++ future_event now j full ∷ [] else events

  on-future_other : (j full : ℕ) → (j == k) ≡ false → on k (future_event now j full ∷ []) ≡ []
  unfolding keep
  on-future_other j full h = rw h

  on-added_here :
      (events : List Event) (full : ℕ)
      → on k (added events k full) ≡ on k events ++ promise attempts mx now events k (some full)
  on-added_here events full = elim (Bool-cases (solvable attempts mx events k full)) [
    | inl yes_it_is ↦ rw yes_it_is (
        on-append k events (future_event now k full ∷ [])
        ∙ ap (λ l. on k events ++ l) (unfold keep in rw (==_refl k)))
    | inr not_it ↦ rw not_it (sym (append-nil (on k events)))
  ]

  on-added_other :
      (events : List Event) (j full : ℕ)
      → (j == k) ≡ false
      → on k (added events j full) ≡ on k events
  on-added_other events j full h = elim (Bool-cases (solvable attempts mx events j full)) [
    | inl yes_it_is ↦ rw yes_it_is (
        on-append k events (future_event now j full ∷ [])
        ∙ ap (λ l. on k events ++ l) (on-future_other j full h)
        ∙ append-nil (on k events))
    | inr not_it ↦ rw not_it refl
  ]

  promise-added_other :
      (events : List Event) (j full : ℕ) (o : Option ℕ)
      → (j == k) ≡ false
      → promise attempts mx now (added events j full) k o ≡ promise attempts mx now events k o
  promise-added_other events j full none h = refl
  promise-added_other events j full (some f) h =
      elim (Bool-cases (solvable attempts mx events j full)) [
        | inl yes_it_is ↦
            rw (yes_it_is, solvable-other attempts mx events (future_event now j full) k f h) refl
        | inr not_it ↦ rw not_it refl
      ]

  this_key :
      (events : List Event) (j full : ℕ) (ps : Problems)
      → lookup j ps ≡ none
      → (j == k) ≡ true
      → on k (add_future attempts mx now (added events j full) ps)
        ≡ on k (added events j full)
          ++ promise attempts mx now (added events j full) k (lookup k ps)
      → on k (add_future attempts mx now (added events j full) ps)
        ≡ on k events ++ promise attempts mx now events k (some full)
  this_key events j full ps fresh here ih =
      let e : j ≡ k = (==_iff j k).0 here in
      let gone : lookup k ps ≡ none = subst (λ i. lookup i ps ≡ none) e fresh in
      ih
      ∙ ap (λ o. on k (added events j full) ++ promise attempts mx now (added events j full) k o)
          gone
      ∙ append-nil (on k (added events j full))
      ∙ subst
          (λ i.
            on k (added events i full)
            ≡ on k events ++ promise attempts mx now events k (some full))
          (sym e) (on-added_here events full)

  -- Only the promise for problem `k` joins its events.
  pub on-add_future :
      (events : List Event) (ps : Problems)
      → IsDict ps
      → on k (add_future attempts mx now events ps)
        ≡ on k events ++ promise attempts mx now events k (lookup k ps)
  unfolding add_future lookup
  on-add_future events [] d = sym (append-nil (on k events))
  on-add_future events ((j, full) ∷ ps) d = elim (Bool-cases (j == k)) [
    | inl here ↦
        rw here (this_key events j full ps d.0 here (on-add_future (added events j full) ps d.1))
    | inr other ↦ rw other (
        on-add_future (added events j full) ps d.1
        ∙ ap₂ ◌++◌ (on-added_other events j full other)
            (promise-added_other events j full (lookup k ps) other))
  ]

-- The problem allows no more counting attempts than it has had.
abbrev pub on_problem : ℕ → Attempt → Bool
on_problem k a = a.problem == k && counts a

count-append : {A : Type 0} (p : A → Bool) (l m : List A) → count p (l ++ m) ≡ count p l + count p m
unfolding count
count-append p [] m = omega arith
count-append p (x ∷ l) m = omega (arith, count-append p l m)

best-append_right :
    (l : List Event) (e : Event) {n : ℕ} → n ≤ e.points → n ≤ best_points (l ++ e ∷ [])
unfolding best_points
best-append_right [] e h = ground arith
best-append_right (f ∷ l) e h = ground (arith, best-append_right l e h)

module _ (problems : Problems) (partial : Bool) (k full : ℕ)
    (known : lookup k problems ≡ some full) where
  -- With no event that solves the problem, none of its attempts is pending.
  none_pending :
      (x : Attempt) (xs : List Attempt)
      → any (reaches k full) (collect (solved problems partial) (x ∷ xs)) ≡ false
      → ((x.problem == k && pending x) ≡ false)
        × (any (reaches k full) (collect (solved problems partial) xs) ≡ false)
  unfolding collect any solved
  none_pending x xs h = elim (Bool-cases (x.problem == k)) [
    | inl here ↦
        let same : lookup x.problem problems ≡ some full =
          ap (λ j. lookup j problems) ((==_iff x.problem k).0 here) ∙ known in
        ground arith
    | inr other ↦ elim (Option-cases (lookup x.problem problems)) [
      | inl unknown ↦ ground arith
      | inr (f, there) ↦ ground arith
    ]
  ]

  count_other :
      (x y : Attempt) {n m : ℕ}
      → y.problem ≡ x.problem
      → (x.problem == k) ≡ false
      → n ≡ m
      → (if on_problem k x then 1 else 0) + n ≡ (if on_problem k y then 1 else 0) + m
  count_other x y e h p = ground arith

  count-settled :
      (xs ys : List Attempt)
      → AllSettle xs ys
      → any (reaches k full) (collect (solved problems partial) xs) ≡ false
      → count (on_problem k) xs ≡ count (on_problem k) ys
  unfolding count
  count-settled [] [] h none_solved = refl
  count-settled [] (y ∷ ys) h none_solved = absurd h
  count-settled (x ∷ xs) [] h none_solved = absurd h
  count-settled (x ∷ xs) (y ∷ ys) h none_solved =
      let (not_waiting, rest) = none_pending x xs none_solved in
      let ih = count-settled xs ys h.1 rest in
      elim (Bool-cases (pending x)) [
        | inl waiting ↦ count_other x y h.0.same_problem (ground arith) ih
        | inr done ↦ rw (h.0.kept done) (ap (λ n. (if on_problem k x then 1 else 0) + n) ih)
      ]

  points-uncounted : (x : Attempt) → counts x ≡ false → points_of x full partial ≡ 0
  unfolding points_of
  points-uncounted x h = ground arith

  points-on :
      (y : Attempt) (e : Event)
      → judged problems partial y ≡ some e
      → (e.problem == k) ≡ true
      → (y.problem ≡ k) × (e.points ≡ points_of y full partial)
  unfolding judged
  points-on y e made here = elim (Option-cases (lookup y.problem problems)) [
    | inl unknown ↦ absurd (ground arith)
    | inr (f, there) ↦
        let at_k : y.problem ≡ k = ground arith in
        let found : some f ≡ some full = sym there ∙ ap (λ j. lookup j problems) at_k ∙ known in
        let same : f ≡ full = cc in (at_k, ground arith)
  ]

  best-put :
      (c : ℕ) (y : Attempt) (l : List Event)
      → (y.problem ≡ k → points_of y full partial ≤ c)
      → best_points l ≤ c
      → best_points (put k (judged problems partial y) l) ≤ c
  best-put c y l bound h = by_event (judged problems partial y) refl
    where
      by_event : (o : Option Event) → judged problems partial y ≡ o → best_points (put k o l) ≤ c
      by_event none made = h
      by_event (some e) made = elim (Bool-cases (e.problem == k)) [
        | inl here ↦
            let (at_k, points) = points-on y e made here in
            rw here (unfold best_points in ground (arith, bound at_k))
        | inr other ↦ rw other h
      ]

  best-le :
      (c : ℕ) (ys : List Attempt)
      → All (λ y. y.problem ≡ k → points_of y full partial ≤ c) ys
      → best_points (on k (collect (judged problems partial) ys)) ≤ c
  best-le c [] h = unfold collect keep best_points in omega arith
  best-le c (y ∷ ys) h =
      rw on-collect
        (best-put c y (on k (collect (judged problems partial) ys)) h.0 (best-le c ys h.1))

  All-uncounted :
      (ys : List Attempt)
      → count (on_problem k) ys ≡ 0
      → All (λ y. y.problem ≡ k → points_of y full partial ≤ 0) ys
  unfolding count
  All-uncounted [] h = tt
  All-uncounted (y ∷ ys) h =
      (λ at_k. omega (arith, points-uncounted y (ground arith)), All-uncounted ys (ground arith))

  All-le_full : (ys : List Attempt) → All (λ y. y.problem ≡ k → points_of y full partial ≤ full) ys
  All-le_full [] = tt
  All-le_full (y ∷ ys) = (λ _. points_of-le y full partial, All-le_full ys)

  out_of_attempts :
      (xs zs new : List Attempt) (mx : ℕ)
      → AllSettle xs zs
      → ((mx ≡ 0) ⊎ (count (on_problem k) (zs ++ new) ≤ mx))
      → any (reaches k full) (best_events xs problems partial) ≡ false
      → can_attempt (attempts_left xs k mx) ≡ false
      → count (on_problem k) new ≡ 0
  unfolding attempts_left
  out_of_attempts xs zs new mx settled limit unsolved none_left =
      let apart =
        any-append (reaches k full) (collect (judged problems partial) xs)
          (collect (solved problems partial) xs) in
      let same = count-settled xs zs settled (ground arith) in
      ground (arith, count-append (on_problem k) zs new)

  without_promise :
      (xs zs new : List Attempt) (mx : ℕ)
      → AllSettle xs zs
      → ((mx ≡ 0) ⊎ (count (on_problem k) (zs ++ new) ≤ mx))
      → solvable xs mx (best_events xs problems partial) k full ≡ false
      → best_points (on k (collect (judged problems partial) new))
        ≤ best_points (on k (best_events xs problems partial))
  without_promise xs zs new mx settled limit refused =
      elim (Bool-cases (any (reaches k full) (best_events xs problems partial))) [
        | inl done ↦
            le_trans (best-le full new (All-le_full new))
              (reaches-best k full (best_events xs problems partial) done)
        | inr unsolved ↦
            let none_left : can_attempt (attempts_left xs k mx) ≡ false =
              unfold solvable in ground arith in
            le_trans
              (best-le 0 new
                (All-uncounted new (out_of_attempts xs zs new mx settled limit unsolved none_left)))
              (omega arith)
      ]

  -- What a player may still send on the problem gives no more than the best case has: it is promised
  -- in full, solved already, or out of attempts.
  pub best-new :
      (xs zs new : List Attempt) (mx now : ℕ)
      → AllSettle xs zs
      → ((mx ≡ 0) ⊎ (count (on_problem k) (zs ++ new) ≤ mx))
      → best_points (on k (collect (judged problems partial) new))
        ≤ best_points (
            on k (best_events xs problems partial)
            ++ promise xs mx now (best_events xs problems partial) k (lookup k problems))
  best-new xs zs new mx now settled limit =
      rw known (elim (Bool-cases (solvable xs mx (best_events xs problems partial) k full)) [
        | inl promised ↦ rw promised (
            le_trans (best-le full new (All-le_full new)) (
              best-append_right (on k (best_events xs problems partial)) (future_event now k full)
                (omega arith)))
        | inr refused ↦
            rw (refused, append-nil (on k (best_events xs problems partial)))
              (without_promise xs zs new mx settled limit refused)
      ])
