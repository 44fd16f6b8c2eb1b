-- ===== src/Arena/Outcome/Ordered.antt =====
-- judge/arena/scoring.py: `sorted(events)` gives back the order in which the attempts were sent,
-- though judged and pending ones are collected apart.
use cpcjudge_site.Base.{
  ℕ, ◌<◌, ◌≡◌, refl, sym, ◌∙◌, ap, ◌⊎◌, inl, inr, true, false, Option, none, some, List, [], ◌∷◌,
  ◌++◌, ◌==◌, if◌then◌else◌, All, keep, Bool-cases, arith,
}
use cpcjudge_site.Arena.Scoring.{Attempt, Event, before, insert_event, sort_events}
use cpcjudge_site.Arena.Outcome.{collect}

abbrev pub After : Attempt → Attempt → Type 0
After x y = (x.date < y.date) ⊎ ((x.date ≡ y.date) × (x.id < y.id))

-- As the rows come: `order_by('date', 'id')`, and no id twice.
abbrev pub Ascending : List Attempt → Type 0
Ascending [] = Unit
Ascending (x ∷ xs) = All (After x) xs × Ascending xs

before_asym : (e f : Event) → before e f ≡ true → before f e ≡ false
unfolding before
before_asym e f h = ground arith

before_trans : (e f g : Event) → before e f ≡ true → before f g ≡ true → before e g ≡ true
unfolding before
before_trans e f g h k = ground arith

-- Two events with different orders may be inserted either way round.
insert_comm :
    (e f : Event) (l : List Event)
    → before e f ≡ true
    → insert_event f (insert_event e l) ≡ insert_event e (insert_event f l)
unfolding insert_event
insert_comm e f [] h = ground (arith, before_asym e f)
insert_comm e f (c ∷ l) h = ground (arith, before_asym e f, before_trans c e f, insert_comm e f l h)

insert-front :
    (e : Event) (l : List Event) → All (λ f. before e f ≡ true) l → insert_event e l ≡ e ∷ l
unfolding insert_event
insert-front e [] h = refl
insert-front e (f ∷ l) h = ground (arith, before_asym e f)

sort-middle :
    (e : Event) (l m : List Event)
    → All (λ f. before e f ≡ true) l
    → sort_events (l ++ e ∷ m) ≡ insert_event e (sort_events (l ++ m))
unfolding sort_events
sort-middle e [] m h = refl
sort-middle e (f ∷ l) m h =
    ap (insert_event f) (sort-middle e l m h.1) ∙ insert_comm e f (sort_events (l ++ m)) h.0

insert-snoc :
    (e g : Event) (l : List Event)
    → before g e ≡ true
    → insert_event g (l ++ e ∷ []) ≡ insert_event g l ++ e ∷ []
unfolding insert_event
insert-snoc e g [] h = ground (arith, before_asym g e)
insert-snoc e g (f ∷ l) h = ground (arith, insert-snoc e g l h)

-- An event after all others stays last.
pub sort-snoc :
    (e : Event) (l : List Event)
    → All (λ g. before g e ≡ true) l
    → sort_events (l ++ e ∷ []) ≡ sort_events l ++ e ∷ []
unfolding sort_events
sort-snoc e [] h = unfold insert_event in refl
sort-snoc e (g ∷ l) h =
    ap (insert_event g) (sort-snoc e l h.1) ∙ insert-snoc e g (sort_events l) h.0

-- An event carries the problem, the date and the id of its attempt.
abbrev pub IsStamp : (Attempt → Option Event) → Type 0
IsStamp f =
    (x : Attempt) (e : Event)
    → f x ≡ some e
    → (e.problem ≡ x.problem) × (e.date ≡ x.date) × (e.order_id ≡ some x.id)

-- what `f` makes of an attempt, or else `g`
abbrev pub either : (Attempt → Option Event) → (Attempt → Option Event) → Attempt → Option Event
either f g x = elim (f x) [ none ↦ g x | some e ↦ some e ]

abbrev pub on : ℕ → List Event → List Event
on k events = keep (λ e. e.problem == k) events

before-After :
    (x y : Attempt) (e f : Event)
    → After x y
    → (e.date ≡ x.date) × (e.order_id ≡ some x.id)
    → (f.date ≡ y.date) × (f.order_id ≡ some y.id)
    → before e f ≡ true
unfolding before
before-After x y e f h p q = ground arith

-- What one attempt adds to the events of problem `k`.
abbrev pub put : ℕ → Option Event → List Event → List Event
put k none l = l
put k (some e) l = if e.problem == k then e ∷ l else l

pub on-collect :
    (k : ℕ) (f : Attempt → Option Event) (x : Attempt) (xs : List Attempt)
    → on k (collect f (x ∷ xs)) ≡ put k (f x) (on k (collect f xs))
unfolding collect keep
on-collect k f x xs = by_result (f x) refl
  where
    by_result :
        (o : Option Event) → f x ≡ o → on k (collect f (x ∷ xs)) ≡ put k o (on k (collect f xs))
    by_result none h = rw (h, collect) refl
    by_result (some e) h = rw (h, collect) refl

pub All-put {ℓ} :
    (P : Event → Type ℓ) (k : ℕ) (o : Option Event) (l : List Event)
    → ((e : Event) → o ≡ some e → P e)
    → All P l
    → All P (put k o l)
All-put P k none l h a = a
All-put P k (some e) l h a = elim (Bool-cases (e.problem == k)) [
  | inl here ↦ rw here (h e refl, a)
  | inr other ↦ rw other a
]

before-collect :
    (k : ℕ) (f : Attempt → Option Event)
    → IsStamp f
    → (x : Attempt) (e : Event) → (e.date ≡ x.date) × (e.order_id ≡ some x.id)
    → (ys : List Attempt) → All (After x) ys
    → All (λ g. before e g ≡ true) (on k (collect f ys))
before-collect k f stamp x e p [] h = unfold collect keep in tt
before-collect k f stamp x e p (y ∷ ys) h = rw on-collect (
    All-put (λ g. before e g ≡ true) k (f y) (on k (collect f ys))
      (λ g made. before-After x y e g h.0 p ((stamp y g made).1, (stamp y g made).2))
      (before-collect k f stamp x e p ys h.1))

-- `f` and `g` do not both make an event of an attempt.
abbrev pub IsApart : (Attempt → Option Event) → (Attempt → Option Event) → Type 0
IsApart f g = (x : Attempt) (e : Event) → f x ≡ some e → g x ≡ none

module _ (k : ℕ) (f g : Attempt → Option Event) (sf : IsStamp f) (sg : IsStamp g)
    (apart : IsApart f g) where
  pub IsStamp-either : IsStamp (either f g)
  IsStamp-either x e h = by_result (f x) refl h
    where
      by_result :
          (o : Option Event)
          → f x ≡ o
          → elim o [ none ↦ g x | some d ↦ some d ] ≡ some e
          → (e.problem ≡ x.problem) × (e.date ≡ x.date) × (e.order_id ≡ some x.id)
      by_result none p q = sg x e q
      by_result (some d) p q = sf x e (p ∙ q)

  first :
      (x : Attempt) (e : Event) (xs : List Attempt)
      → (e.problem ≡ x.problem) × (e.date ≡ x.date) × (e.order_id ≡ some x.id)
      → All (After x) xs
      → sort_events (on k (collect f xs) ++ on k (collect g xs)) ≡ on k (collect (either f g) xs)
      → insert_event e (sort_events (on k (collect f xs) ++ on k (collect g xs)))
        ≡ e ∷ on k (collect (either f g) xs)
  first x e xs stamp h ih =
      ap (insert_event e) ih
      ∙ insert-front e (on k (collect (either f g) xs))
          (before-collect k (either f g) IsStamp-either x e (stamp.1, stamp.2) xs h)

  place :
      (x : Attempt) (xs : List Attempt) (o q : Option Event)
      → f x ≡ o
      → g x ≡ q
      → All (After x) xs
      → sort_events (on k (collect f xs) ++ on k (collect g xs)) ≡ on k (collect (either f g) xs)
      → sort_events (put k o (on k (collect f xs)) ++ put k q (on k (collect g xs)))
        ≡ put k (elim o [ none ↦ q | some d ↦ some d ]) (on k (collect (either f g) xs))
  unfolding sort_events
  place x xs none none p r h ih = ih
  place x xs (some d) (some e) p r h ih = let clash : some e ≡ none = sym r ∙ apart x d p in cc
  place x xs (some d) none p r h ih = elim (Bool-cases (d.problem == k)) [
    | inl here ↦ rw here (first x d xs (sf x d p) h ih)
    | inr other ↦ rw other ih
  ]
  place x xs none (some e) p r h ih = elim (Bool-cases (e.problem == k)) [
    | inl here ↦ rw here (
        sort-middle e (on k (collect f xs)) (on k (collect g xs))
          (before-collect k f sf x e ((sg x e r).1, (sg x e r).2) xs h)
        ∙ first x e xs (sg x e r) h ih)
    | inr other ↦ rw other ih
  ]

  -- Sorting the events of one problem, collected in two parts, gives them in the order of the
  -- attempts.
  pub sort-collect :
      (xs : List Attempt)
      → Ascending xs
      → sort_events (on k (collect f xs) ++ on k (collect g xs)) ≡ on k (collect (either f g) xs)
  sort-collect [] h = unfold collect keep sort_events in refl
  sort-collect (x ∷ xs) h =
      rw (on-collect k f x xs, on-collect k g x xs, on-collect k (either f g) x xs)
        (place x xs (f x) (g x) refl refl h.0 (sort-collect xs h.1))
