-- ===== src/Arena/Outcome/First.antt =====
-- judge/arena/scoring.py: `first_at`, when the best score was reached, and the penalties before it.
use native.Mathlib.Decide.{dec_le}
use cpcjudge_site.Base.{
  ℕ, ◌+◌, ◌≤◌, ◌<◌, ◌≡◌, refl, inl, inr, true, none, some, List, [], ◌∷◌, ◌++◌, if◌then◌else◌, All,
  Option-cases, arith,
}
use cpcjudge_site.Arena.Scoring.{Event, best_points, first_at}

-- Event by event: the same date, at least as many points, and a penalty only where there is one.
abbrev pub Dominates : List Event → List Event → Type 0
Dominates [] [] = Unit
Dominates (e ∷ l) (f ∷ m) =
    ((e.date ≡ f.date) × (f.points ≤ e.points) × (e.penalizes ≡ true → f.penalizes ≡ true))
    × Dominates l m
Dominates _ _ = ⊥

abbrev pub DatesUp : List Event → Type 0
DatesUp [] = Unit
DatesUp (e ∷ l) = All (λ f. e.date ≤ f.date) l × DatesUp l

pub penalties : List Event → ℕ
penalties [] = 0
penalties (e ∷ l) = (if e.penalizes then 1 else 0) + penalties l

-- The position found has some date `d` and `n` penalties before it.
abbrev pub Found : ℕ → List Event → (ℕ → ℕ → Type 0) → Type 0
Found b l P = (d n : ℕ) × (first_at b l ≡ some (d, n)) × P d n

pub first-exists : (b : ℕ) (l : List Event) → 0 < b → b ≤ best_points l → Found b l (λ _ _. Unit)
unfolding first_at best_points
first-exists b [] pos le = absurd (omega arith)
first-exists b (e ∷ l) pos le = elim (dec_le b e.points) [
  | yes here ↦ (e.date, 0, ground arith, tt)
  | no later ↦
      let (d, n, found, _) = first-exists b l pos (ground arith) in
      (d, (if e.penalizes then 1 else 0) + n, ground arith, tt)
]

first-best : (b d n : ℕ) (l : List Event) → first_at b l ≡ some (d, n) → b ≤ best_points l
unfolding first_at best_points
first-best b d n [] h = cc
first-best b d n (e ∷ l) h = elim (Option-cases (first_at b l)) [
  | inl nowhere ↦ ground arith
  | inr (p, there) ↦ ground (arith, first-best b p.0 p.1 l there)
]

pub first-le :
    (b c d n : ℕ) (l : List Event) → All (λ f. c ≤ f.date) l → first_at b l ≡ some (d, n) → c ≤ d
unfolding first_at
first-le b c d n [] h e = cc
first-le b c d n (f ∷ l) h e = elim (Option-cases (first_at b l)) [
  | inl nowhere ↦ ground arith
  | inr (p, there) ↦ ground (arith, first-le b c p.0 p.1 l h.1 there)
]

-- Where the dominated list reaches `b`, the other does, no later and after no more penalties.
pub first-Dominates :
    (b d n : ℕ) (l m t : List Event)
    → Dominates l m
    → DatesUp m
    → first_at b m ≡ some (d, n)
    → Found b (l ++ t) (λ d' n'. (d' ≤ d) × (n' ≤ n))
unfolding first_at
first-Dominates b d n [] [] t h up e = cc
first-Dominates b d n [] (f ∷ m) t h up e = absurd h
first-Dominates b d n (e ∷ l) [] t h up at = absurd h
first-Dominates b d n (e ∷ l) (f ∷ m) t h up at = elim (dec_le b e.points) [
  | yes here ↦ elim (Option-cases (first_at b m)) [
    | inl nowhere ↦ (e.date, 0, ground arith, (ground arith, omega arith))
    | inr (p, there) ↦
        let late = first-le b f.date p.0 p.1 m up.0 there in
        (e.date, 0, ground arith, (ground arith, omega arith))
  ]
  | no later ↦ elim (Option-cases (first_at b m)) [
    | inl nowhere ↦ absurd (ground arith)
    | inr (p, there) ↦
        let (d', n', found, both) = first-Dominates b p.0 p.1 l m t h.1 up.1 there in
        (d', (if e.penalizes then 1 else 0) + n', ground arith, (ground arith, ground arith))
  ]
]

pub first-append :
    (b : ℕ) (l t : List Event)
    → first_at b l ≡ none
    → first_at b (l ++ t)
      ≡ (elim (first_at b t) [ none ↦ none | some (d, n) ↦ some (d, penalties l + n) ])
unfolding first_at penalties
first-append b [] t h = ground arith
first-append b (e ∷ l) t h = elim (Option-cases (first_at b l)) [
  | inl nowhere ↦ ground (arith, first-append b l t nowhere)
  | inr (p, there) ↦ absurd (ground arith)
]

pub first-append_some :
    (b : ℕ) (l t : List Event) (p : ℕ × ℕ)
    → first_at b l ≡ none
    → first_at b t ≡ some p
    → first_at b (l ++ t) ≡ some (p.0, penalties l + p.1)
first-append_some b l t p h k = rw (first-append b l t h, k) refl

pub first-prefix :
    (b d n : ℕ) (l t : List Event) → first_at b l ≡ some (d, n) → first_at b (l ++ t) ≡ some (d, n)
unfolding first_at
first-prefix b d n [] t h = cc
first-prefix b d n (e ∷ l) t h = elim (Option-cases (first_at b l)) [
  | inl nowhere ↦ ground arith
  | inr (p, there) ↦ ground (arith, first-prefix b p.0 p.1 l t there)
]

pub first-le_penalties : (b d n : ℕ) (l : List Event) → first_at b l ≡ some (d, n) → n ≤ penalties l
unfolding first_at penalties
first-le_penalties b d n [] h = cc
first-le_penalties b d n (e ∷ l) h = elim (Option-cases (first_at b l)) [
  | inl nowhere ↦ ground arith
  | inr (p, there) ↦ ground (arith, first-le_penalties b p.0 p.1 l there)
]

pub penalties-Dominates : (l m : List Event) → Dominates l m → penalties l ≤ penalties m
unfolding penalties
penalties-Dominates [] [] h = omega arith
penalties-Dominates [] (f ∷ m) h = absurd h
penalties-Dominates (e ∷ l) [] h = absurd h
penalties-Dominates (e ∷ l) (f ∷ m) h = ground (arith, penalties-Dominates l m h.1)

pub best-Dominates : (l m t : List Event) → Dominates l m → best_points m ≤ best_points (l ++ t)
unfolding best_points
best-Dominates [] [] t h = omega arith
best-Dominates [] (f ∷ m) t h = absurd h
best-Dominates (e ∷ l) [] t h = absurd h
best-Dominates (e ∷ l) (f ∷ m) t h = ground (arith, best-Dominates l m t h.1)
