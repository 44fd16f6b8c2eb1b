-- ===== src/Arena/Outcome/Rows.antt =====
-- judge/arena/scoring.py: the row of a problem, when its events are compared one by one.
use native.Mathlib.Decide.{dec_lt, dec_le}
use cpcjudge_site.Base.{
  ℕ, ◌+◌, ◌≤◌, ◌<◌, ◌≡◌, refl, sym, ◌∙◌, ap, ◌⊎◌, inl, inr, false, none, some, List, [], ◌∷◌, ◌++◌,
  All, Option-cases, arith,
}
use cpcjudge_site.Arena.Scoring.{Event, best_points, first_at, row_of}
use cpcjudge_site.Arena.Outcome.Better.{Better}
use cpcjudge_site.Arena.Outcome.First.{
  Dominates, DatesUp, penalties, Found, first-exists, first-le, first-Dominates, first-append,
  first-append_some, first-prefix, first-le_penalties, penalties-Dominates, best-Dominates,
}

row-zero : (l : List Event) (full : ℕ) → best_points l ≡ 0 → (row_of l full).best ≡ 0
unfolding row_of
row-zero l full h = ground arith

row-found :
    (l : List Event) (full d n : ℕ)
    → 0 < best_points l
    → first_at (best_points l) l ≡ some (d, n)
    → ((row_of l full).best ≡ best_points l)
      × ((row_of l full).best_at ≡ some d)
      × ((row_of l full).penalized ≡ n)
unfolding row_of
row-found l full d n pos h = ground arith

pub row-best : (l : List Event) (full : ℕ) → (row_of l full).best ≡ best_points l
row-best l full = elim (dec_lt 0 (best_points l)) [
  | yes pos ↦
      let (d, n, found, _) = first-exists (best_points l) l pos (omega arith) in
      (row-found l full d n pos found).0
  | no empty ↦ row-zero l full (omega arith) ∙ omega arith
]

-- Rows compare as their events do.
Better-rows :
    (l m : List Event) (full : ℕ)
    → best_points m ≤ best_points l
    → (0 < best_points l
        → best_points l ≡ best_points m
        → (d n : ℕ) → first_at (best_points l) m ≡ some (d, n)
        → Found (best_points l) l (λ d' n'. (d' ≤ d) × (n' ≤ n)))
    → Better (row_of l full) (row_of m full)
Better-rows l m full le reach = record {
  best_le = omega (arith, row-best l full, row-best m full);
  earlier = λ pos same.
      let here : 0 < best_points l = omega (arith, row-best l full) in
      let equal : best_points l ≡ best_points m = omega (arith, row-best l full, row-best m full) in
      let there : 0 < best_points m = omega arith in
      let (d, n, found, _) = first-exists (best_points m) m there (omega arith) in
      let at_l : first_at (best_points l) m ≡ some (d, n) = ap (λ b. first_at b m) equal ∙ found in
      let (d', n', found', both) = reach here equal d n at_l in
      let left = row-found l full d' n' here found' in
      let right = row-found m full d n there found in
      (d', d, left.1, right.1, both.0, omega (arith, left.2, right.2, both.1));
}

-- More events at the end of the dominating list do no harm.
pub Better-prefix :
    (l m t : List Event) (full : ℕ)
    → Dominates l m
    → DatesUp m
    → Better (row_of (l ++ t) full) (row_of m full)
Better-prefix l m t full h up =
    Better-rows (l ++ t) m full (best-Dominates l m t h)
      (λ pos same d n at. first-Dominates (best_points (l ++ t)) d n l m t h up at)

abbrev pub IsFuture : ℕ → Event → Type 0
IsFuture now e = (e.date ≤ now) × (e.penalizes ≡ false)

first-IsFuture :
    (b now : ℕ) (l : List Event)
    → All (IsFuture now) l
    → 0 < b
    → b ≤ best_points l
    → Found b l (λ d n. (d ≤ now) × (n ≡ 0))
unfolding first_at best_points
first-IsFuture b now [] h pos le = absurd (omega arith)
first-IsFuture b now (e ∷ l) h pos le = elim (dec_le b e.points) [
  | yes here ↦ (e.date, 0, ground arith, (h.0.0, refl))
  | no later ↦
      let (d, n, found, both) = first-IsFuture b now l h.1 pos (ground arith) in
      (d, n, ground arith, both)
]

best-append :
    (l t : List Event) (b : ℕ)
    → b ≤ best_points (l ++ t)
    → (b ≤ best_points l) ⊎ (b ≤ best_points t)
unfolding best_points
best-append [] t b h = inr h
best-append (e ∷ l) t b h = ground (arith, best-append l t b)

first-past :
    (b now d n : ℕ) (l : List Event)
    → All (λ e. e.date ≤ now) l
    → first_at b l ≡ some (d, n)
    → d ≤ now
unfolding first_at
first-past b now d n [] h e = cc
first-past b now d n (f ∷ l) h e = elim (Option-cases (first_at b l)) [
  | inl nowhere ↦ ground arith
  | inr (p, there) ↦ ground (arith, first-past b now p.0 p.1 l h.1 there)
]

best-append_le :
    (l t : List Event) (k : ℕ) → best_points l ≤ k → best_points t ≤ k → best_points (l ++ t) ≤ k
unfolding best_points
best-append_le [] t k h j = j
best-append_le (e ∷ l) t k h j = ground (arith, best-append_le l t k)

module _ (now : ℕ) (l m f t : List Event) (h : Dominates l m) (past : All (λ e. e.date ≤ now) l)
    (promised : All (IsFuture now) f) (late : All (λ e. now ≤ e.date) t) where
  -- Whoever reaches `b` only among the later events was promised to reach it by `now`.
  reach_by_now :
      (b : ℕ)
      → 0 < b
      → b ≤ best_points (l ++ f)
      → Found b (l ++ f) (λ d n. (d ≤ now) × (n ≤ penalties m))
  reach_by_now b pos le = elim (Option-cases (first_at b l)) [
    | inr (p, there) ↦ (
      p.0,
      p.1,
      first-prefix b p.0 p.1 l f there,
      (
        first-past b now p.0 p.1 l past there,
        omega (arith, first-le_penalties b p.0 p.1 l there, penalties-Dominates l m h),
      ),
    )
    | inl nowhere ↦ elim (best-append l f b le) [
      | inl in_l ↦
          let (d, n, found, _) = first-exists b l pos in_l in
          absurd (let clash : none ≡ some (d, n) = sym nowhere ∙ found in cc)
      | inr in_f ↦
          let (d, n, found, both) = first-IsFuture b now f promised pos in_f in
          (
            d,
            penalties l + n,
            rw (first-append b l f nowhere, found) refl,
            (both.0, omega (arith, both.1, penalties-Dominates l m h)),
          )
    ]
  ]

  reach-future :
      (b d n : ℕ)
      → DatesUp m
      → 0 < b
      → b ≤ best_points (l ++ f)
      → first_at b (m ++ t) ≡ some (d, n)
      → Found b (l ++ f) (λ d' n'. (d' ≤ d) × (n' ≤ n))
  reach-future b d n up pos le at = elim (Option-cases (first_at b m)) [
    | inr (p, there) ↦
        let same : some p ≡ some (d, n) = sym (first-prefix b p.0 p.1 m t there) ∙ at in
        first-Dominates b d n l m f h up (there ∙ same)
    | inl nowhere ↦ elim (Option-cases (first_at b t)) [
      | inl never ↦ absurd (
          let clash : none ≡ some (d, n) = sym (rw (first-append b m t nowhere, never) refl) ∙ at in
          cc)
      | inr (p, there) ↦
          let tail = first-append_some b m t p nowhere there in
          let now_le = first-le b now p.0 p.1 t late there in
          let (d', n', found, both) = reach_by_now b pos le in
          (d', n', found, (ground arith, ground arith))
    ]
  ]

-- Later events of the dominated list are met by what the other was promised at `now`.
pub Better-future :
    (now : ℕ) (l m f t : List Event) (full : ℕ)
    → Dominates l m
    → DatesUp m
    → All (λ e. e.date ≤ now) l
    → All (IsFuture now) f
    → All (λ e. now ≤ e.date) t
    → best_points t ≤ best_points (l ++ f)
    → Better (row_of (l ++ f) full) (row_of (m ++ t) full)
Better-future now l m f t full h up past promised late enough =
    Better-rows (l ++ f) (m ++ t) full
      (best-append_le m t (best_points (l ++ f)) (best-Dominates l m f h) enough)
      (λ pos same d n at.
        reach-future now l m f t h past promised late (best_points (l ++ f)) d n up pos
          (omega arith) at)
