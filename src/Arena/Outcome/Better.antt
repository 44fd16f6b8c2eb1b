-- ===== src/Arena/Outcome/Better.antt =====
-- judge/arena/scoring.py: when one standing is at least as good as another, and what `beats` makes
-- of it.
use cpcjudge_site.Base.{
  ℕ, ◌+◌, ◌*◌, ◌≤◌, ◌<◌, ◌≡◌, refl, sym, ◌∙◌, Bool, true, false, Option, none, some, List, [], ◌∷◌,
  ltb, ◌==◌, ◌&&◌, if◌then◌else◌, arith,
}
use cpcjudge_site.Base.Int.{ltb_ℤ-sub_ℕ}
use cpcjudge_site.Arena.Scoring.{
  ProblemStanding, Totals, add_row, add_rows, minute, standing_from, effective_of,
}
use cpcjudge_site.Arena.Outcome.{beats, effective_before}

-- On one problem: more points, or as many with an earlier date and no more penalties.
pub record Better (r s : ProblemStanding) : Type 0 where
  pub best_le : s.best ≤ r.best
  pub earlier :
      0 < r.best
      → r.best ≡ s.best
      → (d e : ℕ) × (r.best_at ≡ some d)
        × (s.best_at ≡ some e)
        × (d ≤ e)
        × (r.penalized ≤ s.penalized)

abbrev pub ReachLe : Option ℕ → Option ℕ → Type 0
ReachLe none none = Unit
ReachLe (some d) (some e) = d ≤ e
ReachLe _ _ = ⊥

-- Over all problems: more points, or as many, reached no later and with no more penalties.
pub record BetterTotals (t u : Totals) : Type 0 where
  pub score_le : u.score ≤ t.score
  pub reached : t.score ≡ u.score → ReachLe t.reach u.reach
  pub fewer : t.score ≡ u.score → t.penalized ≤ u.penalized

add_row-BetterTotals :
    {t u : Totals} {r s : ProblemStanding}
    → BetterTotals t u
    → Better r s
    → BetterTotals (add_row t r) (add_row u s)
unfolding add_row
add_row-BetterTotals {t} {u} {r} {s} h k = ground arith

-- The two lists of rows agree on the problems and compare row by row.
abbrev pub BetterRows : List (ℕ × ProblemStanding) → List (ℕ × ProblemStanding) → Type 0
BetterRows [] [] = Unit
BetterRows ((_, r) ∷ rs) ((_, s) ∷ ss) = Better r s × BetterRows rs ss
BetterRows _ _ = ⊥

pub add_rows-BetterTotals :
    (t u : Totals) (rs ss : List (ℕ × ProblemStanding))
    → BetterTotals t u
    → BetterRows rs ss
    → BetterTotals (add_rows t rs) (add_rows u ss)
unfolding add_rows
add_rows-BetterTotals t u [] [] h k = h
add_rows-BetterTotals t u [] (s ∷ ss) h k = absurd k
add_rows-BetterTotals t u (r ∷ rs) [] h k = absurd k
add_rows-BetterTotals t u ((_, r) ∷ rs) ((_, s) ∷ ss) h k =
    add_rows-BetterTotals (add_row t r) (add_row u s) rs ss (add_row-BetterTotals h k.0) k.1

reach_before : ℕ → Totals → Totals → Option ℕ → Option ℕ → Bool
reach_before p t u (some d) (some e) =
    ltb (d + p * minute * t.penalized) (e + p * minute * u.penalized)
reach_before p t u _ _ = false

-- `beats` with both moments measured from the same start.
beats_totals : ℕ → Totals → Totals → Bool
unfolding reach_before
beats_totals p t u =
    if ltb u.score t.score
    then true
    else if t.score == u.score && ltb 0 t.score
    then reach_before p t u t.reach u.reach
    else false

effective-reach :
    (p s : ℕ) (t u : Totals) (x y : Option ℕ)
    → t.reach ≡ x
    → u.reach ≡ y
    → effective_before (effective_of p s t) (effective_of p s u) ≡ reach_before p t u x y
unfolding reach_before
effective-reach p s t u (some d) (some e) h k =
    rw (h, k) (ltb_ℤ-sub_ℕ (d + p * minute * t.penalized) (e + p * minute * u.penalized) s)
effective-reach p s t u (some d) none h k = ground arith
effective-reach p s t u none (some e) h k = ground arith
effective-reach p s t u none none h k = ground arith

beats-totals :
    (p s : ℕ) (t u : Totals) (rs ss : List (ℕ × ProblemStanding))
    → beats (standing_from p s t rs) (standing_from p s u ss) ≡ beats_totals p t u
unfolding beats beats_totals
beats-totals p s t u rs ss = rw (effective-reach p s t u t.reach u.reach refl refl) refl

times_mono : (p a b : ℕ) → a ≤ b → p * a ≤ p * b
times_mono p a b h = grind arith

-- Whoever does better on one side and worse on the other does not change that the first wins.
beats_totals_mono :
    (p : ℕ) (w f b g : Totals)
    → BetterTotals f w
    → BetterTotals b g
    → beats_totals p w b ≡ true
    → beats_totals p f g ≡ true
unfolding beats_totals reach_before
beats_totals_mono p w f b g h k e =
    ground (arith, times_mono p f.penalized w.penalized, times_mono p b.penalized g.penalized)

pub beats_mono :
    (p s : ℕ) (w f b g : Totals) (r1 r2 r3 r4 : List (ℕ × ProblemStanding))
    → BetterTotals f w
    → BetterTotals b g
    → beats (standing_from p s w r1) (standing_from p s b r2) ≡ true
    → beats (standing_from p s f r3) (standing_from p s g r4) ≡ true
beats_mono p s w f b g r1 r2 r3 r4 h k e =
    beats-totals p s f g r3 r4
    ∙ beats_totals_mono p w f b g h k (sym (beats-totals p s w b r1 r2) ∙ e)
