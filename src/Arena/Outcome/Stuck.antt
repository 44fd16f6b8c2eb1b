-- ===== src/Arena/Outcome/Stuck.antt =====
-- judge/arena/scoring.py: the final call that an organizer makes while verdicts are stuck.
use cpcjudge_site.Base.{
  ℕ, ◌≤◌, ◌≡◌, refl, ◌⊎◌, inl, inr, false, none, not, List, [], ◌∷◌, ltb, any, keep, max,
  Bool-cases, arith,
}
use cpcjudge_site.Arena.Scoring.{Attempt, pending}
use cpcjudge_site.Arena.Outcome.{
  Problems, GameRules, Decision, Outcome, beats, worst_case, best_case, decide, decide_started,
  decide_ignoring_pending,
}

none_pending :
    (attempts : List Attempt) → any pending (keep (λ x. not (pending x)) attempts) ≡ false
unfolding any keep
none_pending [] = refl
none_pending (a ∷ rest) = elim (Bool-cases (pending a)) [
  | inl p ↦ rw p (none_pending rest)
  | inr p ↦ rw (p, p) (none_pending rest)
]

abbrev pub IsSettled : Decision → Type 0
IsSettled d = (d.outcome ≡ Outcome.finish) ⊎ (d.outcome ≡ Outcome.tie)

closed-IsSettled :
    (one two : List Attempt) (problems : Problems) (rules : GameRules) (started_at now : ℕ)
    → any pending one ≡ false
    → any pending two ≡ false
    → IsSettled (decide_started one two problems rules started_at false now)
unfolding decide_started
closed-IsSettled one two problems rules started_at now p q =
    let worst =
      λ (l : List Attempt). worst_case l problems rules.partial rules.penalty started_at in
    let best = λ (l : List Attempt).
      best_case l problems rules.partial rules.penalty started_at none rules.max_attempts in
    elim (Bool-cases (beats (worst one) (best two))) [
      | inl e ↦ rw (decide_started, e) (inl refl)
      | inr e ↦ elim (Bool-cases (beats (worst two) (best one))) [
        | inl f ↦ rw (decide_started, e, f) (inl refl)
        | inr f ↦ rw (decide_started, e, f, p, q) (inr refl)
      ]
    ]

-- Whatever is pending, the organizer's final call on a game that has begun decides it or ties it.
pub decide_ignoring_pending-IsSettled :
    (attempts_a attempts_b : List Attempt) (problems : Problems) (rules : GameRules)
    (started_at ends_at now : ℕ)
    → started_at ≤ now
    → IsSettled
        (decide_ignoring_pending attempts_a attempts_b problems rules started_at ends_at now)
unfolding decide_ignoring_pending decide
decide_ignoring_pending-IsSettled one two problems rules started_at ends_at now begun =
    let late : ltb (max now ends_at) started_at ≡ false = ground arith in
    rw late (
      closed-IsSettled _ _ problems rules started_at (max now ends_at) (none_pending one)
        (none_pending two))
