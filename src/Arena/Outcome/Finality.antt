-- ===== src/Arena/Outcome/Finality.antt =====
-- judge/arena/scoring.py: a game that `decide` finishes early ends the same way if it is played on.
use mathlib.Core.List.{append-nil}
use cpcjudge_site.Base.{
  ℕ, ◌≤◌, ◌≡◌, refl, sym, ◌∙◌, ap, ap₂, subst, inl, inr, Bool, true, false, Option, none, some,
  List, [], ◌∷◌, ◌++◌, ltb, if◌then◌else◌, All, Bool-cases, arith,
}
use cpcjudge_site.Arena.Scoring.{Attempt, Standing, pending, standing}
use cpcjudge_site.Arena.Outcome.{
  Problems, IsDict, GameRules, Reason, Slot, slot_a, slot_b, finished, decide, decide_started,
  is_open, beats, collect, judged, failed, solved, worst_case, best_case, total_points, reason_of,
}
use cpcjudge_site.Arena.Outcome.Better.{beats_mono}
use cpcjudge_site.Arena.Outcome.Future.{AllSettle}
use cpcjudge_site.Arena.Outcome.Collected.{totals_of}
use cpcjudge_site.Arena.Outcome.Compare.{
  Continues, final-over-worst, best-over-final, best-over-final_closed,
}

abbrev pub AllJudged : List Attempt → Type 0
AllJudged ys = All (λ y. pending y ≡ false) ys

AllSettle-AllJudged : (xs ys : List Attempt) → AllSettle xs ys → AllJudged ys
AllSettle-AllJudged [] [] h = tt
AllSettle-AllJudged [] (y ∷ ys) h = absurd h
AllSettle-AllJudged (x ∷ xs) [] h = tt
AllSettle-AllJudged (x ∷ xs) (y ∷ ys) h = (h.0.is_judged, AllSettle-AllJudged xs ys h.1)

AllJudged-append : (xs ys : List Attempt) → AllJudged xs → AllJudged ys → AllJudged (xs ++ ys)
AllJudged-append [] ys h k = k
AllJudged-append (x ∷ xs) ys h k = (h.0, AllJudged-append xs ys h.1 k)

late-AllJudged :
    (now : ℕ) (ys : List Attempt)
    → All (λ y. (now ≤ y.date) × (pending y ≡ false)) ys
    → AllJudged ys
late-AllJudged now [] h = tt
late-AllJudged now (y ∷ ys) h = (h.0.1, late-AllJudged now ys h.1)

Continues-AllJudged :
    {mx now : ℕ} {opened : Bool} {xs ys : List Attempt}
    → Continues mx now opened xs ys
    → AllJudged ys
Continues-AllJudged {now = now} {xs = xs} c = subst AllJudged (sym c.parts) (
    AllJudged-append c.settled_part c.new_part (AllSettle-AllJudged xs c.settled_part c.settled)
      (late-AllJudged now c.new_part c.late))

module _ (problems : Problems) (partial : Bool) where
  failed_judged : (ys : List Attempt) → AllJudged ys → collect (failed problems partial) ys ≡ []
  unfolding collect failed
  failed_judged [] h = refl
  failed_judged (y ∷ ys) h = ground (arith, failed_judged ys h.1)

  solved_judged : (ys : List Attempt) → AllJudged ys → collect (solved problems partial) ys ≡ []
  unfolding collect solved
  solved_judged [] h = refl
  solved_judged (y ∷ ys) h = ground (arith, solved_judged ys h.1)

  -- With nothing pending and nothing to come, the worst and the best case are the confirmed standing.
  worst-judged :
      (ys : List Attempt) (penalty started_at : ℕ)
      → AllJudged ys
      → worst_case ys problems partial penalty started_at
        ≡ standing (collect (judged problems partial) ys) problems penalty started_at
  unfolding worst_case
  worst-judged ys penalty started_at h =
      ap (λ l. standing l problems penalty started_at)
        (ap (λ l. collect (judged problems partial) ys ++ l) (failed_judged ys h) ∙ append-nil _)

  best-judged :
      (ys : List Attempt) (penalty started_at mx : ℕ)
      → AllJudged ys
      → best_case ys problems partial penalty started_at none mx
        ≡ standing (collect (judged problems partial) ys) problems penalty started_at
  unfolding best_case
  best-judged ys penalty started_at mx h =
      ap (λ l. standing l problems penalty started_at)
        (ap (λ l. collect (judged problems partial) ys ++ l) (solved_judged ys h) ∙ append-nil _)

beats_asym : (s t : Standing) → beats s t ≡ true → beats t s ≡ false
unfolding beats
beats_asym s t h = ground arith

abbrev future_of : Bool → ℕ → Option ℕ
future_of opened now = if opened then some now else none

-- Whoever is certain to win at `now` wins on whatever the two players end with.
leader_stays :
    (problems : Problems) (partial opened : Bool) (penalty started_at mx now : ℕ)
    (leader leader' rival rival' : List Attempt)
    → IsDict problems
    → Continues mx now opened leader leader'
    → Continues mx now opened rival rival'
    → beats
        (worst_case leader problems partial penalty started_at)
        (best_case rival problems partial penalty started_at (future_of opened now) mx)
      ≡ true
    → beats
        (standing (collect (judged problems partial) leader') problems penalty started_at)
        (standing (collect (judged problems partial) rival') problems penalty started_at)
      ≡ true
unfolding worst_case best_case standing totals_of
leader_stays problems partial true penalty started_at mx now l l' r r' d cl cr h =
    beats_mono penalty started_at _ _ _ _ _ _ _ _ (final-over-worst problems partial cl)
      (best-over-final problems partial cr d) h
leader_stays problems partial false penalty started_at mx now l l' r r' d cl cr h =
    beats_mono penalty started_at _ _ _ _ _ _ _ _ (final-over-worst problems partial cl)
      (best-over-final_closed problems partial cr refl) h

-- What `decide` says once nothing is pending and nobody may send: the better standing wins.
decided_by_standings :
    (attempts_a attempts_b : List Attempt) (problems : Problems) (rules : GameRules)
    (started_at now : ℕ)
    → AllJudged attempts_a
    → AllJudged attempts_b
    → (slot : Slot)
    → (let a =
          standing
            (collect (judged problems rules.partial) attempts_a)
            problems
            rules.penalty
            started_at in
        let b =
          standing
            (collect (judged problems rules.partial) attempts_b)
            problems
            rules.penalty
            started_at in
        elim slot [ slot_a ↦ beats a b | slot_b ↦ beats b a ])
      ≡ true
    → (reason : Reason) × (decide_started attempts_a attempts_b problems rules started_at false now
        ≡ finished slot reason)
unfolding decide_started
decided_by_standings one two problems rules started_at now ja jb slot_a h =
    let wins : beats (worst_case one problems rules.partial rules.penalty started_at)
          (best_case two problems rules.partial rules.penalty started_at none rules.max_attempts)
        ≡ true =
      ap₂ beats (worst-judged problems rules.partial one rules.penalty started_at ja)
        (best-judged problems rules.partial two rules.penalty started_at rules.max_attempts jb)
      ∙ h in
    (
      reason_of false (total_points problems)
          (worst_case one problems rules.partial rules.penalty started_at)
          (best_case two problems rules.partial rules.penalty started_at none rules.max_attempts),
      rw wins refl,
    )
decided_by_standings one two problems rules started_at now ja jb slot_b h =
    let loses : beats (worst_case one problems rules.partial rules.penalty started_at)
          (best_case two problems rules.partial rules.penalty started_at none rules.max_attempts)
        ≡ false =
      ap₂ beats (worst-judged problems rules.partial one rules.penalty started_at ja)
        (best-judged problems rules.partial two rules.penalty started_at rules.max_attempts jb)
      ∙ beats_asym _ _ h in
    let wins : beats (worst_case two problems rules.partial rules.penalty started_at)
          (best_case one problems rules.partial rules.penalty started_at none rules.max_attempts)
        ≡ true =
      ap₂ beats (worst-judged problems rules.partial two rules.penalty started_at jb)
        (best-judged problems rules.partial one rules.penalty started_at rules.max_attempts ja)
      ∙ h in
    (
      reason_of false (total_points problems)
          (worst_case two problems rules.partial rules.penalty started_at)
          (best_case one problems rules.partial rules.penalty started_at none rules.max_attempts),
      rw (loses, wins) refl,
    )

-- Why a started game is finished: the worst case of the winner beats the best case of the other.
decide_started-finished :
    (attempts_a attempts_b : List Attempt) (problems : Problems) (rules : GameRules)
    (started_at now : ℕ) (opened : Bool) (slot : Slot) (reason : Reason)
    → decide_started attempts_a attempts_b problems rules started_at opened now
      ≡ finished slot reason
    → (let worst =
          λ (l : List Attempt). worst_case l problems rules.partial rules.penalty started_at in
        let best = λ (l : List Attempt).
          best_case l problems rules.partial rules.penalty started_at
            (future_of opened now)
            rules.max_attempts in
        elim slot [
          | slot_a ↦ beats (worst attempts_a) (best attempts_b)
          | slot_b ↦ beats (worst attempts_b) (best attempts_a)
        ])
      ≡ true
unfolding decide_started
decide_started-finished one two problems rules started_at now opened slot_a reason h = ground arith
decide_started-finished one two problems rules started_at now opened slot_b reason h = ground arith

-- A game that is called for a player, early or after its end, is called for the same player whenever
-- it is looked at once submissions are closed and every verdict is in: verdicts that were missing,
-- and attempts sent later within the rules, cannot change who wins.
pub finish_is_final :
    (problems : Problems) (rules : GameRules) (started_at ends_at ends_at' now now' : ℕ)
    (closed closed' : Bool) (attempts_a attempts_b final_a final_b : List Attempt) (slot : Slot)
    (reason : Reason)
    → IsDict problems
    → Continues rules.max_attempts now (is_open closed now ends_at) attempts_a final_a
    → Continues rules.max_attempts now (is_open closed now ends_at) attempts_b final_b
    → now ≤ now'
    → is_open closed' now' ends_at' ≡ false
    → decide attempts_a attempts_b problems rules started_at ends_at now closed
      ≡ finished slot reason
    → (reason' : Reason) × (decide final_a final_b problems rules started_at ends_at' now' closed'
        ≡ finished slot reason')
unfolding decide
finish_is_final problems rules started_at ends_at ends_at' now now' closed closed' xa xb ya yb slot
      reason d ca cb later shut h =
    elim (Bool-cases (ltb now started_at)) [
      | inl early ↦ absurd (ground arith)
      | inr begun ↦
          let started : decide_started xa xb problems rules started_at (is_open closed now ends_at)
                now
              ≡ finished slot reason =
            sym (rw begun refl) ∙ h in
          let not_early : ltb now' started_at ≡ false = ground arith in
          rw (not_early, shut)
            (decided_by_standings ya yb problems rules started_at now' (Continues-AllJudged ca)
              (Continues-AllJudged cb) slot
              (stays slot (
                decide_started-finished xa xb problems rules started_at now
                  (is_open closed now ends_at) slot reason started)))
    ]
  where
    stays :
        (slot : Slot)
        → (elim slot [
          | slot_a ↦ beats (worst_case xa problems rules.partial rules.penalty started_at) (
              best_case xb problems rules.partial rules.penalty started_at
                (future_of (is_open closed now ends_at) now)
                rules.max_attempts)
          | slot_b ↦ beats (worst_case xb problems rules.partial rules.penalty started_at) (
              best_case xa problems rules.partial rules.penalty started_at
                (future_of (is_open closed now ends_at) now)
                rules.max_attempts)
        ])
          ≡ true
        → (let a =
              standing
                (collect (judged problems rules.partial) ya)
                problems
                rules.penalty
                started_at in
            let b =
              standing
                (collect (judged problems rules.partial) yb)
                problems
                rules.penalty
                started_at in
            elim slot [ slot_a ↦ beats a b | slot_b ↦ beats b a ])
          ≡ true
    stays slot_a e =
        leader_stays problems rules.partial (is_open closed now ends_at) rules.penalty started_at
          rules.max_attempts now xa ya xb yb d ca cb e
    stays slot_b e =
        leader_stays problems rules.partial (is_open closed now ends_at) rules.penalty started_at
          rules.max_attempts now xb yb xa ya d cb ca e
