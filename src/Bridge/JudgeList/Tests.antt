-- ===== src/Bridge/JudgeList/Tests.antt =====
-- Two judges of one tier, one of them at work, and the theorems on them.
use cpcjudge_site.Base.{
  ℕ, ◌≡◌, refl, true, false, none, some, [], ◌∷◌, ◌==◌, if◌then◌else◌, arith, any, keep, List, not,
}
use cpcjudge_site.Bridge.JudgeList.{
  type_error, JudgeList, Judge, Submission, entry, marker, Sending, sent, no_data, initial, judge,
  register, scan, is_mapped, available_of, candidates_of, least_loaded, drop, Node, is_working,
  can_judge, current_tier_judges,
}
use cpcjudge_site.Bridge.JudgeList.Dispatch.{
  scan-Takes, Takes, judge-idempotent, failed_dispatch-loses, register_disabled-raises,
}
use cpcjudge_site.Bridge.JudgeList.Reserve.{judge-spares}
use cpcjudge_site.Bridge.JudgeList.Exclusive.{Exclusive}
use cpcjudge_site.Bridge.JudgeList.Reachable.{Reachable, Step, Reachable-Exclusive}

abbrev first_judge : Judge
first_judge = record {
  name = 7;
  tier = some 1;
  is_disabled = false;
  working = none;
  load = 3;
  problems = 20 ∷ [];
  executors = 5 ∷ [];
}

abbrev objects : ℕ → Judge
objects k = if k == 1 then first_judge else record first_judge { name = 8; working = some 90 }

abbrev submission : Submission
submission = record {
  id = 41;
  problem = record { code = 20; custom_test = false };
  language = 5;
  judge_id = none;
}

abbrev two_judges : JudgeList
two_judges = record {
  objects = objects;
  judges = 1 ∷ 2 ∷ [];
  queue = marker 0 ∷ marker 1 ∷ marker 2 ∷ marker 3 ∷ [];
  node_map = [];
  submission_map = (90, 2) ∷ [];
  min_tier = some 1;
}

abbrev all_sent : ℕ → ℕ → Sending
all_sent k id = sent

abbrev none_sent : ℕ → ℕ → Sending
none_sent k id = no_data

abbrev same_chance : ℕ → ℕ
same_chance k = 0

Reachable-Exclusive_example :
    Exclusive
      (judge all_sent same_chance submission 1 (register all_sent 1 (initial objects)).1.0).0
Reachable-Exclusive_example =
    Reachable-Exclusive all_sent
      (judge all_sent same_chance submission 1 (register all_sent 1 (initial objects)).1.0).0
      (λ k id. refl)
      (Reachable.after
        (Reachable.after (Reachable.start objects) (Step.registered 1 (initial objects)))
        (Step.asked same_chance submission 1 (register all_sent 1 (initial objects)).1.0))

abbrev waiting : List Node
waiting = marker 0 ∷ entry submission ∷ marker 1 ∷ marker 2 ∷ []

scan-Takes_example : Takes first_judge true 0 waiting (scan first_judge true 0 waiting)
scan-Takes_example = scan-Takes first_judge true 0 waiting

-- A rejudge waits while a judge is to be kept in reserve, and is taken otherwise.
rejudge_waits :
    scan first_judge true 0 (marker 0 ∷ marker 1 ∷ entry submission ∷ marker 2 ∷ []) ≡ none
unfolding scan can_judge any
rejudge_waits = refl

rejudge_taken :
    scan first_judge false 0 (marker 0 ∷ marker 1 ∷ entry submission ∷ marker 2 ∷ [])
    ≡ some (submission, marker 0 ∷ marker 1 ∷ marker 2 ∷ [])
unfolding scan can_judge any
rejudge_taken = refl

judge-idempotent_example :
    judge none_sent same_chance submission 3 (judge none_sent same_chance submission 1 two_judges).0
    ≡ ((judge none_sent same_chance submission 1 two_judges).0, none)
judge-idempotent_example =
    judge-idempotent none_sent same_chance same_chance submission submission 1 3 two_judges
      (omega arith) refl

failed_dispatch-loses_example :
    ((judge none_sent same_chance submission 1 two_judges).1 ≡ none)
    × (is_mapped 41 (judge none_sent same_chance submission 1 two_judges).0 ≡ true)
    × ((judge none_sent same_chance submission 1 two_judges).0.queue ≡ two_judges.queue)
    × ((judge none_sent same_chance submission 1 two_judges).0.judges
        ≡ drop (least_loaded objects same_chance 1 []) (1 ∷ 2 ∷ []))
unfolding available_of candidates_of current_tier_judges can_judge keep any is_mapped
failed_dispatch-loses_example =
    failed_dispatch-loses none_sent same_chance submission 1 two_judges 1 [] refl refl refl
      (λ e. absurd (ground arith))

-- with the second judge free as well
abbrev both_free : JudgeList
both_free = record two_judges { objects = λ k. first_judge; submission_map = [] }

judge-spares_example :
    any
      (λ k. not (is_working (judge all_sent same_chance submission 2 both_free).0 k))
      (candidates_of submission both_free)
    ≡ true
unfolding candidates_of current_tier_judges can_judge keep any
judge-spares_example =
    judge-spares all_sent same_chance submission 2 both_free (omega arith)
      ((ground arith, tt), (tt, tt)) (omega arith) refl

abbrev disabled_judge : ℕ → Judge
disabled_judge k = record first_judge { is_disabled = true }

register_disabled-raises_example :
    (register all_sent 1 (initial disabled_judge)).1.1 ≡ some type_error
unfolding initial
register_disabled-raises_example =
    register_disabled-raises all_sent 1 (initial disabled_judge) refl refl
