-- ===== src/Bridge/JudgeList/Reachable.antt =====
-- judge/bridge/judge_list.py: every state that the calls of the server and of the judges lead to.
use cpcjudge_site.Base.{ℕ, ◌≡◌, Bool}
use cpcjudge_site.Bridge.JudgeList.{
  initial, JudgeList, Judge, Submission, Sending, sent, judge, abort, on_judge_free, register,
  remove, update_problems, update_disable_judge,
}
use cpcjudge_site.Bridge.JudgeList.Exclusive.{
  Exclusive, initial-Exclusive, judge-Exclusive, abort-Exclusive, on_judge_free-Exclusive,
  register-Exclusive, remove-Exclusive, update_disable_judge-Exclusive, handle_free_judge-Exclusive,
  other_fields-Exclusive,
}

-- One call, with the state it leaves, whether it raised or not; and a judge's connection may change
-- its own object at any time.
pub data Step (sending : ℕ → ℕ → Sending) : JudgeList → JudgeList → Type 0 where
  asked :
      (random : ℕ → ℕ) (s : Submission) (priority : ℕ) (st : JudgeList)
      → Step sending st (judge sending random s priority st).0
  aborted : (id : ℕ) (st : JudgeList) → Step sending st (abort id st).0
  freed : (k id : ℕ) (st : JudgeList) → Step sending st (on_judge_free sending k id st).0
  registered : (k : ℕ) (st : JudgeList) → Step sending st (register sending k st).1.0
  removed : (k : ℕ) (st : JudgeList) → Step sending st (remove sending k st).0
  updated : (k : ℕ) (st : JudgeList) → Step sending st (update_problems sending k st).0
  disabled :
      (name : ℕ) (b : Bool) (st : JudgeList)
      → Step sending st (update_disable_judge sending name b st).0
  changed :
      (objects : ℕ → Judge) (st : JudgeList) → Step sending st (record st { objects = objects })

pub data Reachable (sending : ℕ → ℕ → Sending) : JudgeList → Type 0 where
  start : (objects : ℕ → Judge) → Reachable sending (initial objects)
  after : {st st' : JudgeList} → Reachable sending st → Step sending st st' → Reachable sending st'

step-Exclusive :
    {sending : ℕ → ℕ → Sending} {st st' : JudgeList}
    → ((k id : ℕ) → sending k id ≡ sent)
    → Step sending st st'
    → Exclusive st
    → Exclusive st'
unfolding update_problems
step-Exclusive {sending = send} sends (Step.asked random s priority st) inv =
    judge-Exclusive send sends random s priority st inv
step-Exclusive sends (Step.aborted id st) inv = abort-Exclusive id st inv
step-Exclusive {sending = send} sends (Step.freed k id st) inv =
    on_judge_free-Exclusive send sends k id st inv
step-Exclusive {sending = send} sends (Step.registered k st) inv =
    register-Exclusive send sends k st inv
step-Exclusive {sending = send} sends (Step.removed k st) inv = remove-Exclusive send sends k st inv
step-Exclusive {sending = send} sends (Step.updated k st) inv =
    handle_free_judge-Exclusive send sends k st inv
step-Exclusive {sending = send} sends (Step.disabled name b st) inv =
    update_disable_judge-Exclusive send sends name b st inv
step-Exclusive {sending = send} sends (Step.changed objects st) inv =
    other_fields-Exclusive send sends st objects st.judges st.min_tier inv

-- As long as no submission fails to be sent, in every state the calls lead to, the queue holds a
-- submission once if it is listed as waiting and not at all otherwise, and no submission waits while
-- a judge has it.
pub Reachable-Exclusive :
    (sending : ℕ → ℕ → Sending) (st : JudgeList)
    → ((k id : ℕ) → sending k id ≡ sent)
    → Reachable sending st
    → Exclusive st
Reachable-Exclusive sending st sends (Reachable.start objects) = initial-Exclusive objects
Reachable-Exclusive sending st sends (Reachable.after before step) =
    step-Exclusive sends step (Reachable-Exclusive sending _ sends before)
