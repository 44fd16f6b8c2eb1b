-- ===== src/Bridge/JudgeList.antt =====
-- judge/bridge/judge_list.py: the queue of submissions, the judges, and who judges what.
-- A judge is an object that the set of judges and the map of submissions share: the state keeps the
-- objects in a store by their identity. The order of the list of judges is that in which Python's
-- set gives them. Ids of submissions are above zero, so that `working` is true exactly when a judge
-- holds one.
pub mod Dispatch
pub mod Reserve
pub mod Queued
pub mod Exclusive
pub mod Reachable
mod Tests
use cpcjudge_site.Base.{
  ℕ, zero, suc, ◌+◌, Bool, true, false, not, ◌&&◌, ◌||◌, Option, none, some, List, [], ◌∷◌, ltb,
  leb, ◌==◌, if◌then◌else◌, keep, any, length, contains, is_some, same_option,
}

pub data Raised : Type 0 where
  type_error key_error index_error : Raised

-- What `submit` of the judge's connection does: it reads the submission's data, which may fail,
-- takes it as its own, and sends it, which may fail too.
pub data Sending : Type 0 where
  sent no_data not_sent : Sending

-- A problem's code, and whether it starts with `ct_`.
pub record ProblemCode : Type 0 where
  pub code : ℕ
  pub custom_test : Bool

pub record Submission : Type 0 where
  pub id : ℕ
  pub problem : ProblemCode
  pub language : ℕ
  pub judge_id : Option ℕ

pub data Node : Type 0 where
  marker : ℕ → Node
  entry : Submission → Node

pub record Judge : Type 0 where
  pub name : ℕ
  pub tier : Option ℕ
  pub is_disabled : Bool
  pub working : Option ℕ
  pub load : ℕ
  pub problems : List ℕ
  pub executors : List ℕ

pub record JudgeList : Type 0 where
  pub objects : ℕ → Judge
  pub judges : List ℕ
  pub queue : List Node
  pub node_map : List ℕ
  pub submission_map : List (ℕ × ℕ)
  pub min_tier : Option ℕ

-- `__init__`
pub initial : (ℕ → Judge) → JudgeList
initial objects = record {
  objects = objects;
  judges = [];
  queue = marker 0 ∷ marker 1 ∷ marker 2 ∷ marker 3 ∷ [];
  node_map = [];
  submission_map = [];
  min_tier = none;
}

abbrev pub Run : Type 0
Run = JudgeList × Option Raised

abbrev rejudge_priority : ℕ
rejudge_priority = 2

abbrev priorities : ℕ
priorities = 4

pub can_judge : Judge → ProblemCode → ℕ → Option ℕ → Bool
can_judge j problem executor judge_id =
    (contains problem.code j.problems || problem.custom_test)
    && contains executor j.executors
    && (not (is_some judge_id) && not j.is_disabled || same_option (some j.name) judge_id)

pub set_object : ℕ → Judge → (ℕ → Judge) → ℕ → Judge
set_object k j objects i = if i == k then j else objects i

pub drop : ℕ → List ℕ → List ℕ
drop k ks = keep (λ i. not (i == k)) ks

pub drop_key : ℕ → List (ℕ × ℕ) → List (ℕ × ℕ)
drop_key k m = keep (λ p. not (p.0 == k)) m

pub is_mapped : ℕ → JudgeList → Bool
is_mapped id st = any (λ p. p.0 == id) st.submission_map

abbrev pub is_working : JudgeList → ℕ → Bool
is_working st k = is_some (st.objects k).working

pub current_tier_judges : JudgeList → List ℕ
current_tier_judges st =
    keep (λ k. same_option (st.objects k).tier st.min_tier && not (st.objects k).is_disabled)
      st.judges

pub should_reserve_judge : JudgeList → Bool
unfolding current_tier_judges
should_reserve_judge st =
    let judges = current_tier_judges st in
    if leb (length judges) 1
    then false
    else leb (length (keep (λ k. not (is_working st k)) judges)) 1

-- The walk of `_handle_free_judge` along the queue: the submission it settles on, with the queue
-- less its node.
pub scan : Judge → Bool → ℕ → List Node → Option (Submission × List Node)
scan j reserve priority [] = none
scan j reserve priority (marker p ∷ rest) = elim (scan j reserve (p + 1) rest) [
  | none ↦ none
  | some (s, left) ↦ some (s, marker p ∷ left)
]
scan j reserve priority (entry s ∷ rest) =
    let further : Option (Submission × List Node) = elim (scan j reserve priority rest) [
      | none ↦ none
      | some (t, left) ↦ some (t, entry s ∷ left)
    ] in
    if leb rejudge_priority priority && reserve
    then none
    else if can_judge j s.problem s.language s.judge_id
    then some (s, rest)
    else further

-- The test `judge.name == judge_id` that `disconnect` makes: `register` gives it the judge itself,
-- which equals no name.
pub data JudgeRef : Type 0 where
  named : ℕ → JudgeRef
  itself : ℕ → JudgeRef

pub least_tier : (ℕ → Judge) → List ℕ → Option ℕ
least_tier objects [] = none
least_tier objects (k ∷ rest) =
    let others = least_tier objects rest in
    if (objects k).is_disabled then others else elim (objects k).tier [
      | none ↦ others
      | some t ↦ elim others [ none ↦ some t | some u ↦ some (if ltb u t then u else t) ]
    ]

-- the judges whose connection `disconnect` ends
pub disconnect : JudgeRef → JudgeList → List ℕ
disconnect (named n) st = keep (λ k. (st.objects k).name == n) st.judges
disconnect (itself _) st = []

pub and_then : Run → (JudgeList → Run) → Run
and_then run f = elim run.1 [ none ↦ f (run.0) | some e ↦ run ]

pub set_disabled : ℕ → Bool → List ℕ → (ℕ → Judge) → ℕ → Judge
set_disabled name disabled [] objects = objects
set_disabled name disabled (k ∷ rest) objects = set_disabled name disabled rest (
    if (objects k).name == name
    then set_object k (record (objects k) { is_disabled = disabled }) objects
    else objects)

pub drop_entry : ℕ → List Node → List Node
drop_entry id [] = []
drop_entry id (marker p ∷ rest) = marker p ∷ drop_entry id rest
drop_entry id (entry s ∷ rest) = if s.id == id then rest else entry s ∷ drop_entry id rest

-- with whether a judge was told to stop
pub abort : ℕ → JudgeList → JudgeList × Bool
unfolding drop_entry
abort submission st =
    if is_mapped submission st
    then (st, true)
    else if contains submission st.node_map
    then (
      record st { queue = drop_entry submission st.queue; node_map = drop submission st.node_map },
      false,
    )
    else (st, false)

pub check_priority : ℕ → Bool
check_priority priority = ltb priority priorities

-- `queue.insert(entry, marker)`: right before the marker
pub insert_before : ℕ → Submission → List Node → List Node
insert_before priority s [] = entry s ∷ []
insert_before priority s (marker p ∷ rest) =
    if p == priority then entry s ∷ marker p ∷ rest else marker p ∷ insert_before priority s rest
insert_before priority s (entry t ∷ rest) = entry t ∷ insert_before priority s rest

-- `min(available, key=lambda judge: (judge.load, random()))`
pub least_loaded : (ℕ → Judge) → (ℕ → ℕ) → ℕ → List ℕ → ℕ
least_loaded objects random k [] = k
least_loaded objects random k (i ∷ rest) =
    let l = (objects i).load in
    let m = (objects k).load in
    least_loaded objects random (if ltb l m || l == m && ltb (random i) (random k) then i else k)
      rest

pub candidates_of : Submission → JudgeList → List ℕ
candidates_of s st =
    keep (λ k. can_judge (st.objects k) s.problem s.language s.judge_id) (current_tier_judges st)

pub available_of : Submission → ℕ → JudgeList → List ℕ
unfolding candidates_of
available_of s priority st =
    let candidates = candidates_of s st in
    let free = keep (λ k. not (is_working st k) && not (st.objects k).is_disabled) candidates in
    if ltb 1 (length candidates) && length free == 1 && leb rejudge_priority priority
    then []
    else free

pub enqueue : Submission → ℕ → JudgeList → Run
unfolding insert_before
enqueue s priority st =
    if ltb priority priorities
    then (
      record st {
        queue = insert_before priority s st.queue;
        node_map = s.id ∷ drop s.id st.node_map;
      },
      none,
    )
    else (st, some index_error)

module _ (sending : ℕ → ℕ → Sending) where
  -- `judge.submit`, and what a failure does to the set of judges
  pub send : ℕ → ℕ → JudgeList → JudgeList × Bool
  send k id st =
      let mapped = record st { submission_map = (id, k) ∷ drop_key id st.submission_map } in
      let taken = set_object k (record (st.objects k) { working = some id }) st.objects in
      elim (sending k id) [
        | sent ↦ (record mapped { objects = taken }, true)
        | no_data ↦ (record mapped { judges = drop k st.judges }, false)
        | not_sent ↦ (record mapped { objects = taken; judges = drop k st.judges }, false)
      ]

  pub dispatch : ℕ → JudgeList → Run
  unfolding send
  dispatch k st = elim (scan (st.objects k) (should_reserve_judge st) 0 st.queue) [
    | none ↦ (st, none)
    | some (s, left) ↦
        let tried = send k s.id st in
        if tried.1
        then (record (tried.0) { queue = left; node_map = drop s.id st.node_map }, none)
        else (tried.0, if contains k st.judges then none else some key_error)
  ]

  -- Comparing a tier with `None` raises.
  pub handle_free_judge : ℕ → JudgeList → Run
  unfolding dispatch
  handle_free_judge k st = elim (st.objects k).tier [
    | none ↦ (st, some type_error)
    | some tier ↦ elim st.min_tier [
      | none ↦ (st, some type_error)
      | some least ↦ if ltb least tier then (st, none) else dispatch k st
    ]
  ]

  pub free_unless_working : ℕ → JudgeList → Run
  unfolding handle_free_judge
  free_unless_working k st = if is_working st k then (st, none) else handle_free_judge k st

  pub free_all : List ℕ → JudgeList → Run
  unfolding free_unless_working and_then
  free_all [] st = (st, none)
  free_all (k ∷ rest) st = and_then (free_unless_working k st) (free_all rest)

  pub update_min_tier : JudgeList → Run
  unfolding free_all least_tier
  update_min_tier st =
      let updated = record st { min_tier = least_tier st.objects st.judges } in
      elim st.min_tier [
        | none ↦ (updated, none)
        | some old ↦ elim updated.min_tier [
          | none ↦ (updated, none)
          | some new ↦
              if ltb old new
              then free_all (current_tier_judges updated) updated
              else (updated, none)
        ]
      ]

  -- with the judges it disconnects
  pub register : ℕ → JudgeList → List ℕ × Run
  unfolding update_min_tier handle_free_judge and_then disconnect
  register k st =
      let added = record st {
        judges = if contains k st.judges then st.judges else k ∷ st.judges;
      } in
      (disconnect (itself k) st, and_then (update_min_tier added) (handle_free_judge k))

  pub update_problems : ℕ → JudgeList → Run
  unfolding handle_free_judge
  update_problems k st = handle_free_judge k st

  pub update_disable_judge : ℕ → Bool → JudgeList → Run
  unfolding update_min_tier set_disabled
  update_disable_judge name disabled st =
      update_min_tier (record st { objects = set_disabled name disabled st.judges st.objects })

  -- the only judge of its tier is no longer kept in reserve
  pub free_only : JudgeList → Run
  unfolding free_unless_working
  free_only st = elim (current_tier_judges st) [
    | [] ↦ (st, none)
    | only ∷ rest ↦ elim rest [ [] ↦ free_unless_working only st | _ ∷ _ ↦ (st, none) ]
  ]

  pub remove : ℕ → JudgeList → Run
  unfolding update_min_tier free_only and_then
  remove k st =
      and_then
        (update_min_tier (record st {
          submission_map = elim (st.objects k).working [
            | none ↦ st.submission_map
            | some id ↦ drop_key id st.submission_map
          ];
          judges = drop k st.judges;
        }))
        free_only

  pub on_judge_free : ℕ → ℕ → JudgeList → Run
  unfolding handle_free_judge
  on_judge_free k submission st =
      if is_mapped submission st
      then handle_free_judge k (record st {
        submission_map = drop_key submission st.submission_map;
        objects = set_object k (record (st.objects k) { working = none }) st.objects;
      })
      else (st, some key_error)

  -- `judge`, on fuel for the call that follows a failure to send
  pub judge_from : ℕ → (ℕ → ℕ) → Submission → ℕ → JudgeList → Run
  unfolding send enqueue available_of least_loaded
  judge_from zero random s priority st = (st, none)
  judge_from (suc fuel) random s priority st =
      let again = λ (next : JudgeList). judge_from fuel random s priority next in
      if is_mapped s.id st || contains s.id st.node_map
      then (st, none)
      else elim (available_of s priority st) [
        | [] ↦ enqueue s priority st
        | k ∷ rest ↦
            let tried = send (least_loaded st.objects random k rest) s.id st in
            if tried.1 then (tried.0, none) else again (tried.0)
      ]

  pub judge : (ℕ → ℕ) → Submission → ℕ → JudgeList → Run
  unfolding judge_from
  judge random s priority st = judge_from 2 random s priority st
