-- ===== src/Bridge/JudgeList/Exclusive.antt =====
-- judge/bridge/judge_list.py: a submission is in the queue or with a judge, never in both, and never
-- twice in the queue.
use cpcjudge_site.Base.{
  ℕ, ◌+◌, ◌≡◌, refl, inl, inr, Bool, true, false, ◌&&◌, ◌||◌, Option, none, some, List, [], ◌∷◌,
  ltb, ◌==◌, if◌then◌else◌, contains, any, Bool-cases, Option-cases, arith,
}
use cpcjudge_site.Bridge.JudgeList.Dispatch.{is_held, List-cases}
use cpcjudge_site.Bridge.JudgeList.{
  initial, and_then, free_only, free_unless_working, free_all, least_tier, update_min_tier,
  current_tier_judges, register, remove, is_working, update_disable_judge, JudgeList, Judge, Node,
  Submission, Run, Sending, sent, scan, judge, judge_from, send, enqueue, available_of,
  least_loaded, is_mapped, drop, drop_key, set_object, dispatch, handle_free_judge, on_judge_free,
  abort, should_reserve_judge,
}
use cpcjudge_site.Bridge.JudgeList.Queued.{
  queued, contains-drop, mapped-drop, queued-insert, queued-drop_entry, queued-scan, contains-cons,
  mapped-cons, held_nowhere,
}

pub record Exclusive (st : JudgeList) : Type 0 where
  pub once : (id : ℕ) → queued id st.queue ≡ (if contains id st.node_map then 1 else 0)
  pub apart : (id : ℕ) → (is_mapped id st && contains id st.node_map) ≡ false

pub initial-Exclusive : (objects : ℕ → Judge) → Exclusive (initial objects)
unfolding initial is_mapped any queued
initial-Exclusive objects = record { once = λ id. refl; apart = λ id. refl }

-- putting a submission in the queue that is nowhere yet
enqueue-Exclusive :
    (s : Submission) (priority : ℕ) (st : JudgeList)
    → (is_mapped s.id st || contains s.id st.node_map) ≡ false
    → Exclusive st
    → Exclusive (enqueue s priority st).0
unfolding enqueue is_mapped
enqueue-Exclusive s priority st new inv = elim (Bool-cases (ltb priority 4)) [
  | inl small ↦ rw small (record {
    once = λ id.
        let a = queued-insert id priority s st.queue in
        let b = contains-drop id s.id st.node_map in
        let c = inv.once id in
        let d = contains-cons id s.id (drop s.id st.node_map) in
        let f = held_nowhere s.id id st new in ground arith;
    apart = λ id.
        let b = contains-drop id s.id st.node_map in
        let c = inv.apart id in
        let d = contains-cons id s.id (drop s.id st.node_map) in
        let f = held_nowhere s.id id st new in ground arith;
  })
  | inr big ↦ rw big inv
]

pub abort-Exclusive :
    (submission : ℕ) (st : JudgeList) → Exclusive st → Exclusive (abort submission st).0
unfolding abort is_mapped
abort-Exclusive submission st inv = elim (Bool-cases (is_mapped submission st)) [
  | inl m ↦ rw m inv
  | inr m ↦ elim (Bool-cases (contains submission st.node_map)) [
    | inr n ↦ rw (m, n) inv
    | inl n ↦
        rw (m, n)
          (record {
            once = λ id.
                let a = queued-drop_entry id submission st.queue in
                let b = contains-drop id submission st.node_map in
                let c = inv.once id in ground arith;
            apart = λ id.
                let b = contains-drop id submission st.node_map in
                let c = inv.apart id in ground arith;
          })
  ]
]

module _ (sending : ℕ → ℕ → Sending) (sends : (k id : ℕ) → sending k id ≡ sent) where
  send_sent :
      (k id : ℕ) (st : JudgeList)
      → send sending k id st ≡ (
        record st {
          submission_map = (id, k) ∷ drop_key id st.submission_map;
          objects = set_object k (record (st.objects k) { working = some id }) st.objects;
        },
        true,
      )
  unfolding send
  send_sent k id st = rw (sends k id, send) refl

  -- a waiting submission that is sent leaves the queue, and is with its judge
  sent_one-Exclusive :
      (k : ℕ) (s : Submission) (left : List Node) (st : JudgeList)
      → ((id : ℕ) → queued id st.queue ≡ (if s.id == id then 1 else 0) + queued id left)
      → Exclusive st
      → Exclusive (record st {
        submission_map = (s.id, k) ∷ drop_key s.id st.submission_map;
        objects = set_object k (record (st.objects k) { working = some s.id }) st.objects;
        queue = left;
        node_map = drop s.id st.node_map;
      })
  unfolding is_mapped
  sent_one-Exclusive k s left st taken inv = record {
    once = λ id.
        let a = taken id in
        let b = contains-drop id s.id st.node_map in let c = inv.once id in ground arith;
    apart = λ id.
        let a = mapped-cons id s.id k st.submission_map in
        let b = contains-drop id s.id st.node_map in let c = inv.apart id in ground arith;
  }

  dispatch-Exclusive : (k : ℕ) (st : JudgeList) → Exclusive st → Exclusive (dispatch sending k st).0
  unfolding dispatch
  dispatch-Exclusive k st inv =
      elim (Option-cases (scan (st.objects k) (should_reserve_judge st) 0 st.queue)) [
        | inl e ↦ rw (e, dispatch) inv
        | inr (found, e) ↦
            rw (e, dispatch, send_sent k (found.0).id st)
              (sent_one-Exclusive k (found.0) (found.1) st
                (queued-scan (st.objects k) (should_reserve_judge st) 0 st.queue (found.0) (found.1)
                  e)
                inv)
      ]

  pub handle_free_judge-Exclusive :
      (k : ℕ) (st : JudgeList) → Exclusive st → Exclusive (handle_free_judge sending k st).0
  unfolding handle_free_judge
  handle_free_judge-Exclusive k st inv = elim (Option-cases (st.objects k).tier) [
    | inl e ↦ rw (e, handle_free_judge) inv
    | inr (t, e) ↦ elim (Option-cases st.min_tier) [
      | inl f ↦ rw (e, f, handle_free_judge) inv
      | inr (m, f) ↦ elim (Bool-cases (ltb m t)) [
        | inl g ↦ rw (e, f, g, handle_free_judge) inv
        | inr g ↦ rw (e, f, g, handle_free_judge) (dispatch-Exclusive k st inv)
      ]
    ]
  ]

  -- a run that goes on only if nothing was raised
  and_then-Exclusive :
      (run : Run) (f : JudgeList → Run)
      → Exclusive (run.0)
      → ((st : JudgeList) → Exclusive st → Exclusive (f st).0)
      → Exclusive (and_then run f).0
  unfolding and_then
  and_then-Exclusive (st, none) f inv step = step st inv
  and_then-Exclusive (st, some e) f inv step = inv

  free_unless_working-Exclusive :
      (k : ℕ) (st : JudgeList) → Exclusive st → Exclusive (free_unless_working sending k st).0
  unfolding free_unless_working
  free_unless_working-Exclusive k st inv = elim (Bool-cases (is_working st k)) [
    | inl w ↦ rw (w, free_unless_working) inv
    | inr w ↦ rw (w, free_unless_working) (handle_free_judge-Exclusive k st inv)
  ]

  free_all-Exclusive :
      (ks : List ℕ) (st : JudgeList) → Exclusive st → Exclusive (free_all sending ks st).0
  unfolding free_all
  free_all-Exclusive [] st inv = inv
  free_all-Exclusive (k ∷ rest) st inv =
      and_then-Exclusive (free_unless_working sending k st) (free_all sending rest)
        (free_unless_working-Exclusive k st inv) (free_all-Exclusive rest)

  -- changes that leave the queue and the maps alone
  pub other_fields-Exclusive :
      (st : JudgeList) (objects : ℕ → Judge) (judges : List ℕ) (least : Option ℕ)
      → Exclusive st
      → Exclusive (record st { objects = objects; judges = judges; min_tier = least })
  unfolding is_mapped
  other_fields-Exclusive st objects judges least inv = record { once = inv.once; apart = inv.apart }

  dropped-Exclusive :
      (st : JudgeList) (id : ℕ) (objects : ℕ → Judge) (judges : List ℕ)
      → Exclusive st
      → Exclusive (record st {
        submission_map = drop_key id st.submission_map;
        objects = objects;
        judges = judges;
      })
  unfolding is_mapped
  dropped-Exclusive st id objects judges inv = record {
    once = inv.once;
    apart = λ i. let a = mapped-drop i id st.submission_map in let c = inv.apart i in ground arith;
  }

  update_min_tier-Exclusive :
      (st : JudgeList) → Exclusive st → Exclusive (update_min_tier sending st).0
  unfolding update_min_tier
  update_min_tier-Exclusive st inv =
      let least = least_tier st.objects st.judges in
      let updated = record st { min_tier = least } in
      let kept = other_fields-Exclusive st st.objects st.judges least inv in
      elim (Option-cases st.min_tier) [
        | inl e ↦ rw (e, update_min_tier) kept
        | inr (old, e) ↦ elim (Option-cases least) [
          | inl f ↦ rw (e, f, update_min_tier) kept
          | inr (new, f) ↦ elim (Bool-cases (ltb old new)) [
            | inl g ↦
                rw (e, f, g, update_min_tier)
                  (free_all-Exclusive (current_tier_judges updated) updated kept)
            | inr g ↦ rw (e, f, g, update_min_tier) kept
          ]
        ]
      ]

  pub register-Exclusive :
      (k : ℕ) (st : JudgeList) → Exclusive st → Exclusive (register sending k st).1.0
  unfolding register
  register-Exclusive k st inv =
      and_then-Exclusive _ (handle_free_judge sending k)
        (update_min_tier-Exclusive _ (other_fields-Exclusive st st.objects _ st.min_tier inv))
        (handle_free_judge-Exclusive k)

  pub update_disable_judge-Exclusive :
      (name : ℕ) (disabled : Bool) (st : JudgeList)
      → Exclusive st
      → Exclusive (update_disable_judge sending name disabled st).0
  unfolding update_disable_judge
  update_disable_judge-Exclusive name disabled st inv =
      update_min_tier-Exclusive _ (other_fields-Exclusive st _ st.judges st.min_tier inv)

  pub on_judge_free-Exclusive :
      (k submission : ℕ) (st : JudgeList)
      → Exclusive st
      → Exclusive (on_judge_free sending k submission st).0
  unfolding on_judge_free
  on_judge_free-Exclusive k submission st inv = elim (Bool-cases (is_mapped submission st)) [
    | inl m ↦
        rw (m, on_judge_free)
          (handle_free_judge-Exclusive k _ (
            dropped-Exclusive st submission
              (set_object k (record (st.objects k) { working = none }) st.objects) st.judges inv))
    | inr m ↦ rw (m, on_judge_free) inv
  ]

  free_only-Exclusive : (st : JudgeList) → Exclusive st → Exclusive (free_only sending st).0
  unfolding free_only
  free_only-Exclusive st inv = elim (List-cases (current_tier_judges st)) [
    | inl e ↦ rw (e, free_only) inv
    | inr (only, rest, e) ↦ elim (List-cases rest) [
      | inl f ↦ rw (e, f, free_only) (free_unless_working-Exclusive only st inv)
      | inr (k, more, f) ↦ rw (e, f, free_only) inv
    ]
  ]

  pub remove-Exclusive : (k : ℕ) (st : JudgeList) → Exclusive st → Exclusive (remove sending k st).0
  unfolding remove
  remove-Exclusive k st inv =
      and_then-Exclusive _ (free_only sending)
        (update_min_tier-Exclusive _ (left (st.objects k).working)) free_only-Exclusive
    where
      left :
          (w : Option ℕ)
          → Exclusive (record st {
            submission_map = elim w [
              | none ↦ st.submission_map
              | some id ↦ drop_key id st.submission_map
            ];
            judges = drop k st.judges;
          })
      left none = other_fields-Exclusive st st.objects (drop k st.judges) st.min_tier inv
      left (some id) = dropped-Exclusive st id st.objects (drop k st.judges) inv

  mapped_new-Exclusive :
      (k : ℕ) (s : Submission) (st : JudgeList)
      → is_held s.id st ≡ false
      → Exclusive st
      → Exclusive (record st {
        submission_map = (s.id, k) ∷ drop_key s.id st.submission_map;
        objects = set_object k (record (st.objects k) { working = some s.id }) st.objects;
      })
  unfolding is_mapped
  mapped_new-Exclusive k s st new inv = record {
    once = inv.once;
    apart = λ id.
        let a = mapped-cons id s.id k st.submission_map in
        let c = inv.apart id in let f = held_nowhere s.id id st new in ground arith;
  }

  pub judge-Exclusive :
      (random : ℕ → ℕ) (s : Submission) (priority : ℕ) (st : JudgeList)
      → Exclusive st
      → Exclusive (judge sending random s priority st).0
  unfolding judge judge_from
  judge-Exclusive random s priority st inv = elim (Bool-cases (is_held s.id st)) [
    | inl h ↦ rw (h, judge) inv
    | inr h ↦ elim (List-cases (available_of s priority st)) [
      | inl e ↦ rw (h, e, judge, judge_from) (enqueue-Exclusive s priority st h inv)
      | inr (k, rest, e) ↦
          rw (h, e, judge, judge_from, send_sent (least_loaded st.objects random k rest) s.id st)
            (mapped_new-Exclusive (least_loaded st.objects random k rest) s st h inv)
    ]
  ]
