-- ===== src/Bridge/JudgeList/Dispatch.antt =====
-- judge/bridge/judge_list.py: which submission a free judge takes, and what `judge` does with one.
use cpcjudge_site.Base.{
  ℕ, zero, suc, ◌+◌, ◌≤◌, ◌<◌, ◌≡◌, ◌≢◌, ◌⊎◌, subst, refl, sym, ap, inl, inr, Bool, true, false,
  ◌&&◌, ◌||◌, Option, none, some, List, [], ◌∷◌, ◌++◌, leb, ◌==◌, if◌then◌else◌, All, contains, any,
  Bool-cases, Option-cases, ==_refl, lt→ltb, arith,
}
use cpcjudge_site.Bridge.JudgeList.{
  register, update_min_tier, handle_free_judge, and_then, least_tier, type_error, JudgeList, Judge,
  Node, marker, entry, Submission, Sending, sent, scan, can_judge, judge, judge_from, send, enqueue,
  available_of, least_loaded, is_mapped, drop,
}

-- A node that a judge passes by: a marker, or a submission that it cannot judge.
abbrev pub Passed : Judge → Node → Type 0
Passed j (marker p) = Unit
Passed j (entry s) = can_judge j s.problem s.language s.judge_id ≡ false

-- the priority of what comes next, after the nodes of a prefix of the queue
abbrev pub priority_after : ℕ → List Node → ℕ
priority_after p [] = p
priority_after p (marker q ∷ rest) = priority_after (q + 1) rest
priority_after p (entry s ∷ rest) = priority_after p rest

abbrev pub TakesFirst : Judge → Bool → ℕ → List Node → Submission → List Node → Type 0
TakesFirst j reserve p queue s left =
    (pre post : List Node) × (queue ≡ pre ++ entry s ∷ post)
    × (left ≡ pre ++ post)
    × All (Passed j) pre
    × (can_judge j s.problem s.language s.judge_id ≡ true)
    × (reserve ≡ true → priority_after p pre < 2)

-- Where the walk stops with nothing: at the end, or at a submission of a rejudging priority while a judge
-- is to be kept in reserve.
abbrev pub Stops : Bool → ℕ → List Node → Type 0
Stops reserve p [] = Unit
Stops reserve p (marker q ∷ rest) = ⊥
Stops reserve p (entry s ∷ rest) = (reserve ≡ true) × (2 ≤ p)

abbrev pub TakesNone : Judge → Bool → ℕ → List Node → Type 0
TakesNone j reserve p queue =
    (pre post : List Node) × (queue ≡ pre ++ post)
    × All (Passed j) pre
    × Stops reserve (priority_after p pre) post

abbrev pub Takes : Judge → Bool → ℕ → List Node → Option (Submission × List Node) → Type 0
Takes j reserve p queue none = TakesNone j reserve p queue
Takes j reserve p queue (some (s, left)) = TakesFirst j reserve p queue s left

scan-TakesFirst :
    (j : Judge) (reserve : Bool) (p : ℕ) (queue : List Node) (s : Submission) (left : List Node)
    → scan j reserve p queue ≡ some (s, left)
    → TakesFirst j reserve p queue s left
unfolding scan
scan-TakesFirst j reserve p [] s left h = absurd (ground arith)
scan-TakesFirst j reserve p (marker q ∷ rest) s left h =
    elim (Option-cases (scan j reserve (q + 1) rest)) [
      | inl e ↦ absurd (ground arith)
      | inr (r, e) ↦
          let (pre, post, a, b, c, d, f) = scan-TakesFirst j reserve (q + 1) rest (r.0) (r.1) e in
          let same : r.0 ≡ s = ground arith in
          let kept : marker q ∷ r.1 ≡ left = ground arith in
          (
            marker q ∷ pre,
            post,
            cc,
            cc,
            (tt, c),
            subst (λ t. can_judge j t.problem t.language t.judge_id ≡ true) same d,
            f,
          )
    ]
scan-TakesFirst j reserve p (entry t ∷ rest) s left h = elim (Bool-cases (leb 2 p && reserve)) [
  | inl e ↦ absurd (ground arith)
  | inr e ↦ elim (Bool-cases (can_judge j t.problem t.language t.judge_id)) [
    | inl c ↦
        let same : t ≡ s = ground arith in
        let kept : rest ≡ left = ground arith in
        (
          [],
          rest,
          cc,
          cc,
          tt,
          subst (λ u. can_judge j u.problem u.language u.judge_id ≡ true) same c,
          λ r. ground arith,
        )
    | inr c ↦ elim (Option-cases (scan j reserve p rest)) [
      | inl n ↦ absurd (ground arith)
      | inr (r, n) ↦
          let (pre, post, a, b, k, d, f) = scan-TakesFirst j reserve p rest (r.0) (r.1) n in
          let same : r.0 ≡ s = ground arith in
          let kept : entry t ∷ r.1 ≡ left = ground arith in
          (
            entry t ∷ pre,
            post,
            cc,
            cc,
            (c, k),
            subst (λ u. can_judge j u.problem u.language u.judge_id ≡ true) same d,
            f,
          )
    ]
  ]
]

scan-TakesNone :
    (j : Judge) (reserve : Bool) (p : ℕ) (queue : List Node)
    → scan j reserve p queue ≡ none
    → TakesNone j reserve p queue
unfolding scan
scan-TakesNone j reserve p [] h = ([], [], refl, tt, tt)
scan-TakesNone j reserve p (marker q ∷ rest) h = elim (Option-cases (scan j reserve (q + 1) rest)) [
  | inr (r, e) ↦ absurd (ground arith)
  | inl e ↦
      let (pre, post, a, b, c) = scan-TakesNone j reserve (q + 1) rest e in
      (marker q ∷ pre, post, cc, (tt, b), c)
]
scan-TakesNone j reserve p (entry t ∷ rest) h = elim (Bool-cases (leb 2 p && reserve)) [
  | inl e ↦ ([], entry t ∷ rest, refl, tt, (ground arith, ground arith))
  | inr e ↦ elim (Bool-cases (can_judge j t.problem t.language t.judge_id)) [
    | inl c ↦ absurd (ground arith)
    | inr c ↦ elim (Option-cases (scan j reserve p rest)) [
      | inr (r, n) ↦ absurd (ground arith)
      | inl n ↦
          let (pre, post, a, b, k) = scan-TakesNone j reserve p rest n in
          (entry t ∷ pre, post, cc, (c, b), k)
    ]
  ]
]

-- The walk of a judge along the queue either takes a submission or takes none. One that it takes is the
-- first that the judge can judge, is the only one to leave the queue, and has no rejudging priority while a
-- judge is to be kept in reserve. When it takes none, the judge can judge nothing up to the place where the
-- walk stops: the end of the queue, or, only while a judge is to be kept in reserve, a submission of a
-- rejudging priority.
pub scan-Takes :
    (j : Judge) (reserve : Bool) (p : ℕ) (queue : List Node)
    → Takes j reserve p queue (scan j reserve p queue)
scan-Takes j reserve p queue = elim (Option-cases (scan j reserve p queue)) [
  | inl e ↦ subst (Takes j reserve p queue) (sym e) (scan-TakesNone j reserve p queue e)
  | inr (r, e) ↦
      subst (Takes j reserve p queue) (sym e)
        (scan-TakesFirst j reserve p queue (r.0) (r.1) (ground arith))
]

or_true : (b : Bool) → (b || true) ≡ true
or_true b = ground arith

pub List-cases : {A : Type 0} (l : List A) → (l ≡ []) ⊎ ((x : A) × (rest : List A) × (l ≡ x ∷ rest))
List-cases [] = inl refl
List-cases (x ∷ rest) = inr (x, rest, refl)

-- being judged, or in the queue
abbrev pub is_held : ℕ → JudgeList → Bool
is_held id st = is_mapped id st || contains id st.node_map

only_disabled :
    (k : ℕ) (st : JudgeList)
    → st.judges ≡ []
    → (st.objects k).is_disabled ≡ true
    → least_tier st.objects (if contains k st.judges then st.judges else k ∷ st.judges) ≡ none
unfolding least_tier any
only_disabled k st alone disabled = rw alone (rw disabled refl)

module _ (sending : ℕ → ℕ → Sending) where
  pub send_maps : (k id : ℕ) (st : JudgeList) → is_mapped id (send sending k id st).0 ≡ true
  unfolding send is_mapped any
  send_maps k id st = ground (arith, ==_refl id)

  enqueue_holds :
      (s : Submission) (priority : ℕ) (st : JudgeList)
      → priority < 4
      → is_held s.id (enqueue s priority st).0 ≡ true
  unfolding enqueue any is_mapped
  enqueue_holds s priority st small =
      rw (lt→ltb priority 4 small, ==_refl s.id)
        (or_true (any (λ p. p.0 == s.id) st.submission_map))

  pub judge_from-held :
      (n : ℕ) (random : ℕ → ℕ) (s : Submission) (priority : ℕ) (st : JudgeList)
      → is_held s.id st ≡ true
      → judge_from sending n random s priority st ≡ (st, none)
  unfolding judge_from
  judge_from-held zero random s priority st h = refl
  judge_from-held (suc n) random s priority st h = rw h refl

  judge_from-holds :
      (n : ℕ) (random : ℕ → ℕ) (s : Submission) (priority : ℕ) (st : JudgeList)
      → priority < 4
      → is_held s.id (judge_from sending (suc n) random s priority st).0 ≡ true
  unfolding judge_from
  judge_from-holds n random s priority st small = elim (Bool-cases (is_held s.id st)) [
    | inl h ↦ rw h h
    | inr h ↦ elim (List-cases (available_of s priority st)) [
      | inl e ↦ rw (h, e) (enqueue_holds s priority st small)
      | inr (k, rest, e) ↦
          let chosen = least_loaded st.objects random k rest in
          let mapped : is_held s.id (send sending chosen s.id st).0 ≡ true =
            rw (send_maps chosen s.id st) refl in
          rw (h, e)
            (elim (Bool-cases (send sending chosen s.id st).1) [
              | inl t ↦ rw t mapped
              | inr t ↦
                  rw (t, judge_from-held n random s priority (send sending chosen s.id st).0 mapped)
                    mapped
            ])
    ]
  ]

  -- Once a submission is asked to be judged with one of the four priorities, whatever happens to it,
  -- failures to send it included, asking for it again changes nothing.
  pub judge-idempotent :
      (random random' : ℕ → ℕ) (s again : Submission) (priority priority' : ℕ) (st : JudgeList)
      → priority < 4
      → again.id ≡ s.id
      → (let after = (judge sending random s priority st).0 in
          judge sending random' again priority' after ≡ (after, none))
  unfolding judge
  judge-idempotent random random' s again priority priority' st small same =
      judge_from-held 2 random' again priority' _
        (rw same (judge_from-holds 1 random s priority st small))

  send_fails :
      (k id : ℕ) (st : JudgeList)
      → sending k id ≢ sent
      → (let tried = send sending k id st in
          (tried.1 ≡ false) × ((tried.0).queue ≡ st.queue) × ((tried.0).judges ≡ drop k st.judges))
  unfolding send
  send_fails k id st fails = ground arith

  -- When a submission that no judge has and that does not wait is sent to the least loaded of the
  -- available judges, and that fails, it is gone: it counts as being judged, the judge it was sent to is
  -- dropped, the queue is as it was, and the call ends without an error.
  pub failed_dispatch-loses :
      (random : ℕ → ℕ) (s : Submission) (priority : ℕ) (st : JudgeList) (k : ℕ) (rest : List ℕ)
      → is_mapped s.id st ≡ false
      → contains s.id st.node_map ≡ false
      → available_of s priority st ≡ k ∷ rest
      → sending (least_loaded st.objects random k rest) s.id ≢ sent
      → (let run = judge sending random s priority st in
          (run.1 ≡ none)
          × (is_mapped s.id (run.0) ≡ true)
          × ((run.0).queue ≡ st.queue)
          × ((run.0).judges ≡ drop (least_loaded st.objects random k rest) st.judges))
  unfolding judge judge_from
  failed_dispatch-loses random s priority st k rest m n a fails =
      let chosen = least_loaded st.objects random k rest in
      let next = (send sending chosen s.id st).0 in
      let mapped = send_maps chosen s.id st in
      let (unsent, queue, judges) = send_fails chosen s.id st fails in
      let result : judge_from sending 2 random s priority st ≡ (next, none) =
        rw (m, n, a, unsent, mapped) refl in
      rw result (refl, mapped, queue, judges)

  tierless-raises :
      (k : ℕ) (st : JudgeList)
      → st.min_tier ≡ none
      → (handle_free_judge sending k st).1 ≡ some type_error
  unfolding handle_free_judge
  tierless-raises k st e = elim (Option-cases (st.objects k).tier) [
    | inl f ↦ rw (f, handle_free_judge) refl
    | inr (t, f) ↦ rw (f, e, handle_free_judge) refl
  ]

  update_min_tier-none :
      (st : JudgeList)
      → least_tier st.objects st.judges ≡ none
      → update_min_tier sending st ≡ (record st { min_tier = none }, none)
  unfolding update_min_tier
  update_min_tier-none st e = elim (Option-cases st.min_tier) [
    | inl f ↦ rw (f, update_min_tier) (ap (λ (o : Option ℕ). (record st { min_tier = o }, none)) e)
    | inr (t, f) ↦
        rw (f, e, update_min_tier) (ap (λ (o : Option ℕ). (record st { min_tier = o }, none)) e)
  ]

  -- A disabled judge that connects while no other judge is there makes `register` raise: it compares
  -- the judge's tier with a least tier that does not exist.
  pub register_disabled-raises :
      (k : ℕ) (st : JudgeList)
      → st.judges ≡ []
      → (st.objects k).is_disabled ≡ true
      → (register sending k st).1.1 ≡ some type_error
  unfolding register and_then
  register_disabled-raises k st alone disabled =
      let added : JudgeList = record st {
        judges = if contains k st.judges then st.judges else k ∷ st.judges;
      } in
      let least : least_tier added.objects added.judges ≡ none =
        only_disabled k st alone disabled in
      rw (register, update_min_tier-none added least)
        (tierless-raises k (record added { min_tier = none }) refl)
