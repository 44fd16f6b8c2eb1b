-- ===== src/Bridge/JudgeList/Reserve.antt =====
-- judge/bridge/judge_list.py: `judge` keeps a judge free when it is given a rejudge.
use cpcjudge_site.Base.{
  ℕ, ◌≤◌, ◌≡◌, refl, sym, ◌∙◌, subst, ap, inl, inr, Bool, true, false, ◌&&◌, not, is_some, List, [],
  ◌∷◌, ltb, leb, ◌==◌, All, length, any, keep, Bool-cases, lt→ltb, le→leb, arith,
}
use cpcjudge_site.Bridge.JudgeList.{
  JudgeList, Submission, Sending, judge, judge_from, send, enqueue, available_of, candidates_of,
  current_tier_judges, least_loaded, is_working, set_object,
}
use cpcjudge_site.Bridge.JudgeList.Dispatch.{is_held, List-cases, send_maps, judge_from-held}

-- no judge twice, as in Python's set
abbrev pub AreDistinct : List ℕ → Type 0
AreDistinct [] = Unit
AreDistinct (k ∷ rest) = All (λ i. (k == i) ≡ false) rest × AreDistinct rest

All-keep : (P : ℕ → Type 0) (p : ℕ → Bool) (l : List ℕ) → All P l → All P (keep p l)
unfolding keep
All-keep P p [] h = tt
All-keep P p (k ∷ rest) h = elim (Bool-cases (p k)) [
  | inl e ↦ rw e (h.0, All-keep P p rest h.1)
  | inr e ↦ rw e (All-keep P p rest h.1)
]

keep-AreDistinct : (p : ℕ → Bool) (l : List ℕ) → AreDistinct l → AreDistinct (keep p l)
unfolding keep
keep-AreDistinct p [] h = tt
keep-AreDistinct p (k ∷ rest) h = elim (Bool-cases (p k)) [
  | inl e ↦ rw e (All-keep (λ i. (k == i) ≡ false) p rest h.0, keep-AreDistinct p rest h.1)
  | inr e ↦ rw e (keep-AreDistinct p rest h.1)
]

any-keep :
    (p q r : ℕ → Bool)
    → ((k : ℕ) → p k ≡ true → q k ≡ true → r k ≡ true)
    → (l : List ℕ) → any q (keep p l) ≡ true
    → any r l ≡ true
unfolding any keep
any-keep p q r f [] h = absurd (ground arith)
any-keep p q r f (k ∷ rest) h = elim (Bool-cases (p k)) [
  | inr e ↦ let others = any-keep p q r f rest (ground arith) in ground arith
  | inl e ↦ elim (Bool-cases (q k)) [
    | inl g ↦ let here = f k e g in ground arith
    | inr g ↦ let others = any-keep p q r f rest (ground arith) in ground arith
  ]
]

-- Of two different judges, one is not the chosen one.
one_left :
    (c k i : ℕ) (rest : List ℕ) → (k == i) ≡ false → any (λ j. not (j == c)) (k ∷ i ∷ rest) ≡ true
unfolding any
one_left c k i rest h = ground arith

abbrev is_spare : JudgeList → ℕ → Bool
is_spare st k = not (is_working st k) && not (st.objects k).is_disabled

-- A rejudge has no judge available, or at least two.
available-two :
    (s : Submission) (priority c : ℕ) (st : JudgeList) (k : ℕ) (rest : List ℕ)
    → 2 ≤ priority
    → AreDistinct st.judges
    → 2 ≤ length (candidates_of s st)
    → available_of s priority st ≡ k ∷ rest
    → any (λ j. not (j == c)) (keep (is_spare st) (candidates_of s st)) ≡ true
unfolding available_of candidates_of current_tier_judges
available-two s priority c st k rest low apart many e =
    let free : List ℕ = keep (is_spare st) (candidates_of s st) in
    let distinct : AreDistinct free =
      keep-AreDistinct (is_spare st) _ (keep-AreDistinct _ _ (keep-AreDistinct _ _ apart)) in
    let several : ltb 1 (length (candidates_of s st)) ≡ true =
      lt→ltb 1 (length (candidates_of s st)) many in
    let rejudge : leb 2 priority ≡ true = le→leb 2 priority low in
    let same : free ≡ k ∷ rest = ground arith in
    let one : (length free == 1) ≡ false = ground arith in
    elim (List-cases rest) [
      | inl r ↦ absurd (ground arith)
      | inr (i, more, r) ↦
          let both : free ≡ k ∷ i ∷ more = same ∙ ap (λ l. k ∷ l) r in
          let (first, _) = subst AreDistinct both distinct in
          subst (λ l. any (λ j. not (j == c)) l ≡ true) (sym both) (one_left c k i more first.0)
    ]

module _ (sending : ℕ → ℕ → Sending) where
  send-others :
      (c id k : ℕ) (st : JudgeList)
      → (k == c) ≡ false
      → is_working (send sending c id st).0 k ≡ is_working st k
  unfolding send set_object
  send-others c id k st h = ground arith

  enqueue-objects :
      (s : Submission) (priority : ℕ) (st : JudgeList)
      → (enqueue s priority st).0.objects ≡ st.objects
  unfolding enqueue
  enqueue-objects s priority st = ground arith

  -- Let the ids of the judges be distinct, and a submission have at least two candidates, one of them not
  -- working. When it is asked to be judged with a rejudging priority, then whatever happens to it, failures
  -- to send it included, one of these candidates is not working afterwards.
  pub judge-spares :
      (random : ℕ → ℕ) (s : Submission) (priority : ℕ) (st : JudgeList)
      → 2 ≤ priority
      → AreDistinct st.judges
      → 2 ≤ length (candidates_of s st)
      → any (λ k. not (is_working st k)) (candidates_of s st) ≡ true
      → any (λ k. not (is_working (judge sending random s priority st).0 k)) (candidates_of s st)
        ≡ true
  unfolding judge judge_from
  judge-spares random s priority st low apart many free = elim (Bool-cases (is_held s.id st)) [
    | inl h ↦ rw h free
    | inr h ↦ elim (List-cases (available_of s priority st)) [
      | inl e ↦
          rw (h, e)
            (subst
              (λ objects. any (λ k. not (is_some (objects k).working)) (candidates_of s st) ≡ true)
              (sym (enqueue-objects s priority st)) free)
      | inr (k, rest, e) ↦
          let chosen = least_loaded st.objects random k rest in
          let next = (send sending chosen s.id st).0 in
          let mapped : is_held s.id next ≡ true = rw (send_maps sending chosen s.id st) refl in
          let spared : any (λ i. not (is_working next i)) (candidates_of s st) ≡ true =
            any-keep (is_spare st) (λ i. not (i == chosen)) (λ i. not (is_working next i))
              (λ i a b. let same = send-others chosen s.id i st (ground arith) in ground arith)
              (candidates_of s st) (available-two s priority chosen st k rest low apart many e) in
          rw (h, e)
            (elim (Bool-cases (send sending chosen s.id st).1) [
              | inl t ↦ rw t spared
              | inr t ↦ rw (t, judge_from-held sending 1 random s priority next mapped) spared
            ])
    ]
  ]
