-- ===== src/ProblemData/Loop.antt =====
-- judge/utils/problem_data.py: the loop of `make_init` keeps every case and builds sound batches.
use mathlib.Core.List.{append-nil, append_assoc}
use cpcjudge_site.Base.{
  ℕ, suc, ◌≡◌, refl, sym, subst, ◌∙◌, ap, inl, inr, Bool, Option, none, some, List, [], ◌∷◌, ◌++◌,
  Option-cases, arith,
}
use cpcjudge_site.ProblemData.Cases.{
  Case, CaseType, CaseData, single_case, batched_case, BatchData, Item, State, Step, new_batch,
  check_dependencies, end_batch, open_batch, start_batch, close_batch, one_case, all_cases,
  make_cases, go_on, start, kept_args,
}
use cpcjudge_site.ProblemData.Batches.{
  AreEarlier, AreSound, groups, listed, described_of, described, IsLoop, IsLoopState,
  check_dependencies-AreEarlier, go_on-none, end_batch-IsLoop, single_case-IsLoop,
  batched_case-IsLoop,
}

-- a batch opened after the one before it has ended
open_batch-IsLoop :
    (done : List (Bool × CaseData)) (i : ℕ) (c : Case) (st : State)
    → AreSound 0 st.cases
    → st.batch_count ≡ suc (groups st.cases)
    → listed st.cases ≡ done
    → (open_batch i c st).1 ≡ none
    → IsLoopState (some c.is_pretest) done (open_batch i c st).0
unfolding open_batch
open_batch-IsLoop done i c st sound number kept h = elim (Option-cases c.points) [
  | inl e ↦ absurd (ground arith)
  | inr (points, e) ↦ elim (Option-cases c.batch_dependencies) [
    | inl f ↦ absurd (ground arith)
    | inr (deps, f) ↦ elim (Option-cases (check_dependencies i st.batch_count deps)) [
      | inr (err, k) ↦ absurd (ground arith)
      | inl k ↦
          let opened : open_batch i c st ≡ (
            record st {
              batch = some (c.is_pretest, new_batch c points deps);
              saved =
                  record c {
                    checker_args = kept_args c.checker c.checker_args;
                    input_file = none;
                    output_file = none;
                  }
                  ∷ st.saved;
            },
            none,
          ) =
            ground arith in
          subst (λ r. IsLoopState (some c.is_pretest) done (r.0)) (sym opened)
            (
              sound,
              (number, check_dependencies-AreEarlier i st.batch_count deps k),
              append-nil (listed st.cases) ∙ kept,
              refl,
            )
    ]
  ]
]

abbrev state_of : List Item → Option (Bool × BatchData) → ℕ → List Case → State
state_of items batch number saved = record {
  cases = items;
  batch = batch;
  batch_count = number;
  saved = saved;
}

-- the end of the batch open before
ended-IsLoop :
    (inside : Option Bool) (done : List (Bool × CaseData)) (number later : ℕ) (items : List Item)
    (p : Bool) (b : BatchData) (saved : List Case)
    → IsLoop inside done items (some (p, b)) number
    → (let r = end_batch (p, b) (state_of items (some (p, b)) later saved) in
        r.1 ≡ none
        → AreSound 0 (r.0).cases
          × (groups (r.0).cases ≡ number)
          × (listed (r.0).cases ≡ done)
          × ((r.0).batch_count ≡ later))
ended-IsLoop inside done number later items p b saved (sound, (opened, deps), kept, _) h =
    let ended =
      end_batch-IsLoop done p b (state_of items (some (p, b)) later saved) sound
        (subst (λ m. AreEarlier m b.dependencies) opened deps) kept h in
    (ended.0, ended.1 ∙ sym opened, ended.2, ended.3)

start_batch-IsLoop :
    (inside : Option Bool) (done : List (Bool × CaseData)) (i : ℕ) (c : Case) (items : List Item)
    (batch : Option (Bool × BatchData)) (number : ℕ) (saved : List Case)
    → IsLoop inside done items batch number
    → (start_batch i c (state_of items batch number saved)).1 ≡ none
    → IsLoopState (some c.is_pretest) done (start_batch i c (state_of items batch number saved)).0
unfolding start_batch
start_batch-IsLoop inside done i c items none number saved (sound, opened, kept, _) h =
    open_batch-IsLoop done i c (state_of items none (suc number) saved) sound (ap suc opened)
      (sym (append-nil (listed items)) ∙ kept) h
start_batch-IsLoop inside done i c items (some (p, b)) number saved l h =
    let r : Step = end_batch (p, b) (state_of items (some (p, b)) (suc number) saved) in
    let went : (r.1 ≡ none) × (go_on r (open_batch i c) ≡ open_batch i c (r.0)) =
      go_on-none r (open_batch i c) h in
    let ended = ended-IsLoop inside done number (suc number) items p b saved l (went.0) in
    subst (λ s. IsLoopState (some c.is_pretest) done (s.0)) (sym (went.1))
      (open_batch-IsLoop done i c (r.0) (ended.0) (ended.3 ∙ ap suc (sym (ended.1))) (ended.2)
        (sym (ap (λ s. s.1) (went.1)) ∙ h))

close_batch-IsLoop :
    (inside : Option Bool) (done : List (Bool × CaseData)) (i : ℕ) (c : Case) (items : List Item)
    (batch : Option (Bool × BatchData)) (number : ℕ) (saved : List Case)
    → IsLoop inside done items batch number
    → (close_batch i c (state_of items batch number saved)).1 ≡ none
    → IsLoopState none done (close_batch i c (state_of items batch number saved)).0
unfolding close_batch
close_batch-IsLoop inside done i c items none number saved l h = absurd (ground arith)
close_batch-IsLoop inside done i c items (some (p, b)) number saved l h =
    let closing : State = state_of items (some (p, b)) number (
      record c {
        is_pretest = p;
        input_file = none;
        output_file = none;
        generator_args = none;
        checker = none;
        checker_args = none;
      }
      ∷ saved) in
    let close : State → Step = λ ended. (record ended { batch = none }, none) in
    let r : Step = end_batch (p, b) closing in
    let went : (r.1 ≡ none) × (go_on r close ≡ close (r.0)) = go_on-none r close h in
    let ended = ended-IsLoop inside done number number items p b (closing.saved) l (went.0) in
    subst (λ s. IsLoopState none done (s.0)) (sym (went.1))
      (ended.0, ended.3 ∙ sym (ended.1), append-nil (listed ((r.0).cases)) ∙ ended.2, refl)

-- where a row leaves the loop, and the cases after it
abbrev inside_after : CaseType → Case → Option Bool → Option Bool
inside_after CaseType.normal c inside = inside
inside_after CaseType.batch_start c inside = some c.is_pretest
inside_after CaseType.batch_end c inside = none

abbrev done_after : CaseType → Case → Option Bool → List (Bool × CaseData) → List (Bool × CaseData)
done_after CaseType.normal c inside done = done ++ described_of inside c ∷ []
done_after CaseType.batch_start c inside done = done
done_after CaseType.batch_end c inside done = done

one_case-IsLoop :
    (inside : Option Bool) (done : List (Bool × CaseData)) (i : ℕ) (g : Bool) (files : List ℕ)
    (t : CaseType) (c : Case) (items : List Item) (batch : Option (Bool × BatchData)) (number : ℕ)
    (saved : List Case)
    → IsLoop inside done items batch number
    → (one_case i g files (record c { case_type = t }) (state_of items batch number saved)).1 ≡ none
    → IsLoopState
        (inside_after t c inside)
        (done_after t c inside done)
        (one_case i g files (record c { case_type = t }) (state_of items batch number saved)).0
unfolding one_case
one_case-IsLoop inside done i g files CaseType.normal c items none number saved (a, b, k, o) h =
    let row : Case = record c { case_type = CaseType.normal } in
    let before = state_of items none number saved in
    subst (λ x. IsLoopState x (done ++ described_of x c ∷ []) (single_case i g files row before).0)
      o (single_case-IsLoop done i g files row before refl (a, b, k, refl) h)
one_case-IsLoop inside done i g files CaseType.normal c items (some (p, b)) number saved
      (s, n, k, o) h =
    let row : Case = record c { case_type = CaseType.normal } in
    let before = state_of items (some (p, b)) number saved in
    subst
      (λ x.
        IsLoopState x (done ++ described_of x c ∷ []) (batched_case i g files row (p, b) before).0)
      o (batched_case-IsLoop done i g files row p b before (s, n, k, refl) h)
one_case-IsLoop inside done i g files CaseType.batch_start c items batch number saved l h =
    start_batch-IsLoop inside done i (record c { case_type = CaseType.batch_start }) items batch
      number saved l h
one_case-IsLoop inside done i g files CaseType.batch_end c items batch number saved l h =
    close_batch-IsLoop inside done i (record c { case_type = CaseType.batch_end }) items batch
      number saved l h

after-described :
    (inside : Option Bool) (done : List (Bool × CaseData)) (t : CaseType) (c : Case)
    (rest : List Case)
    → done_after t c inside done ++ described (inside_after t c inside) rest
      ≡ done ++ described inside (record c { case_type = t } ∷ rest)
unfolding described
after-described none done CaseType.normal c rest =
    append_assoc done (described_of none c ∷ []) (described none rest)
after-described (some p) done CaseType.normal c rest =
    append_assoc done (described_of (some p) c ∷ []) (described (some p) rest)
after-described inside done CaseType.batch_start c rest = refl
after-described inside done CaseType.batch_end c rest = refl

-- the loop over the rest of the rows, from inside a batch or outside
all_cases-IsLoop :
    (inside : Option Bool) (done : List (Bool × CaseData)) (i : ℕ) (g : Bool) (files : List ℕ)
    (cases : List Case) (st : State)
    → IsLoopState inside done st
    → (all_cases i g files cases st).1 ≡ none
    → (last : Option Bool) × IsLoopState last
        (done ++ described inside cases)
        (all_cases i g files cases st).0
unfolding all_cases described
all_cases-IsLoop inside done i g files [] st l h =
    (inside, subst (λ d. IsLoopState inside d st) (sym (append-nil done)) l)
all_cases-IsLoop inside done i g files (c ∷ rest) st l h =
    let r : Step = one_case i g files c st in
    let next : State → Step = all_cases (suc i) g files rest in
    let went : (r.1 ≡ none) × (go_on r next ≡ next (r.0)) = go_on-none r next h in
    let now : Option Bool = inside_after c.case_type c inside in
    let so_far : List (Bool × CaseData) = done_after c.case_type c inside done in
    let one =
      one_case-IsLoop inside done i g files c.case_type c st.cases st.batch st.batch_count st.saved
        l (went.0) in
    let (last, others) =
      all_cases-IsLoop now so_far (suc i) g files rest (r.0) one
        (sym (ap (λ s. s.1) (went.1)) ∙ h) in
    (
      last,
      subst (λ d. IsLoopState last d ((go_on r next).0))
          (after-described inside done c.case_type c rest)
          (subst (λ s. IsLoopState last (so_far ++ described now rest) (s.0)) (sym (went.1))
            others),
    )

-- the batch still open at the end
close_last : State → Step
close_last st = elim st.batch [ none ↦ (st, none) | some b ↦ end_batch b st ]

close_last-IsLoop :
    (inside : Option Bool) (done : List (Bool × CaseData)) (items : List Item)
    (batch : Option (Bool × BatchData)) (number : ℕ) (saved : List Case)
    → IsLoop inside done items batch number
    → (close_last (state_of items batch number saved)).1 ≡ none
    → (let ended = (close_last (state_of items batch number saved)).0 in
        AreSound 0 ended.cases × (listed ended.cases ≡ done))
unfolding close_last
close_last-IsLoop inside done items none number saved (sound, _, kept, _) h =
    (sound, sym (append-nil (listed items)) ∙ kept)
close_last-IsLoop inside done items (some (p, b)) number saved l h =
    let ended = ended-IsLoop inside done number number items p b saved l h in (ended.0, ended.2)

-- When `make_init` raises nothing for the rows of a problem, none of its batches is empty, each batch
-- depends only on batches before it, numbered from 1, and the cases of its items are exactly those that
-- the rows of type 'C' describe, one for each row and in their order: the row's files, checker, arguments
-- and limits, with its own points outside a batch and none inside, and as a pretest if the row is one, or,
-- inside a batch, if the row that starts the batch is one.
pub make_cases-AreSound :
    (g : Bool) (files : List ℕ) (cases : List Case)
    → (make_cases g files cases).1 ≡ none
    → (let items = ((make_cases g files cases).0).cases in
        AreSound 0 items × (listed items ≡ described none cases))
unfolding make_cases close_last
make_cases-AreSound g files cases h =
    let r : Step = all_cases 1 g files cases start in
    let went : (r.1 ≡ none) × (go_on r close_last ≡ close_last (r.0)) = go_on-none r close_last h in
    let (last, looped) =
      all_cases-IsLoop none [] 1 g files cases start (tt, refl, refl, refl) (went.0) in
    let st : State = r.0 in
    let closed =
      close_last-IsLoop last (described none cases) st.cases st.batch st.batch_count st.saved looped
        (sym (ap (λ s. s.1) (went.1)) ∙ h) in
    subst (λ s. AreSound 0 (s.0).cases × (listed (s.0).cases ≡ described none cases)) (sym (went.1))
      closed
