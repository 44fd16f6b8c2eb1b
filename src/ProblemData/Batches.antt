-- ===== src/ProblemData/Batches.antt =====
-- judge/utils/problem_data.py: what the loop of `make_init` leaves when it raises nothing.
use mathlib.Core.List.{append-nil, append_assoc, map-append}
use cpcjudge_site.Base.{
  ℕ, suc, ◌+◌, ◌≡◌, refl, sym, subst, ◌∙◌, inl, inr, Bool, true, false, not, ◌&&◌, Option, none,
  some, List, [], ◌∷◌, ◌++◌, map, All, Bool-cases, Option-cases, ap, arith,
}
use cpcjudge_site.Base.Int.{ℤ, pos, ltb_ℤ}
use cpcjudge_site.ProblemData.Cases.{
  Case, CaseType, CaseData, BatchData, Item, single, group, State, Step, is_empty, kept_args,
  make_checker, has_file, data_of, check_dependencies, end_batch, single_case, batched_case, go_on,
}

-- Dependencies of batch number `n`: positive, and earlier than it.
abbrev pub AreEarlier : ℕ → List ℤ → Type 0
AreEarlier n dependencies =
    All (λ d. (ltb_ℤ d (pos n) ≡ true) × (ltb_ℤ d (pos 1) ≡ false)) dependencies

-- After `k` batches, the batches among the items are numbered from `k + 1`: none is empty, and each
-- depends on earlier ones only.
abbrev pub AreSound : ℕ → List Item → Type 0
AreSound k [] = Unit
AreSound k (single pretest data_ ∷ rest) = AreSound k rest
AreSound k (group pretest batch ∷ rest) =
    (is_empty batch.batched ≡ false) × AreEarlier (suc k) batch.dependencies × AreSound (suc k) rest

abbrev pub groups : List Item → ℕ
groups [] = 0
groups (single pretest data_ ∷ rest) = groups rest
groups (group pretest batch ∷ rest) = suc (groups rest)

-- the cases that the items hold, in order, with whether each is a pretest
abbrev pub listed : List Item → List (Bool × CaseData)
listed [] = []
listed (single pretest data_ ∷ rest) = (pretest, data_) ∷ listed rest
listed (group pretest batch ∷ rest) = map (λ d. (pretest, d)) batch.batched ++ listed rest

-- The dictionary of a row of type 'C', outside a batch or in one whose first row is a pretest or not: in a
-- batch, the batch has the points and says whether it is a pretest.
abbrev pub row_data : Case → Option ℕ → CaseData
row_data c points = record {
  input = c.input_file;
  output = c.output_file;
  points = points;
  generator_args = c.generator_args;
  output_limit_length = c.output_limit;
  output_prefix_length = c.output_prefix;
  checker = make_checker c.checker c.checker_args;
}

abbrev pub described_of : Option Bool → Case → Bool × CaseData
described_of none c = (c.is_pretest, row_data c c.points)
described_of (some pretest) c = (pretest, row_data c none)

-- the cases that the rows of a problem describe, from a place inside a batch or outside
unfoldable pub described : Option Bool → List Case → List (Bool × CaseData)
described inside [] = []
described inside (c ∷ rest) = elim c.case_type [
  | CaseType.normal ↦ described_of inside c ∷ described inside rest
  | CaseType.batch_start ↦ described (some c.is_pretest) rest
  | CaseType.batch_end ↦ described none rest
]

abbrev pub is_normal : Case → Bool
is_normal c = elim c.case_type [
  | CaseType.normal ↦ true
  | CaseType.batch_start ↦ false
  | CaseType.batch_end ↦ false
]

abbrev open_cases : Option (Bool × BatchData) → List (Bool × CaseData)
open_cases none = []
open_cases (some (pretest, batch)) = map (λ d. (pretest, d)) batch.batched

abbrev pub open_pretest : Option (Bool × BatchData) → Option Bool
open_pretest none = none
open_pretest (some (pretest, batch)) = some pretest

abbrev IsOpen : ℕ → ℕ → Option (Bool × BatchData) → Type 0
IsOpen before number none = number ≡ before
IsOpen before number (some (pretest, batch)) =
    (number ≡ suc before) × AreEarlier number batch.dependencies

-- the loop after the cases `done`, inside a batch or outside: the items, the open batch, and the number of
-- batches
abbrev pub IsLoop :
    Option Bool → List (Bool × CaseData) → List Item → Option (Bool × BatchData) → ℕ → Type 0
IsLoop inside done items batch number =
    AreSound 0 items
    × IsOpen (groups items) number batch
    × (listed items ++ open_cases batch ≡ done)
    × (open_pretest batch ≡ inside)

abbrev pub IsLoopState : Option Bool → List (Bool × CaseData) → State → Type 0
IsLoopState inside done st = IsLoop inside done st.cases st.batch st.batch_count

AreSound-single :
    (k : ℕ) (items : List Item) (p : Bool) (d : CaseData)
    → AreSound k items
    → AreSound k (items ++ single p d ∷ [])
AreSound-single k [] p d h = tt
AreSound-single k (single q e ∷ rest) p d h = AreSound-single k rest p d h
AreSound-single k (group q b ∷ rest) p d h = (h.0, h.1, AreSound-single (suc k) rest p d h.2)

AreSound-group :
    (k n : ℕ) (items : List Item) (p : Bool) (b : BatchData)
    → n ≡ suc (k + groups items)
    → is_empty b.batched ≡ false
    → AreEarlier n b.dependencies
    → AreSound k items
    → AreSound k (items ++ group p b ∷ [])
AreSound-group k n [] p b e full deps h =
    (full, subst (λ m. AreEarlier m b.dependencies) (omega (arith, e)) deps, tt)
AreSound-group k n (single q d ∷ rest) p b e full deps h = AreSound-group k n rest p b e full deps h
AreSound-group k n (group q c ∷ rest) p b e full deps h =
    (h.0, h.1, AreSound-group (suc k) n rest p b (omega (arith, e)) full deps h.2)

groups-single :
    (items : List Item) (p : Bool) (d : CaseData) → groups (items ++ single p d ∷ []) ≡ groups items
groups-single [] p d = refl
groups-single (single q e ∷ rest) p d = groups-single rest p d
groups-single (group q b ∷ rest) p d = omega (arith, groups-single rest p d)

groups-group :
    (items : List Item) (p : Bool) (b : BatchData)
    → groups (items ++ group p b ∷ []) ≡ suc (groups items)
groups-group [] p b = refl
groups-group (single q e ∷ rest) p b = groups-group rest p b
groups-group (group q c ∷ rest) p b = omega (arith, groups-group rest p b)

listed-append : (items more : List Item) → listed (items ++ more) ≡ listed items ++ listed more
listed-append [] more = refl
listed-append (single q e ∷ rest) more = ap (λ l. (q, e) ∷ l) (listed-append rest more)
listed-append (group q b ∷ rest) more =
    ap (λ l. map (λ d. (q, d)) b.batched ++ l) (listed-append rest more)
    ∙ sym (append_assoc (map (λ d. (q, d)) b.batched) (listed rest) (listed more))

listed-group :
    (items : List Item) (p : Bool) (b : BatchData)
    → listed (items ++ group p b ∷ []) ≡ listed items ++ map (λ d. (p, d)) b.batched
listed-group items p b =
    listed-append items (group p b ∷ [])
    ∙ ap (λ l. listed items ++ l) (append-nil (map (λ d. (p, d)) b.batched))

-- the checks on the dependencies
pub check_dependencies-AreEarlier :
    (i n : ℕ) (dependencies : List ℤ)
    → check_dependencies i n dependencies ≡ none
    → AreEarlier n dependencies
unfolding check_dependencies
check_dependencies-AreEarlier i n [] h = tt
check_dependencies-AreEarlier i n (d ∷ rest) h = elim (Bool-cases (ltb_ℤ d (pos n))) [
  | inr e ↦ absurd (ground arith)
  | inl e ↦ elim (Bool-cases (ltb_ℤ d (pos 1))) [
    | inl f ↦ absurd (ground arith)
    | inr f ↦ (
      (e, f),
      check_dependencies-AreEarlier i n rest (sym (rw (check_dependencies, e, f) refl) ∙ h),
    )
  ]
]

-- Two parts of a step that raises nothing raise nothing.
pub go_on-none :
    (r : Step) (f : State → Step) → (go_on r f).1 ≡ none → (r.1 ≡ none) × (go_on r f ≡ f (r.0))
go_on-none (st, none) f h = (refl, refl)
go_on-none (st, some e) f h = absurd (ground arith)

-- ending the open batch
pub end_batch-IsLoop :
    (done : List (Bool × CaseData)) (p : Bool) (b : BatchData) (st : State)
    → AreSound 0 st.cases
    → AreEarlier (suc (groups st.cases)) b.dependencies
    → listed st.cases ++ map (λ d. (p, d)) b.batched ≡ done
    → (end_batch (p, b) st).1 ≡ none
    → (let after = (end_batch (p, b) st).0 in
        AreSound 0 after.cases
        × (groups after.cases ≡ suc (groups st.cases))
        × (listed after.cases ≡ done)
        × (after.batch_count ≡ st.batch_count))
unfolding end_batch
end_batch-IsLoop done p b st items deps sized h = elim (Bool-cases (is_empty b.batched)) [
  | inl e ↦ absurd (ground arith)
  | inr e ↦
      rw (end_batch, e)
        (
          AreSound-group 0 (suc (groups st.cases)) st.cases p b (omega arith) e deps items,
          groups-group st.cases p b,
          listed-group st.cases p b ∙ sized,
          refl,
        )
]

-- a case added to the items, or to the open batch
add_single-IsLoop :
    (done : List (Bool × CaseData)) (items : List Item) (number : ℕ) (p : Bool) (d : CaseData)
    → IsLoop none done items none number
    → IsLoop none (done ++ (p, d) ∷ []) (items ++ single p d ∷ []) none number
add_single-IsLoop done items number p d (sound, opened, kept, _) = (
  AreSound-single 0 items p d sound,
  opened ∙ sym (groups-single items p d),
  append-nil (listed (items ++ single p d ∷ []))
      ∙ listed-append items (single p d ∷ [])
      ∙ ap (λ l. l ++ (p, d) ∷ []) (sym (append-nil (listed items)) ∙ kept),
  refl,
)

add_batched-IsLoop :
    (inside : Option Bool) (done : List (Bool × CaseData)) (items : List Item) (number : ℕ)
    (p : Bool) (b : BatchData) (d : CaseData)
    → IsLoop inside done items (some (p, b)) number
    → IsLoop inside
        (done ++ (p, d) ∷ [])
        items
        (some (p, record b { batched = b.batched ++ d ∷ [] }))
        number
add_batched-IsLoop inside done items number p b d (sound, opened, kept, place) = (
  sound,
  opened,
  ap (λ l. listed items ++ l) (map-append (λ e. (p, e)) b.batched (d ∷ []))
      ∙ sym (append_assoc (listed items) (map (λ e. (p, e)) b.batched) ((p, d) ∷ []))
      ∙ ap (λ l. l ++ (p, d) ∷ []) kept,
  place,
)

pub single_case-IsLoop :
    (done : List (Bool × CaseData)) (i : ℕ) (g : Bool) (files : List ℕ) (c : Case) (st : State)
    → st.batch ≡ none
    → IsLoop none done st.cases none st.batch_count
    → (single_case i g files c st).1 ≡ none
    → IsLoopState none (done ++ described_of none c ∷ []) (single_case i g files c st).0
unfolding single_case
single_case-IsLoop done i g files c st closed l h = elim (Option-cases c.points) [
  | inl e ↦ absurd (ground arith)
  | inr (points, e) ↦ elim (Bool-cases (not g && not (has_file files c.input_file))) [
    | inl f ↦ absurd (ground arith)
    | inr f ↦ elim (Bool-cases (not g && not (has_file files c.output_file))) [
      | inl k ↦ absurd (ground arith)
      | inr k ↦
          let items = st.cases ++ single c.is_pretest (data_of c c.points) ∷ [] in
          let loop : IsLoop none (done ++ described_of none c ∷ []) items st.batch st.batch_count =
            subst (λ b. IsLoop none (done ++ described_of none c ∷ []) items b st.batch_count)
              (sym closed)
              (add_single-IsLoop done st.cases st.batch_count c.is_pretest (data_of c c.points)
                l) in
          let stepped : single_case i g files c st ≡ (
            record st {
              cases = items;
              saved = record c { checker_args = kept_args c.checker c.checker_args } ∷ st.saved;
            },
            none,
          ) =
            ground arith in
          subst (λ r. IsLoopState none (done ++ described_of none c ∷ []) (r.0)) (sym stepped) loop
    ]
  ]
]

pub batched_case-IsLoop :
    (done : List (Bool × CaseData)) (i : ℕ) (g : Bool) (files : List ℕ) (c : Case) (p : Bool)
    (b : BatchData) (st : State)
    → IsLoop (some p) done st.cases (some (p, b)) st.batch_count
    → (batched_case i g files c (p, b) st).1 ≡ none
    → IsLoopState
        (some p)
        (done ++ described_of (some p) c ∷ [])
        (batched_case i g files c (p, b) st).0
unfolding batched_case
batched_case-IsLoop done i g files c p b st l h =
    elim (Bool-cases (not g && not (has_file files c.input_file))) [
      | inl f ↦ absurd (ground arith)
      | inr f ↦ elim (Bool-cases (not g && not (has_file files c.output_file))) [
        | inl k ↦ absurd (ground arith)
        | inr k ↦
            rw (batched_case, f, k)
              (add_batched-IsLoop (some p) done st.cases st.batch_count p b (data_of c none) l)
      ]
    ]
