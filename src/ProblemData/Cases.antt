-- ===== src/ProblemData/Cases.antt =====
-- judge/utils/problem_data.py: `make_init`, the loop over the cases.
use cpcjudge_site.Base.{
  ℕ, suc, Bool, true, false, not, ◌&&◌, Option, none, some, List, [], ◌∷◌, ◌++◌, if◌then◌else◌,
  contains,
}
use cpcjudge_site.Base.Int.{ℤ, pos, ltb_ℤ}

pub data CaseType : Type 0 where
  normal batch_start batch_end : CaseType

-- A row of ProblemTestCase. `generator_args` holds the lines of the text, `batch_dependencies` the
-- integers of the comma-separated list: `none` when `int` refuses one, and none of them when the text
-- is blank.
pub record Case : Type 0 where
  pub case_type : CaseType
  pub is_pretest : Bool
  pub points : Option ℕ
  pub input_file : Option ℕ
  pub output_file : Option ℕ
  pub generator_args : Option (List ℕ)
  pub output_limit : Option ℕ
  pub output_prefix : Option ℕ
  pub checker : Option ℕ
  pub checker_args : Option ℕ
  pub batch_dependencies : Option (List ℤ)

-- a checker's name, and its arguments if it has any
abbrev pub Checker : Type 0
Checker = ℕ × Option ℕ

-- the dictionary of a case
pub record CaseData : Type 0 where
  pub input : Option ℕ
  pub output : Option ℕ
  pub points : Option ℕ
  pub generator_args : Option (List ℕ)
  pub output_limit_length : Option ℕ
  pub output_prefix_length : Option ℕ
  pub checker : Option Checker

-- the dictionary of a batch, whose `is_pretest` is kept beside it
pub record BatchData : Type 0 where
  pub points : ℕ
  pub batched : List CaseData
  pub dependencies : List ℤ
  pub generator_args : Option (List ℕ)
  pub output_limit_length : Option ℕ
  pub output_prefix_length : Option ℕ
  pub checker : Option Checker

pub data Item : Type 0 where
  single : Bool → CaseData → Item
  group : Bool → BatchData → Item

pub data ProblemDataError : Type 0 where
  empty_batch corrupt_zip corrupt_generator bad_interactor : ProblemDataError
  no_points missing_input missing_output batch_points bad_dependencies later_batch not_positive
        outside_batch :
      ℕ → ProblemDataError

-- The variables of the loop, and the rows saved so far, last first.
pub record State : Type 0 where
  pub cases : List Item
  pub batch : Option (Bool × BatchData)
  pub batch_count : ℕ
  pub saved : List Case

-- `make_checker`, where there is a checker. Its arguments are kept as they are, for a text that is JSON.
abbrev pub make_checker : Option ℕ → Option ℕ → Option Checker
make_checker none args = none
make_checker (some name) args = some (name, args)

-- A row without a checker keeps no arguments for it.
abbrev pub kept_args : Option ℕ → Option ℕ → Option ℕ
kept_args none args = none
kept_args (some name) args = args

abbrev pub is_empty : {A : Type 0} → List A → Bool
is_empty [] = true
is_empty (x ∷ rest) = false

-- Whether the archive has the file. No file has an empty name.
abbrev pub has_file : List ℕ → Option ℕ → Bool
has_file files none = false
has_file files (some name) = contains name files

abbrev pub data_of : Case → Option ℕ → CaseData
data_of c points = record {
  input = c.input_file;
  output = c.output_file;
  points = points;
  generator_args = c.generator_args;
  output_limit_length = c.output_limit;
  output_prefix_length = c.output_prefix;
  checker = make_checker c.checker c.checker_args;
}

-- The first dependency that is not an earlier batch, as an error.
unfoldable pub check_dependencies : ℕ → ℕ → List ℤ → Option ProblemDataError
check_dependencies i batch_count [] = none
check_dependencies i batch_count (d ∷ rest) =
    let others = check_dependencies i batch_count rest in
    if not (ltb_ℤ d (pos batch_count))
    then some (later_batch i)
    else if ltb_ℤ d (pos 1)
    then some (not_positive i)
    else others

abbrev pub Step : Type 0
Step = State × Option ProblemDataError

-- `end_batch`
unfoldable pub end_batch : Bool × BatchData → State → Step
end_batch (pretest, batch) st =
    if is_empty batch.batched
    then (st, some empty_batch)
    else (record st { cases = st.cases ++ group pretest batch ∷ [] }, none)

-- a case of type 'C', outside a batch
unfoldable pub single_case : ℕ → Bool → List ℕ → Case → State → Step
single_case i generator files c st = elim c.points [
  | none ↦ (st, some (no_points i))
  | some points ↦
      if not generator && not (has_file files c.input_file)
      then (st, some (missing_input i))
      else if not generator && not (has_file files c.output_file)
      then (st, some (missing_output i))
      else (
        record st {
          cases = st.cases ++ single c.is_pretest (data_of c c.points) ∷ [];
          saved = record c { checker_args = kept_args c.checker c.checker_args } ∷ st.saved;
        },
        none,
      )
]

-- a case of type 'C' in a batch
unfoldable pub batched_case : ℕ → Bool → List ℕ → Case → Bool × BatchData → State → Step
batched_case i generator files c (pretest, batch) st =
    if not generator && not (has_file files c.input_file)
    then (st, some (missing_input i))
    else if not generator && not (has_file files c.output_file)
    then (st, some (missing_output i))
    else (
      record st {
        batch = some (pretest, record batch { batched = batch.batched ++ data_of c none ∷ [] });
        saved =
            record c {
              checker_args = kept_args c.checker c.checker_args;
              is_pretest = pretest;
              points = none;
            }
            ∷ st.saved;
      },
      none,
    )

abbrev pub new_batch : Case → ℕ → List ℤ → BatchData
new_batch c points dependencies = record {
  points = points;
  batched = [];
  dependencies = dependencies;
  generator_args = c.generator_args;
  output_limit_length = c.output_limit;
  output_prefix_length = c.output_prefix;
  checker = make_checker c.checker c.checker_args;
}

-- a case of type 'S', once the batch before it has ended
unfoldable pub open_batch : ℕ → Case → State → Step
unfolding check_dependencies
open_batch i c st = elim c.points [
  | none ↦ (st, some (batch_points i))
  | some points ↦ elim c.batch_dependencies [
    | none ↦ (st, some (bad_dependencies i))
    | some dependencies ↦ elim (check_dependencies i st.batch_count dependencies) [
      | some e ↦ (st, some e)
      | none ↦ (
        record st {
          batch = some (c.is_pretest, new_batch c points dependencies);
          saved =
              record c {
                checker_args = kept_args c.checker c.checker_args;
                input_file = none;
                output_file = none;
              }
              ∷ st.saved;
        },
        none,
      )
    ]
  ]
]

abbrev pub go_on : Step → (State → Step) → Step
go_on (st, none) f = f st
go_on (st, some e) f = (st, some e)

unfoldable pub start_batch : ℕ → Case → State → Step
unfolding end_batch open_batch
start_batch i c st =
    let counted = record st { batch_count = suc st.batch_count } in
    go_on (elim counted.batch [ none ↦ (counted, none) | some b ↦ end_batch b counted ])
      (open_batch i c)

-- a case of type 'E'
unfoldable pub close_batch : ℕ → Case → State → Step
unfolding end_batch
close_batch i c st = elim st.batch [
  | none ↦ (st, some (outside_batch i))
  | some b ↦
      go_on
        (end_batch b (record st {
          saved =
              record c {
                is_pretest = b.0;
                input_file = none;
                output_file = none;
                generator_args = none;
                checker = none;
                checker_args = none;
              }
              ∷ st.saved;
        }))
        (λ ended. (record ended { batch = none }, none))
]

unfoldable pub one_case : ℕ → Bool → List ℕ → Case → State → Step
unfolding single_case batched_case start_batch close_batch
one_case i generator files c st = elim c.case_type [
  | CaseType.normal ↦ elim st.batch [
    | none ↦ single_case i generator files c st
    | some b ↦ batched_case i generator files c b st
  ]
  | CaseType.batch_start ↦ start_batch i c st
  | CaseType.batch_end ↦ close_batch i c st
]

-- the loop, from case number `i`
unfoldable pub all_cases : ℕ → Bool → List ℕ → List Case → State → Step
unfolding one_case
all_cases i generator files [] st = (st, none)
all_cases i generator files (c ∷ rest) st =
    go_on (one_case i generator files c st) (all_cases (suc i) generator files rest)

abbrev pub start : State
start = record { cases = []; batch = none; batch_count = 0; saved = [] }

-- the loop, and the batch still open after it
unfoldable pub make_cases : Bool → List ℕ → List Case → Step
unfolding all_cases end_batch
make_cases generator files cases =
    go_on (all_cases 1 generator files cases start)
      (λ st. elim st.batch [ none ↦ (st, none) | some b ↦ end_batch b st ])
