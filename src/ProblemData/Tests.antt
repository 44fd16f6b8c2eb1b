-- ===== src/ProblemData/Tests.antt =====
-- judge/utils/problem_data.py: runs of the compilation on small problems.
use cpcjudge_site.Base.{
  ℕ, ◌+◌, ◌≡◌, refl, not, ◌||◌, true, false, Option, none, some, List, [], ◌∷◌, count, any,
}
use cpcjudge_site.Base.Int.{ℤ, pos}
use cpcjudge_site.ProblemData.Cases.{Case, CaseType, later_batch, empty_batch, make_cases}
use cpcjudge_site.ProblemData.Batches.{AreSound, listed, described, is_normal}
use cpcjudge_site.ProblemData.Loop.{make_cases-AreSound}
use cpcjudge_site.ProblemData.Init.{Data, Extension, Init, made, make_init, compile, Storage}
use cpcjudge_site.ProblemData.Stored.{cases_of, of_kind, wants_testlib, compile-Serves}
use cpcjudge_site.ProblemData.Counts.{entries_size, make_init-size}

abbrev row : CaseType → Option ℕ → Option ℕ → Option ℕ → List ℤ → Case
row t points input output dependencies = record {
  case_type = t;
  is_pretest = false;
  points = points;
  input_file = input;
  output_file = output;
  generator_args = none;
  output_limit = none;
  output_prefix = none;
  checker = none;
  checker_args = none;
  batch_dependencies = some dependencies;
}

-- a case of its own, a batch of two cases, and a batch that depends on it and is left open
abbrev two_batches : List Case
two_batches =
    row CaseType.normal (some 10) (some 1) (some 2) []
    ∷ row CaseType.batch_start (some 30) none none []
    ∷ row CaseType.normal none (some 3) (some 4) []
    ∷ row CaseType.normal none (some 5) (some 6) []
    ∷ row CaseType.batch_end none none none []
    ∷ row CaseType.batch_start (some 60) none none (pos 1 ∷ [])
    ∷ row CaseType.normal none (some 1) (some 6) []
    ∷ []

abbrev archive_files : List ℕ
archive_files = 1 ∷ 2 ∷ 3 ∷ 4 ∷ 5 ∷ 6 ∷ []

-- an interactor with testlib
abbrev interactive_data : Data
interactive_data = record {
  zipfile = some (some 9);
  generator = none;
  interactor =
      some (record { name = some 11; extension = Extension.cpp; includes_testlib = some true });
  interactor_feedback = true;
  output_limit = none;
  output_prefix = none;
  unicode = true;
  nobigmath = false;
  checker = none;
  checker_args = some 4;
  feedback = some empty_batch;
}

abbrev nothing_stored : Storage
nothing_stored = record { init_yml = none; testlib = false }

abbrev compiled : Option Init
compiled = (compile interactive_data archive_files two_batches nothing_stored).1.init_yml

abbrev served : Init
served = elim (make_init interactive_data archive_files two_batches) [
  | made i ↦ i
  | _ ↦ record {
    archive = none;
    generator = none;
    pretest_test_cases = [];
    test_cases = [];
    output_limit_length = none;
    output_prefix_length = none;
    checker = none;
    interactive = none;
    hints = [];
  }
]

stored_size : entries_size served.test_cases ≡ 4
unfolding make_init any
stored_size = refl

-- A batch that depends on itself is refused.
own_batch :
    (make_cases false archive_files
      (row CaseType.batch_start (some 60) none none (pos 1 ∷ []) ∷ [])).1
    ≡ some (later_batch 1)
unfolding make_cases any
own_batch = refl

make_cases-AreSound_example :
    (let items = ((make_cases false archive_files two_batches).0).cases in
      AreSound 0 items × (listed items ≡ described none two_batches))
unfolding make_cases any
make_cases-AreSound_example = make_cases-AreSound false archive_files two_batches refl

make_init-size_example :
    entries_size served.pretest_test_cases + entries_size served.test_cases
    ≡ count is_normal two_batches
unfolding make_init any
make_init-size_example = make_init-size interactive_data archive_files two_batches served refl

compile-Serves_example :
    (cases_of served.pretest_test_cases ≡ of_kind true (described none two_batches))
    × (cases_of served.test_cases ≡ of_kind false (described none two_batches))
    × ((not (wants_testlib interactive_data.interactor)
          || (compile interactive_data archive_files two_batches nothing_stored).1.testlib)
        ≡ true)
unfolding compile any
compile-Serves_example =
    compile-Serves interactive_data archive_files two_batches nothing_stored served refl
