-- ===== src/ProblemData/Init.antt =====
-- judge/utils/problem_data.py: the rest of `make_init`, `make_interactive` and `compile`.
use cpcjudge_site.Base.{
  ℕ, Bool, true, false, not, ◌&&◌, ◌||◌, Option, none, some, List, [], ◌∷◌, ◌++◌, if◌then◌else◌,
  is_some, ◌==◌,
}
use cpcjudge_site.ProblemData.Cases.{
  Case, CaseData, BatchData, Item, single, group, Checker, ProblemDataError, corrupt_zip,
  corrupt_generator, bad_interactor, make_cases, make_checker, kept_args, is_empty,
}

pub data Hint : Type 0 where
  unicode nobigmath : Hint

pub data Extension : Type 0 where
  cpp cc c py unknown : Extension

-- `TESTLIB_HEADER`
abbrev pub testlib_header : ℕ
testlib_header = 0

-- The uploaded interactor: the second part of its path, if the path has two, its extension, and its
-- source, if the file is there, as whether it includes testlib.
pub record Interactor : Type 0 where
  pub name : Option ℕ
  pub extension : Extension
  pub includes_testlib : Option Bool

-- the second part of the generator's path, if it has two, and its base name
pub record Generator : Type 0 where
  pub name : Option ℕ
  pub basename : ℕ

-- The row of ProblemData. `zipfile` is the second part of the archive's path, if it has two.
pub record Data : Type 0 where
  pub zipfile : Option (Option ℕ)
  pub generator : Option Generator
  pub interactor : Option Interactor
  pub interactor_feedback : Bool
  pub output_limit : Option ℕ
  pub output_prefix : Option ℕ
  pub unicode : Bool
  pub nobigmath : Bool
  pub checker : Option ℕ
  pub checker_args : Option ℕ
  pub feedback : Option ProblemDataError

pub record Interactive : Type 0 where
  pub files : List ℕ
  pub feedback : Bool
  pub pinned_python : Bool
  pub testlib : Bool

pub data Entry : Type 0 where
  case_entry : CaseData → Entry
  batch_entry : BatchData → Entry

pub record Init : Type 0 where
  pub archive : Option ℕ
  pub generator : Option ℕ
  pub pretest_test_cases : List Entry
  pub test_cases : List Entry
  pub output_limit_length : Option ℕ
  pub output_prefix_length : Option ℕ
  pub checker : Option Checker
  pub interactive : Option Interactive
  pub hints : List Hint

-- a value, or the error raised in its place
pub data Made {ℓ} (A : Type ℓ) : Type ℓ where
  made : A → Made A
  refused : ProblemDataError → Made A

unfoldable pub then_make {ℓ κ} : {A : Type ℓ} {B : Type κ} → Made A → (A → Made B) → Made B
then_make (made a) f = f a
then_make (refused e) f = refused e

abbrev pub is_known : Extension → Bool
is_known Extension.unknown = false
is_known _ = true

abbrev pub is_python : Extension → Bool
is_python Extension.py = true
is_python _ = false

-- `interactor_uses_testlib`
abbrev pub interactor_uses_testlib : Extension → Bool → Bool
interactor_uses_testlib Extension.cpp includes = includes
interactor_uses_testlib Extension.cc includes = includes
interactor_uses_testlib _ includes = false

-- whether the generator has the name of the interactor or of the header
abbrev pub name_clash : Option Generator → ℕ → Bool
name_clash none name = false
name_clash (some g) name = g.basename == name || g.basename == testlib_header

-- `make_interactive`, with whether the header is to be stored beside init.yml
unfoldable pub make_interactive : Data → Interactor → Made Interactive
make_interactive d i = elim i.name [
  | none ↦ refused bad_interactor
  | some name ↦
      if not (is_known i.extension)
      then refused bad_interactor
      else if name_clash d.generator name
      then refused bad_interactor
      else elim i.includes_testlib [
        | none ↦ refused bad_interactor
        | some includes ↦
            let testlib = interactor_uses_testlib i.extension includes in
            made (record {
              files = name ∷ (if testlib then testlib_header ∷ [] else []);
              feedback = d.interactor_feedback;
              pinned_python = is_python i.extension;
              testlib = testlib;
            })
      ]
]

abbrev pub entry_of : Item → Entry
entry_of (single pretest data_) = case_entry data_
entry_of (group pretest batch) = batch_entry batch

abbrev pub is_pretest : Item → Bool
is_pretest (single pretest data_) = pretest
is_pretest (group pretest batch) = pretest

-- the entries of the items that are pretests, or of those that are not
unfoldable pub entries : Bool → List Item → List Entry
entries pretests [] = []
entries pretests (item ∷ rest) =
    let others = entries pretests rest in
    if is_pretest item
    then (if pretests then entry_of item ∷ others else others)
    else (if pretests then others else entry_of item ∷ others)

abbrev pub hints_of : Data → List Hint
hints_of d =
    (if d.unicode then Hint.unicode ∷ [] else [])
    ++ (if d.nobigmath then Hint.nobigmath ∷ [] else [])

-- a path that must have a second part
abbrev pub part_of : Option (Option ℕ) → ProblemDataError → Made (Option ℕ)
part_of none e = made none
part_of (some none) e = refused e
part_of (some (some name)) e = made (some name)

abbrev pub generator_path : Option Generator → Option (Option ℕ)
generator_path none = none
generator_path (some g) = some g.name

-- the interactor's entry, if the problem has an interactor
unfoldable pub interactive_of : Data → Made (Option Interactive)
unfolding make_interactive then_make
interactive_of d = elim d.interactor [
  | none ↦ made none
  | some i ↦ then_make (make_interactive d i) (λ x. made (some x))
]

-- `make_init` after the loop
unfoldable pub init_of : Data → List Item → Made Init
unfolding interactive_of entries then_make
init_of d items = then_make (part_of d.zipfile corrupt_zip) (λ archive.
    then_make (part_of (generator_path d.generator) corrupt_generator) (λ generator.
      then_make (interactive_of d) (λ interactive. made (record {
        archive = archive;
        generator = generator;
        pretest_test_cases = entries true items;
        test_cases = entries false items;
        output_limit_length = d.output_limit;
        output_prefix_length = d.output_prefix;
        checker = make_checker d.checker d.checker_args;
        interactive = interactive;
        hints = hints_of d;
      }))))

-- `make_init`
unfoldable pub make_init : Data → List ℕ → List Case → Made Init
unfolding make_cases init_of
make_init d files cases =
    let run = make_cases (is_some d.generator) files cases in
    elim run.1 [ some e ↦ refused e | none ↦ init_of d (run.0).cases ]

-- Whether the dictionary has no key.
abbrev pub is_blank : Init → Bool
is_blank i =
    not (is_some i.archive)
    && not (is_some i.generator)
    && is_empty i.pretest_test_cases
    && is_empty i.test_cases
    && not (is_some i.output_limit_length)
    && not (is_some i.output_prefix_length)
    && not (is_some i.checker)
    && not (is_some i.interactive)
    && is_empty i.hints

-- The problem's directory: its init.yml, and whether the header is there as this site has it.
pub record Storage : Type 0 where
  pub init_yml : Option Init
  pub testlib : Bool

abbrev pub needs_testlib : Init → Bool
needs_testlib i = elim i.interactive [ none ↦ false | some x ↦ x.testlib ]

-- What `make_init` leaves of the checker's arguments when it raises: the interactor is read after they
-- were dropped, everything else before.
abbrev pub failed_args : ProblemDataError → Option ℕ → Option ℕ → Option ℕ
failed_args bad_interactor name args = kept_args name args
failed_args e name args = args

-- `compile`: the feedback, and what is stored
unfoldable pub compile : Data → List ℕ → List Case → Storage → Data × Storage
unfolding make_init
compile d files cases stored = elim (make_init d files cases) [
  | refused e ↦ (
    record d { feedback = some e; checker_args = failed_args e d.checker d.checker_args },
    record stored { init_yml = none },
  )
  | made i ↦ (
    record d { feedback = none; checker_args = kept_args d.checker d.checker_args },
    record stored {
      init_yml = if is_blank i then none else some i;
      testlib = needs_testlib i || stored.testlib;
    },
  )
]
