-- ===== src/ProblemData/Stored.antt =====
-- judge/utils/problem_data.py: what `compile` stores.
use cpcjudge_site.Base.{
  ℕ, ◌⊎◌, ◌≡◌, refl, sym, ◌∙◌, ap, Bool, true, false, not, ◌&&◌, ◌||◌, Option, none, some, List,
  inl, inr, [], ◌∷◌, ◌++◌, map, is_some, Bool-cases, arith,
}
use cpcjudge_site.ProblemData.Cases.{
  Case, CaseData, Item, single, group, ProblemDataError, corrupt_zip, corrupt_generator, make_cases,
}
use cpcjudge_site.ProblemData.Batches.{listed, described}
use cpcjudge_site.ProblemData.Loop.{make_cases-AreSound}
use cpcjudge_site.ProblemData.Counts.{
  Holds, holds, raised, made-Holds, then_make-Holds, IsSplit, init_of-Holds, make_init-made,
}
use cpcjudge_site.ProblemData.Init.{
  Data, Entry, case_entry, batch_entry, Init, Interactor, Interactive, Extension, Made, made,
  refused, then_make, entries, part_of, generator_path, make_interactive, interactive_of, init_of,
  make_init, is_blank, Storage, needs_testlib, compile,
}

-- the cases of the entries, in order
abbrev pub cases_of : List Entry → List CaseData
cases_of [] = []
cases_of (case_entry data_ ∷ rest) = data_ ∷ cases_of rest
cases_of (batch_entry batch ∷ rest) = batch.batched ++ cases_of rest

-- the pretests among the cases, or the others
abbrev pub of_kind : Bool → List (Bool × CaseData) → List CaseData
of_kind kind [] = []
of_kind true ((true, d) ∷ rest) = d ∷ of_kind true rest
of_kind true ((false, d) ∷ rest) = of_kind true rest
of_kind false ((true, d) ∷ rest) = of_kind false rest
of_kind false ((false, d) ∷ rest) = d ∷ of_kind false rest

of_kind-same :
    (kind : Bool) (batched : List CaseData) (rest : List (Bool × CaseData))
    → of_kind kind (map (λ d. (kind, d)) batched ++ rest) ≡ batched ++ of_kind kind rest
of_kind-same kind [] rest = refl
of_kind-same true (d ∷ more) rest = ap (λ l. d ∷ l) (of_kind-same true more rest)
of_kind-same false (d ∷ more) rest = ap (λ l. d ∷ l) (of_kind-same false more rest)

of_kind-other :
    (kind : Bool) (batched : List CaseData) (rest : List (Bool × CaseData))
    → of_kind kind (map (λ d. (not kind, d)) batched ++ rest) ≡ of_kind kind rest
of_kind-other kind [] rest = refl
of_kind-other true (d ∷ more) rest = of_kind-other true more rest
of_kind-other false (d ∷ more) rest = of_kind-other false more rest

entries-of_kind :
    (kind : Bool) (items : List Item) → cases_of (entries kind items) ≡ of_kind kind (listed items)
unfolding entries
entries-of_kind kind [] = refl
entries-of_kind true (single true d ∷ rest) = ap (λ l. d ∷ l) (entries-of_kind true rest)
entries-of_kind true (single false d ∷ rest) = entries-of_kind true rest
entries-of_kind false (single true d ∷ rest) = entries-of_kind false rest
entries-of_kind false (single false d ∷ rest) = ap (λ l. d ∷ l) (entries-of_kind false rest)
entries-of_kind true (group true b ∷ rest) =
    ap (λ l. b.batched ++ l) (entries-of_kind true rest)
    ∙ sym (of_kind-same true b.batched (listed rest))
entries-of_kind true (group false b ∷ rest) =
    entries-of_kind true rest ∙ sym (of_kind-other true b.batched (listed rest))
entries-of_kind false (group true b ∷ rest) =
    entries-of_kind false rest ∙ sym (of_kind-other false b.batched (listed rest))
entries-of_kind false (group false b ∷ rest) =
    ap (λ l. b.batched ++ l) (entries-of_kind false rest)
    ∙ sym (of_kind-same false b.batched (listed rest))

-- whether the interactor is a .cpp or .cc file that includes testlib
abbrev pub is_cplusplus : Extension → Bool
is_cplusplus Extension.cpp = true
is_cplusplus Extension.cc = true
is_cplusplus Extension.c = false
is_cplusplus Extension.py = false
is_cplusplus Extension.unknown = false

abbrev includes : Option Bool → Bool
includes none = false
includes (some b) = b

abbrev pub wants_testlib : Option Interactor → Bool
wants_testlib none = false
wants_testlib (some i) = is_cplusplus i.extension && includes i.includes_testlib

made_interactive :
    (d : Data) (i : Interactor) (x : Interactive)
    → make_interactive d i ≡ made x
    → (not (wants_testlib (some i)) || x.testlib) ≡ true
unfolding make_interactive
made_interactive d i x h = ground arith

abbrev testlib_of : Option Interactive → Bool
testlib_of x = elim x [ none ↦ false | some y ↦ y.testlib ]

-- what is made has testlib's header if the problem's interactor wants it
abbrev Brings : Option Interactor → Option Interactive → Type 0
Brings wanted x = (not (wants_testlib wanted) || testlib_of x) ≡ true

some_made :
    (i : Interactor) (m : Made Interactive)
    → ((x : Interactive) → m ≡ made x → Brings (some i) (some x))
    → Holds (Brings (some i)) (then_make m (λ x. made (some x)))
unfolding then_make
some_made i (made x) h = holds (h x refl)
some_made i (refused e) h = raised

interactor-Brings :
    (d : Data) (wanted : Option Interactor)
    → Holds (Brings wanted) (elim wanted [
      | none ↦ made none
      | some i ↦ then_make (make_interactive d i) (λ x. made (some x))
    ])
interactor-Brings d none = holds refl
interactor-Brings d (some i) = some_made i (make_interactive d i) (made_interactive d i)

then_make-from :
    {A B : Type 0} (Q : A → Type 0) (P : B → Type 0) (m : Made A) (f : A → Made B)
    → Holds Q m
    → ((a : A) → Q a → Holds P (f a))
    → Holds P (then_make m f)
unfolding then_make
then_make-from Q P (made a) f (holds h) g = g a h
then_make-from Q P (refused e) f raised g = raised

init_of-Brings :
    (d : Data) (items : List Item)
    → Holds (λ i. (not (wants_testlib d.interactor) || needs_testlib i) ≡ true) (init_of d items)
unfolding init_of interactive_of
init_of-Brings d items =
    let P : Init → Type 0 = λ i. (not (wants_testlib d.interactor) || needs_testlib i) ≡ true in
    then_make-Holds P (part_of d.zipfile corrupt_zip) _ (λ archive.
      then_make-Holds P (part_of (generator_path d.generator) corrupt_generator) _ (λ generator.
        then_make-from (Brings d.interactor) P (interactive_of d) _
          (interactor-Brings d d.interactor) (λ x h. holds h)))

stays : (a b c : Bool) → (a || b) ≡ true → (a || (b || c)) ≡ true
stays a b c h = ground arith

Made-cases :
    {A : Type 0} (m : Made A)
    → ((e : ProblemDataError) × (m ≡ refused e)) ⊎ ((a : A) × (m ≡ made a))
Made-cases (refused e) = inl (e, refl)
Made-cases (made a) = inr (a, refl)

made_init :
    (d : Data) (files : List ℕ) (cases : List Case) (i : Init)
    → make_init d files cases ≡ made i
    → (cases_of i.pretest_test_cases ≡ of_kind true (described none cases))
      × (cases_of i.test_cases ≡ of_kind false (described none cases))
      × ((not (wants_testlib d.interactor) || needs_testlib i) ≡ true)
made_init d files cases i h =
    let (quiet, kept) = make_init-made d files cases i h in
    let items : List Item = ((make_cases (is_some d.generator) files cases).0).cases in
    let (pretests, tests) : IsSplit items i =
      made-Holds (IsSplit items) (init_of d items) i (init_of-Holds d items) kept in
    let (_, same) = make_cases-AreSound (is_some d.generator) files cases quiet in
    (
      ap cases_of pretests ∙ entries-of_kind true items ∙ ap (of_kind true) same,
      ap cases_of tests ∙ entries-of_kind false items ∙ ap (of_kind false) same,
      made-Holds (λ j. (not (wants_testlib d.interactor) || needs_testlib j) ≡ true)
          (init_of d items) i (init_of-Brings d items) kept,
    )

-- Whatever was stored before, when a dictionary is stored after `compile`, its pretests are exactly the
-- cases that the problem's rows of type 'C' describe as pretests, and its other cases exactly the others,
-- in the order of the rows; and if the problem's interactor is a .cpp or .cc file that includes testlib,
-- testlib's header is stored beside it.
pub compile-Serves :
    (d : Data) (files : List ℕ) (cases : List Case) (stored : Storage) (i : Init)
    → (compile d files cases stored).1.init_yml ≡ some i
    → (cases_of i.pretest_test_cases ≡ of_kind true (described none cases))
      × (cases_of i.test_cases ≡ of_kind false (described none cases))
      × ((not (wants_testlib d.interactor) || (compile d files cases stored).1.testlib) ≡ true)
unfolding compile
compile-Serves d files cases stored i h = elim (Made-cases (make_init d files cases)) [
  | inl (e, f) ↦ absurd (ground arith)
  | inr (j, f) ↦ elim (Bool-cases (is_blank j)) [
    | inl g ↦ absurd (ground arith)
    | inr g ↦
        let same : j ≡ i = ground arith in
        let (pretests, tests, header) = made_init d files cases i (f ∙ ap made same) in
        let needed : (not (wants_testlib d.interactor) || needs_testlib j) ≡ true =
          ap (λ k. not (wants_testlib d.interactor) || needs_testlib k) same ∙ header in
        (pretests, tests, rw (compile, f) (stays _ (needs_testlib j) stored.testlib needed))
  ]
]
