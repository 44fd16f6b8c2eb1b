-- ===== src/ProblemData/Counts.antt =====
-- judge/utils/problem_data.py: the cases in the dictionary of `make_init`.
use cpcjudge_site.Base.{
  ℕ, suc, ◌+◌, ◌≡◌, refl, subst, ap, true, false, none, List, [], ◌∷◌, inl, inr, length,
  length-append, map, ◌∙◌, Bool, some, Option, count, Option-cases, arith, is_some,
}
use cpcjudge_site.ProblemData.Cases.{
  Case, CaseType, CaseData, Item, single, group, ProblemDataError, corrupt_zip, corrupt_generator,
  make_cases,
}
use cpcjudge_site.ProblemData.Batches.{listed, described, is_normal}
use cpcjudge_site.ProblemData.Loop.{make_cases-AreSound}
use cpcjudge_site.ProblemData.Init.{
  Data, Entry, case_entry, batch_entry, Init, Made, made, refused, then_make, entries, init_of,
  make_init, part_of, generator_path, interactive_of,
}

-- how many cases the entries hold
abbrev pub entries_size : List Entry → ℕ
entries_size [] = 0
entries_size (case_entry data_ ∷ rest) = suc (entries_size rest)
entries_size (batch_entry batch ∷ rest) = length batch.batched + entries_size rest

-- how many cases the items hold
abbrev size : List Item → ℕ
size [] = 0
size (single pretest data_ ∷ rest) = suc (size rest)
size (group pretest batch ∷ rest) = length batch.batched + size rest

map-length : {A B : Type 0} (f : A → B) (l : List A) → length (map f l) ≡ length l
map-length f [] = refl
map-length f (x ∷ rest) = ap suc (map-length f rest)

entries-size :
    (items : List Item)
    → entries_size (entries true items) + entries_size (entries false items) ≡ size items
unfolding entries
entries-size [] = omega arith
entries-size (single true d ∷ rest) = omega (arith, entries-size rest)
entries-size (single false d ∷ rest) = omega (arith, entries-size rest)
entries-size (group true b ∷ rest) = omega (arith, entries-size rest)
entries-size (group false b ∷ rest) = omega (arith, entries-size rest)

-- what holds of the value made, if one is
pub data Holds {A : Type 0} (P : A → Type 0) : Made A → Type 0 where
  holds : {a : A} → P a → Holds P (made a)
  raised : {e : ProblemDataError} → Holds P (refused e)

pub made-Holds : {A : Type 0} (P : A → Type 0) (m : Made A) (a : A) → Holds P m → m ≡ made a → P a
made-Holds P m a (holds h) e = subst P (ground arith) h
made-Holds P m a raised e = absurd (ground arith)

pub then_make-Holds :
    {A B : Type 0} (P : B → Type 0) (m : Made A) (f : A → Made B)
    → ((a : A) → Holds P (f a))
    → Holds P (then_make m f)
unfolding then_make
then_make-Holds P (made a) f h = h a
then_make-Holds P (refused e) f h = raised

abbrev pub IsSplit : List Item → Init → Type 0
IsSplit items i = (i.pretest_test_cases ≡ entries true items) × (i.test_cases ≡ entries false items)

pub init_of-Holds : (d : Data) (items : List Item) → Holds (IsSplit items) (init_of d items)
unfolding init_of
init_of-Holds d items =
    then_make-Holds (IsSplit items) (part_of d.zipfile corrupt_zip) _ (λ archive.
      then_make-Holds (IsSplit items) (part_of (generator_path d.generator) corrupt_generator) _
        (λ generator.
          then_make-Holds (IsSplit items) (interactive_of d) _ (λ interactive. holds (refl, refl))))

pub make_init-made :
    (d : Data) (files : List ℕ) (cases : List Case) (i : Init)
    → make_init d files cases ≡ made i
    → (let run = make_cases (is_some d.generator) files cases in
        (run.1 ≡ none) × (init_of d (run.0).cases ≡ made i))
unfolding make_init
make_init-made d files cases i h =
    elim (Option-cases ((make_cases (is_some d.generator) files cases).1)) [
      | inl e ↦ (e, ground arith)
      | inr (err, e) ↦ absurd (ground arith)
    ]

listed-size : (items : List Item) → length (listed items) ≡ size items
listed-size [] = refl
listed-size (single p d ∷ rest) = omega (arith, listed-size rest)
listed-size (group p b ∷ rest) =
    length-append (map (λ d. (p, d)) b.batched) (listed rest)
    ∙ omega (arith, map-length {B = Bool × CaseData} (λ d. (p, d)) b.batched, listed-size rest)

described-cons :
    (inside : Option Bool) (t : CaseType) (c : Case) (rest : List Case)
    → ((o : Option Bool) → length (described o rest) ≡ count is_normal rest)
    → length (described inside (record c { case_type = t } ∷ rest))
      ≡ count is_normal (record c { case_type = t } ∷ rest)
unfolding described count
described-cons inside CaseType.normal c rest h = omega (arith, h inside)
described-cons inside CaseType.batch_start c rest h = omega (arith, h (some c.is_pretest))
described-cons inside CaseType.batch_end c rest h = omega (arith, h none)

described-count :
    (inside : Option Bool) (cases : List Case)
    → length (described inside cases) ≡ count is_normal cases
unfolding described count
described-count inside [] = refl
described-count inside (c ∷ rest) =
    described-cons inside c.case_type c rest (λ o. described-count o rest)

-- What `make_init` returns holds, in its pretests and its other cases together, as many cases as the
-- problem has rows of type 'C'.
pub make_init-size :
    (d : Data) (files : List ℕ) (cases : List Case) (i : Init)
    → make_init d files cases ≡ made i
    → entries_size i.pretest_test_cases + entries_size i.test_cases ≡ count is_normal cases
make_init-size d files cases i h =
    let (quiet, kept) = make_init-made d files cases i h in
    let items : List Item = ((make_cases (is_some d.generator) files cases).0).cases in
    let (pretests, tests) : IsSplit items i =
      made-Holds (IsSplit items) (init_of d items) i (init_of-Holds d items) kept in
    let (sound, kept) = make_cases-AreSound (is_some d.generator) files cases quiet in
    omega (
      arith,
      ap length kept,
      listed-size items,
      described-count none cases,
      entries-size items,
      ap entries_size pretests,
      ap entries_size tests,
    )
