-- ===== src/ContestFormat/Tests.antt =====
-- judge/contest_format/icpc.py: the label of the 28th problem, AB.
use cpcjudge_site.Base.{◌≡◌, refl, [], ◌∷◌, All}
use cpcjudge_site.ContestFormat.{letters, get_label_for_problem}
use cpcjudge_site.ContestFormat.Labels.{IsLetter, read_from, get_label_for_problem_roundtrip}

label_of_28th : get_label_for_problem 27 ≡ 65 ∷ 66 ∷ []
unfolding get_label_for_problem letters
label_of_28th = refl

get_label_for_problem_roundtrip_example :
    All IsLetter (get_label_for_problem 27) × (read_from 0 (get_label_for_problem 27) ≡ 28)
get_label_for_problem_roundtrip_example = get_label_for_problem_roundtrip 27
