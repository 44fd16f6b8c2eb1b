-- ===== src/Arena/Rules/Cleaning.antt =====
-- judge/arena/rules.py: what `clean_rules` lets through.
use cpcjudge_site.Base.{
  ℕ, suc, ◌==◌, ==_iff, ◌≤◌, ◌&&◌, if◌then◌else◌, Option, none, some, List, [], ◌∷◌, All, length,
  ltb, leb, ◌≡◌, refl, sym, ◌∙◌, ap, subst, inl, inr, Bool-cases, Option-cases, arith,
}
use cpcjudge_site.Base.Int.{ℤ, pos, negsuc}
use cpcjudge_site.Arena.Rating.Dictionary.{put}
use cpcjudge_site.Arena.Rating.Keyed.{IsLawful, put-All}
use cpcjudge_site.Arena.Rules.{
  Texts, Json, boolean, integer, real, text, array, null, other, Request, absent, not_object,
  object, Rule, Kind, bounded, yes_or_no, keys, kind, number_of, same_rule, Value, count_value,
  flag, names, Rules, Cleaned, clean, invalid, crashed, then_clean, within, parsed, clean_int,
  clean_bool, clean_keys, clean_languages, clean_value, clean_entries, clean_rules, max_languages,
}

-- a value of the kind of its rule, within the bounds of the rule
abbrev pub IsGood : Kind → Value → Type 0
IsGood (bounded low high) (count_value (pos n)) = (low ≤ n) × (n ≤ high)
IsGood yes_or_no (flag b) = Unit
IsGood keys (names l) = length l ≤ 40
IsGood _ _ = ⊥

abbrev pub AreGood : Rules → Type 0
AreGood rules = All (λ (r, v). IsGood (kind r) v) rules

abbrev rule_at : ℕ → Rule
rule_at n =
    if n == 0
    then Rule.duration
    else if n == 1
    then Rule.countdown
    else if n == 2
    then Rule.penalty
    else if n == 3
    then Rule.max_attempts
    else if n == 4
    then Rule.partial
    else if n == 5
    then Rule.block_paste
    else if n == 6
    then Rule.show_rival
    else if n == 7
    then Rule.screen_code
    else Rule.languages

rule_at-number_of : (r : Rule) → rule_at (number_of r) ≡ r
rule_at-number_of Rule.duration = refl
rule_at-number_of Rule.countdown = refl
rule_at-number_of Rule.penalty = refl
rule_at-number_of Rule.max_attempts = refl
rule_at-number_of Rule.partial = refl
rule_at-number_of Rule.block_paste = refl
rule_at-number_of Rule.show_rival = refl
rule_at-number_of Rule.screen_code = refl
rule_at-number_of Rule.languages = refl

pub rule-IsLawful : IsLawful same_rule
rule-IsLawful a b = (
  λ h.
      sym (rule_at-number_of a)
      ∙ ap rule_at ((==_iff (number_of a) (number_of b)).0 h)
      ∙ rule_at-number_of b,
  λ e. (==_iff (number_of a) (number_of b)).1 (ap number_of e),
)

-- what holds of a value that was let through
data Fulfils {A : Type 0} (P : A → Type 0) : Cleaned A → Type 0 where
  fulfils : {a : A} → P a → Fulfils P (clean a)
  refuses : Fulfils P invalid
  crashes : Fulfils P crashed

clean-Fulfils :
    {A : Type 0} (P : A → Type 0) (m : Cleaned A) (a : A) → Fulfils P m → m ≡ clean a → P a
clean-Fulfils P m a (fulfils h) e = subst P (ground arith) h
clean-Fulfils P m a refuses e = absurd (ground arith)
clean-Fulfils P m a crashes e = absurd (ground arith)

then_clean-Fulfils :
    {A B : Type 0} (Q : A → Type 0) (P : B → Type 0) (m : Cleaned A) (f : A → Cleaned B)
    → Fulfils Q m
    → ((a : A) → Q a → Fulfils P (f a))
    → Fulfils P (then_clean m f)
then_clean-Fulfils Q P m f (fulfils h) k = k _ h
then_clean-Fulfils Q P m f refuses k = refuses
then_clean-Fulfils Q P m f crashes k = crashes

anything : {A : Type 0} (m : Cleaned A) → Fulfils (λ a. Unit) m
anything (clean a) = fulfils tt
anything invalid = refuses
anything crashed = crashes

within-Fulfils :
    (low high : ℕ) (z : ℤ)
    → Fulfils (λ v. IsGood (bounded low high) (count_value v)) (within low high z)
within-Fulfils low high (negsuc n) = refuses
within-Fulfils low high (pos n) = elim (Bool-cases (leb low n && leb n high)) [
  | inl e ↦ rw (e) (fulfils (ground arith, ground arith))
  | inr e ↦ rw (e) refuses
]

module _ (t : Texts) where
  clean_int-Fulfils :
      (low high : ℕ) (v : Json)
      → Fulfils (λ z. IsGood (bounded low high) (count_value z)) (clean_int t low high v)
  unfolding clean_int
  clean_int-Fulfils low high null = refuses
  clean_int-Fulfils low high other = refuses
  clean_int-Fulfils low high (boolean b) = refuses
  clean_int-Fulfils low high (integer z) = within-Fulfils low high z
  clean_int-Fulfils low high (real z) = refuses
  clean_int-Fulfils low high (array l) = refuses
  clean_int-Fulfils low high (text s) = elim (Bool-cases (t.looks_signed s)) [
    | inr e ↦ rw (e) refuses
    | inl e ↦ rw (e) (
        then_clean-Fulfils (λ z. Unit) (λ z. IsGood (bounded low high) (count_value z)) (parsed t s)
          (within low high) (anything (parsed t s)) (λ z h. within-Fulfils low high z))
  ]

  clean_keys-short :
      (values : List (Option ℕ)) → Fulfils (λ l. length l ≤ length values) (clean_keys t values)
  unfolding clean_keys
  clean_keys-short [] = fulfils (omega arith)
  clean_keys-short (none ∷ rest) = refuses
  clean_keys-short (some s ∷ rest) = elim (Bool-cases (ltb 0 (t.size s) && leb (t.size s) 6)) [
    | inr e ↦ rw (e) refuses
    | inl e ↦ rw (e) (
        then_clean-Fulfils (λ l. length l ≤ length rest) (λ l. length l ≤ suc (length rest))
          (clean_keys t rest) (λ l. clean (s ∷ l)) (clean_keys-short rest)
          (λ l h. fulfils (omega (arith, h))))
  ]

  module _ (shrinks : (l : List ℕ) → length (t.sorted_set l) ≤ length l) where
    clean_languages-Fulfils : (v : Json) → Fulfils (λ l. length l ≤ 40) (clean_languages t v)
    unfolding clean_languages
    clean_languages-Fulfils null = refuses
    clean_languages-Fulfils other = refuses
    clean_languages-Fulfils (boolean b) = refuses
    clean_languages-Fulfils (integer z) = refuses
    clean_languages-Fulfils (real z) = refuses
    clean_languages-Fulfils (text s) = refuses
    clean_languages-Fulfils (array values) = elim (Bool-cases (ltb max_languages (length values))) [
      | inl e ↦ rw (e) refuses
      | inr e ↦
          let few : length values ≤ 40 = ground arith in
          rw (e) (
            then_clean-Fulfils (λ l. length l ≤ length values) (λ l. length l ≤ 40)
              (clean_keys t values) (λ l. clean (t.sorted_set l)) (clean_keys-short values)
              (λ l h. fulfils (omega (arith, h, few, shrinks l))))
    ]

    clean_value-Fulfils : (k : Kind) (v : Json) → Fulfils (IsGood k) (clean_value t k v)
    unfolding clean_value
    clean_value-Fulfils (bounded low high) v =
        then_clean-Fulfils (λ z. IsGood (bounded low high) (count_value z))
          (IsGood (bounded low high)) (clean_int t low high v) (λ z. clean (count_value z))
          (clean_int-Fulfils low high v) (λ z h. fulfils h)
    clean_value-Fulfils yes_or_no v =
        then_clean-Fulfils (λ b. Unit) (IsGood yes_or_no) (clean_bool t v) (λ b. clean (flag b))
          (anything (clean_bool t v)) (λ b h. fulfils tt)
    clean_value-Fulfils keys v =
        then_clean-Fulfils (λ l. length l ≤ 40) (IsGood keys) (clean_languages t v)
          (λ l. clean (names l)) (clean_languages-Fulfils v) (λ l h. fulfils h)

    clean_entries-Fulfils :
        (rule_of : ℕ → Option Rule) (rules : Rules) (entries : List (ℕ × Json))
        → AreGood rules
        → Fulfils AreGood (clean_entries t rule_of rules entries)
    unfolding clean_entries
    clean_entries-Fulfils rule_of rules [] h = fulfils h
    clean_entries-Fulfils rule_of rules ((name, v) ∷ rest) h = elim (Option-cases (rule_of name)) [
      | inl e ↦ rw (clean_entries, e) (clean_entries-Fulfils rule_of rules rest h)
      | inr (rule, e) ↦
          rw (clean_entries, e)
            (then_clean-Fulfils (IsGood (kind rule)) AreGood (clean_value t (kind rule) v)
              (λ value. clean_entries t rule_of (put same_rule rule value rules) rest)
              (clean_value-Fulfils (kind rule) v)
              (λ value good. clean_entries-Fulfils rule_of (put same_rule rule value rules) rest (
                put-All same_rule rule-IsLawful (λ (r, w). IsGood (kind r) w) rule value rules
                  (λ j near.
                    subst (λ r. IsGood (kind r) value) (sym ((rule-IsLawful j rule).0 near)) good)
                  good h)))
    ]

    -- Whatever a request holds, the rules that are let through are within their bounds: every number is from
    -- the least to the greatest that its rule allows, the others are Booleans, and there are at most 40
    -- languages, when `sorted(set(...))` is not longer than its list.
    pub clean_rules-AreGood :
        (rule_of : ℕ → Option Rule) (request : Request) (rules : Rules)
        → clean_rules t rule_of request ≡ clean rules
        → AreGood rules
    unfolding clean_rules
    clean_rules-AreGood rule_of absent rules e =
        let same : [] ≡ rules = ground arith in subst AreGood same tt
    clean_rules-AreGood rule_of not_object rules e = absurd (ground arith)
    clean_rules-AreGood rule_of (object entries) rules e =
        clean-Fulfils AreGood (clean_entries t rule_of [] entries) rules
          (clean_entries-Fulfils rule_of [] entries tt) e
