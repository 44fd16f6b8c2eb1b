-- ===== src/Arena/Rules.antt =====
-- judge/arena/rules.py: what an organizer may configure. A text is a number, since texts are compared;
-- what Python's `strip`, `isdigit`, `int`, `len` and `sorted` make of one is an argument.
pub mod Cleaning
pub mod Merging
pub mod Draw
pub mod Saved
mod Tests
use cpcjudge_site.Base.{
  ℕ, zero, suc, ◌==◌, Bool, true, false, not, ◌&&◌, ◌||◌, if◌then◌else◌, Option, none, some, List,
  [], ◌∷◌, ◌++◌, any, contains, length, ltb, leb,
}
use cpcjudge_site.Base.Int.{ℤ, pos, negsuc, ltb_ℤ}
use cpcjudge_site.Arena.Rating.Dictionary.{Table, find, put}

-- the texts that the module compares with
abbrev pub empty_text : ℕ
empty_text = 0

abbrev pub true_texts : List ℕ
true_texts = 1 ∷ 2 ∷ 3 ∷ []

abbrev pub false_texts : List ℕ
false_texts = 4 ∷ 5 ∷ 6 ∷ empty_text ∷ []

-- Python's functions on texts: whether a text without the blanks around it is made of digits, after any
-- signs before them or with none, the integer that `int` makes of it, if it does not raise, the length of
-- a text, and `sorted(set(...))`.
pub record Texts : Type 0 where
  pub looks_signed : ℕ → Bool
  pub looks_unsigned : ℕ → Bool
  pub int_of : ℕ → Option ℤ
  pub size : ℕ → ℕ
  pub sorted_set : List ℕ → List ℕ

-- A value of the JSON that a request holds: a floating-point number comes with the integer that it equals,
-- if there is one, and a list with its texts, `none` for any other value in it.
pub data Json : Type 0 where
  null other : Json
  boolean : Bool → Json
  integer : ℤ → Json
  real : Option ℤ → Json
  text : ℕ → Json
  array : List (Option ℕ) → Json

-- what stands for the rules in a request
pub data Request : Type 0 where
  absent not_object : Request
  object : List (ℕ × Json) → Request

pub data Rule : Type 0 where
  duration countdown penalty max_attempts partial block_paste show_rival screen_code languages :
      Rule

pub data Kind : Type 0 where
  bounded : ℕ → ℕ → Kind
  yes_or_no : Kind
  keys : Kind

-- `BOUNDS`, `BOOLEANS`, and the languages
abbrev pub kind : Rule → Kind
kind Rule.duration = bounded 1 300
kind Rule.countdown = bounded 3 60
kind Rule.penalty = bounded 0 60
kind Rule.max_attempts = bounded 0 50
kind Rule.languages = keys
kind _ = yes_or_no

abbrev pub number_of : Rule → ℕ
number_of Rule.duration = 0
number_of Rule.countdown = 1
number_of Rule.penalty = 2
number_of Rule.max_attempts = 3
number_of Rule.partial = 4
number_of Rule.block_paste = 5
number_of Rule.show_rival = 6
number_of Rule.screen_code = 7
number_of Rule.languages = 8

abbrev pub same_rule : Rule → Rule → Bool
same_rule a b = number_of a == number_of b

-- a value that was cleaned
pub data Value : Type 0 where
  count_value : ℤ → Value
  flag : Bool → Value
  names : List ℕ → Value

abbrev pub Rules : Type 0
Rules = Table Rule Value

-- a value, a ValidationError, or the ValueError of `int`
pub data Cleaned {ℓ} (A : Type ℓ) : Type ℓ where
  clean : A → Cleaned A
  invalid crashed : Cleaned A

abbrev pub then_clean {ℓ κ} : {A : Type ℓ} {B : Type κ} → Cleaned A → (A → Cleaned B) → Cleaned B
then_clean (clean a) f = f a
then_clean invalid f = invalid
then_clean crashed f = crashed

abbrev pub max_languages : ℕ
max_languages = 40

-- `low <= value <= high`
abbrev pub is_within : ℕ → ℕ → ℤ → Bool
is_within low high (pos n) = leb low n && leb n high
is_within low high (negsuc n) = false

abbrev pub within : ℕ → ℕ → ℤ → Cleaned ℤ
within low high z = if is_within low high z then clean z else invalid

abbrev pub is_number : ℕ → ℤ → Bool
is_number k (pos n) = n == k
is_number k (negsuc n) = false

module _ (t : Texts) where
  -- `int(value.strip())`
  abbrev pub parsed : ℕ → Cleaned ℤ
  parsed s = elim (t.int_of s) [ none ↦ crashed | some z ↦ clean z ]

  -- `_int`
  unfoldable pub clean_int : ℕ → ℕ → Json → Cleaned ℤ
  clean_int low high (integer z) = within low high z
  clean_int low high (text s) =
      if t.looks_signed s then then_clean (parsed s) (within low high) else invalid
  clean_int low high _ = invalid

  -- `_bool`
  unfoldable pub clean_bool : Json → Cleaned Bool
  clean_bool (boolean b) = clean b
  clean_bool (integer z) =
      if is_number 1 z then clean true else if is_number 0 z then clean false else invalid
  clean_bool (real (some z)) =
      if is_number 1 z then clean true else if is_number 0 z then clean false else invalid
  clean_bool (text s) =
      if contains s true_texts
      then clean true
      else if contains s false_texts
      then clean false
      else invalid
  clean_bool _ = invalid

  -- the texts of a list of keys of languages
  unfoldable pub clean_keys : List (Option ℕ) → Cleaned (List ℕ)
  clean_keys [] = clean []
  clean_keys (some s ∷ rest) =
      let others = clean_keys rest in
      if ltb 0 (t.size s) && leb (t.size s) 6
      then then_clean others (λ l. clean (s ∷ l))
      else invalid
  clean_keys (none ∷ rest) = invalid

  unfoldable pub clean_languages : Json → Cleaned (List ℕ)
  unfolding clean_keys
  clean_languages (array values) =
      if ltb max_languages (length values)
      then invalid
      else then_clean (clean_keys values) (λ l. clean (t.sorted_set l))
  clean_languages _ = invalid

  unfoldable pub clean_value : Kind → Json → Cleaned Value
  unfolding clean_int clean_bool clean_languages
  clean_value (bounded low high) v = then_clean (clean_int low high v) (λ z. clean (count_value z))
  clean_value yes_or_no v = then_clean (clean_bool v) (λ b. clean (flag b))
  clean_value keys v = then_clean (clean_languages v) (λ l. clean (names l))

  -- the loop of `clean_rules`, over the names and the values of the dictionary; `rule_of` is the rule of a
  -- name
  unfoldable pub clean_entries : (ℕ → Option Rule) → Rules → List (ℕ × Json) → Cleaned Rules
  unfolding clean_value put
  clean_entries rule_of cleaned [] = clean cleaned
  clean_entries rule_of cleaned ((name, v) ∷ rest) = elim (rule_of name) [
    | none ↦ clean_entries rule_of cleaned rest
    | some rule ↦
        then_clean (clean_value (kind rule) v)
          (λ value. clean_entries rule_of (put same_rule rule value cleaned) rest)
  ]

  unfoldable pub clean_rules : (ℕ → Option Rule) → Request → Cleaned Rules
  unfolding clean_entries
  clean_rules rule_of absent = clean []
  clean_rules rule_of (object entries) = clean_entries rule_of [] entries
  clean_rules rule_of not_object = invalid

  -- `clean_points`
  unfoldable pub clean_points : Json → Cleaned ℤ
  clean_points (integer z) = within 1 10000 z
  clean_points (text s) =
      if t.looks_unsigned s then then_clean (parsed s) (within 1 10000) else invalid
  clean_points _ = invalid

  abbrev pub is_best_of : ℤ → Bool
  is_best_of (pos n) = contains n (1 ∷ 3 ∷ 5 ∷ 7 ∷ 9 ∷ [])
  is_best_of (negsuc n) = false

  abbrev pub one_of_best : ℤ → Cleaned ℤ
  one_of_best z = if is_best_of z then clean z else invalid

  -- `clean_best_of`
  unfoldable pub clean_best_of : Json → Cleaned ℤ
  clean_best_of (integer z) = one_of_best z
  clean_best_of (real (some z)) = one_of_best z
  clean_best_of (text s) = if t.looks_unsigned s then then_clean (parsed s) one_of_best else invalid
  clean_best_of _ = invalid

-- `DEFAULTS`
abbrev pub defaults : Rules
defaults =
    (Rule.duration, count_value (pos 15))
    ∷ (Rule.countdown, count_value (pos 10))
    ∷ (Rule.partial, flag false)
    ∷ (Rule.penalty, count_value (pos 0))
    ∷ (Rule.max_attempts, count_value (pos 0))
    ∷ (Rule.languages, names [])
    ∷ (Rule.block_paste, flag true)
    ∷ (Rule.show_rival, flag true)
    ∷ (Rule.screen_code, flag true)
    ∷ []

-- one layer over the rules so far
unfoldable pub add_layer : Rules → Rules → Rules
unfolding put
add_layer rules [] = rules
add_layer rules ((name, value) ∷ rest) = add_layer (put same_rule name value rules) rest

unfoldable pub merge_over : Rules → List Rules → Rules
unfolding add_layer
merge_over rules [] = rules
merge_over rules (layer ∷ rest) = merge_over (add_layer rules layer) rest

-- `merge`
unfoldable pub merge : List Rules → Rules
unfolding merge_over
merge layers = merge_over defaults layers

-- `match_rules`: the rules of the tournament and of the round, if there are, and of the match
unfoldable pub match_rules : Option Rules → Option Rules → Rules → Rules
unfolding merge
match_rules tournament round own = merge (
    (elim tournament [ none ↦ [] | some r ↦ r ∷ [] ])
    ++ (elim round [ none ↦ [] | some r ↦ r ∷ [] ])
    ++ own ∷ [])
