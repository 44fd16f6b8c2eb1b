-- ===== src/Arena/Rules/Draw.antt =====
-- judge/arena/rules.py: the settings for drawing problems, `clean_draw` and `with_draw`.
use cpcjudge_site.Base.{
  ℕ, ◌==◌, Bool, true, false, not, if◌then◌else◌, Option, none, some, List, [], ◌∷◌, contains, keep,
  ltb,
}
use cpcjudge_site.Base.Int.{ℤ, pos, negsuc}
use cpcjudge_site.Arena.Rating.Dictionary.{Table, find, put}
use cpcjudge_site.Arena.Rules.{
  Texts, Json, null, boolean, integer, real, text, Rule, same_rule, Value, Cleaned, clean, invalid,
  then_clean, is_number, is_within, parsed, true_texts, empty_text,
}

pub data DrawKey : Type 0 where
  auto_draw draw_count level_min level_max : DrawKey

abbrev pub draw_number : DrawKey → ℕ
draw_number DrawKey.auto_draw = 0
draw_number DrawKey.draw_count = 1
draw_number DrawKey.level_min = 2
draw_number DrawKey.level_max = 3

-- `DRAW_KEYS`
abbrev pub draw_keys : List DrawKey
draw_keys = DrawKey.auto_draw ∷ DrawKey.draw_count ∷ DrawKey.level_min ∷ DrawKey.level_max ∷ []

-- A key of the stored JSON: of a rule, or of a drawing setting.
pub data Key : Type 0 where
  rule : Rule → Key
  draw : DrawKey → Key

abbrev pub same_key : Key → Key → Bool
same_key (rule a) (rule b) = same_rule a b
same_key (draw a) (draw b) = draw_number a == draw_number b
same_key _ _ = false

pub data Setting : Type 0 where
  of_rule : Value → Setting
  automatic : Bool → Setting
  amount : ℕ → Setting

abbrev pub Settings : Type 0
Settings = Table Key Setting

-- the drawing settings of a request, by key; a key set to nothing holds `none`
abbrev pub Draws : Type 0
Draws = List (DrawKey × Option Setting)

abbrev pub is_blank : Json → Bool
is_blank null = true
is_blank (text s) = s == empty_text
is_blank _ = false

abbrev pub is_true : Json → Bool
is_true (boolean b) = b
is_true (integer z) = is_number 1 z
is_true (real (some z)) = is_number 1 z
is_true (text s) = contains s true_texts
is_true _ = false

abbrev pub level_within : ℤ → Cleaned (Option Setting)
level_within (pos n) = if is_within 1 5 (pos n) then clean (some (amount n)) else invalid
level_within (negsuc n) = invalid

module _ (t : Texts) where
  unfoldable pub clean_level : Json → Cleaned (Option Setting)
  clean_level (integer z) = level_within z
  clean_level (text s) =
      if t.looks_unsigned s then then_clean (parsed t s) level_within else invalid
  clean_level _ = invalid

  unfoldable pub clean_setting : DrawKey → Json → Cleaned (Option Setting)
  unfolding clean_level
  clean_setting key v =
      if is_blank v
      then clean none
      else elim key [ DrawKey.auto_draw ↦ clean (some (automatic (is_true v))) | _ ↦ clean_level v ]

  -- the loop over `DRAW_KEYS`; `data_of` is what the request has for a key
  unfoldable pub clean_settings : (DrawKey → Option Json) → List DrawKey → Cleaned Draws
  unfolding clean_setting
  clean_settings data_of [] = clean []
  clean_settings data_of (key ∷ rest) =
      let others = clean_settings data_of rest in
      elim (data_of key) [
        | none ↦ others
        | some v ↦
            then_clean (clean_setting key v) (λ s. then_clean others (λ l. clean ((key, s) ∷ l)))
      ]

  abbrev pub level_of : DrawKey → Draws → Option ℕ
  level_of key [] = none
  level_of key ((k, s) ∷ rest) =
      if draw_number k == draw_number key
      then elim s [ some (amount n) ↦ some n | _ ↦ none ]
      else level_of key rest

  -- the lowest difficulty is above the highest
  abbrev pub is_reversed : Draws → Bool
  is_reversed draws = elim (level_of DrawKey.level_min draws) [
    | none ↦ false
    | some low ↦ elim (level_of DrawKey.level_max draws) [ none ↦ false | some high ↦ ltb high low ]
  ]

  -- `clean_draw`, of a dictionary
  unfoldable pub clean_draw : (DrawKey → Option Json) → Cleaned Draws
  unfolding clean_settings
  clean_draw data_of =
      then_clean (clean_settings data_of draw_keys)
        (λ draws. if is_reversed draws then invalid else clean draws)

abbrev pub is_draw : Key → Bool
is_draw (rule r) = false
is_draw (draw d) = true

-- `result.pop(key, None)`
unfoldable pub pop : Key → Settings → Settings
pop key settings = keep (λ (k, v). not (same_key k key)) settings

-- the drawing settings that were stored
unfoldable pub copy_draws : Settings → List DrawKey → Settings → Settings
unfolding find put
copy_draws stored [] result = result
copy_draws stored (key ∷ rest) result = elim (find same_key (draw key) stored) [
  | none ↦ copy_draws stored rest result
  | some v ↦ copy_draws stored rest (put same_key (draw key) v result)
]

-- the drawing settings that change
unfoldable pub set_draws : Draws → Settings → Settings
unfolding put pop
set_draws [] result = result
set_draws ((key, none) ∷ rest) result = set_draws rest (pop (draw key) result)
set_draws ((key, some v) ∷ rest) result = set_draws rest (put same_key (draw key) v result)

-- `with_draw`
unfoldable pub with_draw : Settings → Option Settings → Draws → Settings
unfolding copy_draws set_draws
with_draw stored rules draws =
    let base : Settings = elim rules [
      | none ↦ keep (λ (k, v). not (is_draw k)) stored
      | some r ↦ r
    ] in
    set_draws draws (copy_draws stored draw_keys base)
