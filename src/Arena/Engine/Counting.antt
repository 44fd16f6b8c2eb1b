-- ===== src/Arena/Engine/Counting.antt =====
-- judge/arena/engine.py: how saving, adding and dropping games changes how many there are of a kind.
use cpcjudge_site.Base.{
  ℕ, ◌+◌, ◌≤◌, ◌≡◌, ap, subst, refl, ◌⊎◌, inl, inr, Bool, true, false, not, ◌&&◌, Option, none,
  some, List, [], ◌∷◌, ◌++◌, ltb, ◌==◌, if◌then◌else◌, keep, count, Bool-cases, Option-cases,
  ==_iff, ==_refl, arith,
}
use cpcjudge_site.Arena.Outcome.{Slot, slot_a, slot_b}
use cpcjudge_site.Arena.Engine.Rows.{
  Game, GameStatus, find_game, save_game, current_prepared_game, is_active, is_prepared,
  is_unplayed, finished,
}
use cpcjudge_site.Arena.Engine.Actions.{void_started}

abbrev pub number : Bool → ℕ
number b = if b then 1 else 0

-- a game that the player of the slot won
abbrev pub won_by : Slot → Game → Bool
won_by slot g = is_finished g.status && same_slot slot g.winner_slot
  where
    is_finished : GameStatus → Bool
    is_finished finished = true
    is_finished _ = false

    same_slot : Slot → Option Slot → Bool
    same_slot s none = false
    same_slot slot_a (some slot_a) = true
    same_slot slot_b (some slot_b) = true
    same_slot _ _ = false

abbrev pub active : Game → Bool
active g = is_active g.status

abbrev pub has_id : ℕ → Game → Bool
has_id id g = g.id == id

abbrev pub In : Game → List Game → Type 0
In g [] = ⊥
In g (h ∷ rest) = (h ≡ g) ⊎ In g rest

-- Saving a game replaces the one of its identifier.
pub count-save :
    (p : Game → Bool) (g old : Game) (games : List Game)
    → find_game g.id games ≡ some old
    → count p (save_game g games) + number (p old) ≡ count p games + number (p g)
unfolding find_game save_game count
count-save p g old [] h = absurd (ground arith)
count-save p g old (k ∷ rest) h = elim (Bool-cases (k.id == g.id)) [
  | inl e ↦ let same : k ≡ old = ground arith in rw (e, same) (omega arith)
  | inr e ↦ let ih = count-save p g old rest (ground arith) in rw e (omega arith)
]

pub find_game-id : (id : ℕ) (g : Game) (games : List Game) → find_game id games ≡ some g → g.id ≡ id
unfolding find_game
find_game-id id g [] h = absurd (ground arith)
find_game-id id g (k ∷ rest) h = elim (Bool-cases (k.id == id)) [
  | inl e ↦ let same : k ≡ g = ground arith in let same_id : k.id ≡ id = (==_iff k.id id).0 e in cc
  | inr e ↦ find_game-id id g rest (ground arith)
]

pub count-append :
    (p : Game → Bool) (games : List Game) (g : Game)
    → count p (games ++ g ∷ []) ≡ count p games + number (p g)
unfolding count
count-append p [] g = omega arith
count-append p (h ∷ rest) g = omega (arith, count-append p rest g)

-- What is dropped is not counted.
pub count-keep :
    (p : Game → Bool) (games : List Game)
    → ((g : Game) → is_unplayed g ≡ true → p g ≡ false)
    → count p (keep (λ g. not (is_unplayed g)) games) ≡ count p games
unfolding count keep
count-keep p [] h = refl
count-keep p (g ∷ rest) h = elim (Bool-cases (is_unplayed g)) [
  | inl e ↦ rw (e, h g e) (omega (arith, count-keep p rest h))
  | inr e ↦ rw e (omega (arith, count-keep p rest h))
]

pub count-keep_≤ : (p q : Game → Bool) (games : List Game) → count p (keep q games) ≤ count p games
unfolding count keep
count-keep_≤ p q [] = omega arith
count-keep_≤ p q (g ∷ rest) = elim (Bool-cases (q g)) [
  | inl e ↦ rw e (omega (arith, count-keep_≤ p q rest))
  | inr e ↦ rw e (omega (arith, count-keep_≤ p q rest))
]

pub won-void_started :
    (slot : Slot) (now : ℕ) (by : Game → Option ℕ) (games : List Game)
    → count (won_by slot) (void_started now by games) ≡ count (won_by slot) games
unfolding count void_started
won-void_started slot now by [] = refl
won-void_started slot now by (g ∷ rest) = ground (arith, won-void_started slot now by rest)

pub active-void_started :
    (now : ℕ) (by : Game → Option ℕ) (games : List Game)
    → count active (void_started now by games) ≡ 0
unfolding count void_started
active-void_started now by [] = refl
active-void_started now by (g ∷ rest) = ground (arith, active-void_started now by rest)

pub id-void_started :
    (id now : ℕ) (by : Game → Option ℕ) (games : List Game)
    → count (has_id id) (void_started now by games) ≡ count (has_id id) games
unfolding count void_started
id-void_started id now by [] = refl
id-void_started id now by (g ∷ rest) = ground (arith, id-void_started id now by rest)

In-count : (g : Game) (games : List Game) → In g games → 1 ≤ count (has_id g.id) games
unfolding count
In-count g [] m = absurd m
In-count g (h ∷ rest) (inl e) = rw (e, ==_refl g.id) (omega arith)
In-count g (h ∷ rest) (inr m) = omega (arith, In-count g rest m)

-- With no identifier twice, a game of the battle is the one its identifier finds.
pub find-In :
    (g : Game) (games : List Game)
    → ((id : ℕ) → count (has_id id) games ≤ 1)
    → In g games
    → find_game g.id games ≡ some g
unfolding find_game count
find-In g [] d m = absurd m
find-In g (h ∷ rest) d (inl e) = rw (e, ==_refl g.id) refl
find-In g (h ∷ rest) d (inr m) = elim (Bool-cases (h.id == g.id)) [
  | inl e ↦
      let twice : number (h.id == g.id) + count (has_id g.id) rest ≤ 1 = d g.id in
      let some_left = In-count g rest m in absurd (ground arith)
  | inr e ↦ rw e (find-In g rest (λ id. omega (arith, d id)) m)
]

pub In-append : (g : Game) (games : List Game) → In g (games ++ g ∷ [])
In-append g [] = inl refl
In-append g (h ∷ rest) = inr (In-append g rest)

pub In-current_prepared :
    (g : Game) (games : List Game)
    → current_prepared_game games ≡ some g
    → In g games × (is_prepared g.status ≡ true)
unfolding current_prepared_game
In-current_prepared g [] h = absurd (ground arith)
In-current_prepared g (k ∷ rest) h = elim (Option-cases (current_prepared_game rest)) [
  | inl e ↦ elim (Bool-cases (is_prepared k.status)) [
    | inl p ↦
        let same : k ≡ g = ground arith in
        (inl same, subst (λ x. is_prepared x.status ≡ true) same p)
    | inr p ↦ absurd (ground arith)
  ]
  | inr (found, e) ↦
      let (inside, kind) = In-current_prepared found rest e in
      elim (Bool-cases (is_prepared k.status && not (ltb found.number k.number))) [
        | inl p ↦
            let same : k ≡ g = ground arith in
            let prepared_k : is_prepared k.status ≡ true = ground arith in
            (inl same, subst (λ x. is_prepared x.status ≡ true) same prepared_k)
        | inr p ↦
            let same : found ≡ g = ground arith in
            (
              inr (subst (λ x. In x rest) same inside),
              subst (λ x. is_prepared x.status ≡ true) same kind,
            )
      ]
]

-- Saving a game that is of the kind exactly when the one it replaces was.
pub count-save_same :
    (p : Game → Bool) (g old : Game) (games : List Game)
    → find_game g.id games ≡ some old
    → p g ≡ p old
    → count p (save_game g games) ≡ count p games
count-save_same p g old games h e =
    let c = count-save p g old games h in
    let d : number (p g) ≡ number (p old) = ap number e in omega arith

-- Saving a game that is of the kind only if the one it replaces was.
pub count-save_≤ :
    (p : Game → Bool) (g old : Game) (games : List Game)
    → find_game g.id games ≡ some old
    → (p g ≡ true → p old ≡ true)
    → count p (save_game g games) ≤ count p games
count-save_≤ p g old games h e =
    let c = count-save p g old games h in
    elim (Bool-cases (p g)) [ inl t ↦ ground (arith, e t) | inr f ↦ ground arith ]

pub unplayed-quiet : (g : Game) → is_unplayed g ≡ true → active g ≡ false
unplayed-quiet g h = ground arith

pub unplayed-unwon : (slot : Slot) (g : Game) → is_unplayed g ≡ true → won_by slot g ≡ false
unplayed-unwon slot g h = ground arith
