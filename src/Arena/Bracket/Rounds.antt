-- ===== src/Arena/Bracket/Rounds.antt =====
-- judge/arena/tournament.py: the participants of a tournament and its rounds.
use cpcjudge_site.Base.{
  ℕ, zero, suc, Bool, true, false, not, ◌&&◌, ◌||◌, Option, none, some, List, [], ◌∷◌, ◌++◌, ◌==◌,
  ltb, leb, if◌then◌else◌, contains, keep, length, map,
}
use cpcjudge_site.Arena.Engine.Rows.{Result, done, require, refused}
use cpcjudge_site.Arena.Seeding.{round_count}

pub data Seeding : Type 0 where
  manual random rating duel : Seeding

pub record Round : Type 0 where
  pub number : ℕ
  pub best_of : ℕ

abbrev pub min_participants : ℕ
min_participants = 2

abbrev pub max_participants : ℕ
max_participants = 64

-- the profiles given, each one once
unfoldable pub each_once : List ℕ → List (Option ℕ) → List ℕ
each_once seen [] = []
each_once seen (none ∷ rest) = each_once seen rest
each_once seen (some p ∷ rest) =
    let others = each_once (p ∷ seen) rest in
    let same = each_once seen rest in if contains p seen then same else p ∷ others

-- `_clean_participants`
unfoldable pub clean_participants : List (Option ℕ) → Result (List ℕ)
unfolding each_once
clean_participants profiles =
    let result = each_once [] profiles in
    require (not (ltb (length result) min_participants)) refused
      (require (not (ltb max_participants (length result))) refused (done result))

-- Whether `_refuse_self` lets the actor go on.
abbrev pub is_other : Option ℕ → List ℕ → Bool
is_other none profiles = true
is_other (some actor) profiles = not (contains actor profiles)

-- `sorted`, by whether one profile goes before another
pub insert : (ℕ → ℕ → Bool) → ℕ → List ℕ → List ℕ
insert before p [] = p ∷ []
insert before p (q ∷ rest) =
    let others = insert before p rest in if before q p then q ∷ others else p ∷ q ∷ rest

pub sort : (ℕ → ℕ → Bool) → List ℕ → List ℕ
unfolding insert
sort before [] = []
sort before (p ∷ rest) = insert before p (sort before rest)

-- Who goes first by a rating: who has one, then the higher one; `tie` decides between equals.
abbrev pub rates_before : (ℕ → Option ℕ) → (ℕ → ℕ → Bool) → ℕ → ℕ → Bool
rates_before of tie p q = elim (of p) [
  | none ↦ elim (of q) [ none ↦ tie p q | some _ ↦ false ]
  | some a ↦ elim (of q) [ none ↦ true | some b ↦ ltb b a || (a == b && tie p q) ]
]

-- `_ordered_by_seeding`: `shuffle` is the random one, and the ratings are those of the contests and of the duels.
pub ordered_by_seeding :
    (List ℕ → List ℕ) → (ℕ → Option ℕ) → (ℕ → Option ℕ) → Seeding → List ℕ → List ℕ
unfolding sort
ordered_by_seeding shuffle contest_rating duel_rating Seeding.manual profiles = profiles
ordered_by_seeding shuffle contest_rating duel_rating Seeding.random profiles = shuffle profiles
ordered_by_seeding shuffle contest_rating duel_rating Seeding.rating profiles =
    sort (rates_before contest_rating ltb) profiles
ordered_by_seeding shuffle contest_rating duel_rating Seeding.duel profiles =
    sort (rates_before duel_rating (rates_before contest_rating ltb)) profiles

abbrev pub numbers : List Round → List ℕ
numbers rounds = map (λ r. r.number) rounds

-- the rounds from 1 to `n` that do not exist
unfoldable pub missing : List Round → ℕ → List Round
missing rounds zero = []
missing rounds (suc n) =
    let before = missing rounds n in
    if contains (suc n) (numbers rounds)
    then before
    else before ++ record { number = suc n; best_of = 1 } ∷ []

-- `_sync_rounds`
unfoldable pub sync_rounds : ℕ → List Round → List Round
unfolding missing
sync_rounds count rounds =
    let left = keep (λ r. leb r.number (round_count count)) rounds in
    left ++ missing left (round_count count)
