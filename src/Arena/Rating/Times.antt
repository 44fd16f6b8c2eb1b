-- ===== src/Arena/Rating/Times.antt =====
-- judge/arena/rating.py: the battles found by `_battles`, and the games they are made of.
use cpcjudge_site.Base.{
  ℕ, Bool, count, ◌==◌, ==_iff, false, Option, none, some, List, [], ◌∷◌, All, ◌≡◌, refl, sym, ◌∙◌,
  ap, subst, inl, inr, Bool-cases, Option-cases, arith,
}
use cpcjudge_site.Arena.Rating.Dictionary.{Table, find}
use cpcjudge_site.Arena.Rating.Keyed.{IsKeyed, differ-sym, same_self, zip-All, map-All}
use cpcjudge_site.Arena.Rating.Counting.{IsOrdered, battles-IsOrdered, insert-All}
use cpcjudge_site.Arena.Rating.{
  GameRow, FoundBattle, count_games, RatedBattle, RatedMatch, timed, sorted, insert, comes_first,
  query, battles,
}
use cpcjudge_site.Arena.Rating.Found.{
  last_of, winners_of, last_in, winners_in, last-count_games, winners-count_games,
  count_games-IsKeyed,
}

-- each entry is the one found under its key
find-own :
    (battles : Table ℕ FoundBattle)
    → IsKeyed ◌==◌ ==_iff battles
    → All (λ (k, f). find ◌==◌ k battles ≡ some f) battles
unfolding find
find-own [] h = tt
find-own ((k, f) ∷ rest) (fresh, keyed) = (
  rw (same_self ◌==◌ ==_iff k) refl,
  zip-All (λ (j, v). (j == k) ≡ false) (λ (j, v). find ◌==◌ j rest ≡ some v)
      (λ (j, v). find ◌==◌ j ((k, f) ∷ rest) ≡ some v) rest
      (λ x other found. rw (differ-sym ◌==◌ ==_iff (x.0) k other) found) fresh
      (find-own rest keyed),
)

-- The time of a battle is the last moment of its games, and its winners are those of its games in order.
abbrev pub IsMadeOf : List GameRow → RatedBattle → Type 0
IsMadeOf rows x = (some x.time ≡ last_of x.match_id rows) × (x.winners ≡ winners_of x.match_id rows)

abbrev Tells : List GameRow → ℕ × FoundBattle → Type 0
Tells rows (id, f) = (f.last ≡ last_of id rows) × (f.winners ≡ winners_of id rows)

found-Tells : (rows : List GameRow) → All (Tells rows) (count_games [] rows)
unfolding last_in winners_in find
found-Tells rows =
    let table : Table ℕ FoundBattle = count_games [] rows in
    map-All (λ (k, f). find ◌==◌ k table ≡ some f) (Tells rows) table
      (λ x e. (
        sym (ap last_in e) ∙ last-count_games (x.0) [] rows,
        sym (ap winners_in e) ∙ winners-count_games (x.0) [] rows,
      ))
      (find-own table (count_games-IsKeyed [] rows tt))

timed-IsMadeOf :
    (rows : List GameRow) (found : Table ℕ FoundBattle)
    → All (Tells rows) found
    → All (IsMadeOf rows) (timed found)
unfolding timed
timed-IsMadeOf rows [] h = tt
timed-IsMadeOf rows ((id, f) ∷ rest) ((last, winners), others) = elim (Option-cases f.last) [
  | inl e ↦ rw (e) (timed-IsMadeOf rows rest others)
  | inr (t, e) ↦ rw (e) ((sym e ∙ last, winners), timed-IsMadeOf rows rest others)
]

sorted-All : (P : RatedBattle → Type 0) (l : List RatedBattle) → All P l → All P (sorted l)
unfolding sorted
sorted-All P [] h = tt
sorted-All P (x ∷ rest) (first, others) =
    insert-All P x (sorted rest) first (sorted-All P rest others)

abbrev pub has_id : ℕ → RatedBattle → Bool
has_id id x = x.match_id == id

-- how often the order has a battle
count-insert :
    (p : RatedBattle → Bool) (x : RatedBattle) (l : List RatedBattle)
    → count p (insert x l) ≡ count p (x ∷ l)
unfolding insert count
count-insert p x [] = refl
count-insert p x (y ∷ rest) = elim (Bool-cases (comes_first y x)) [
  | inl e ↦ let others = count-insert p x rest in rw (e) (ground arith)
  | inr e ↦ rw (e) refl
]

count-sorted : (p : RatedBattle → Bool) (l : List RatedBattle) → count p (sorted l) ≡ count p l
unfolding sorted count
count-sorted p [] = refl
count-sorted p (x ∷ rest) =
    let first = count-insert p x (sorted rest) in let others = count-sorted p rest in ground arith

abbrev pub once : Option ℕ → ℕ
once none = 0
once (some t) = 1

-- no battle of another key
timed-fresh :
    (id : ℕ) (found : Table ℕ FoundBattle)
    → All (λ (j, f). (j == id) ≡ false) found
    → count (has_id id) (timed found) ≡ 0
unfolding timed count
timed-fresh id [] h = refl
timed-fresh id ((j, f) ∷ rest) (other, others) = elim (Option-cases f.last) [
  | inl e ↦ rw (e) (timed-fresh id rest others)
  | inr (t, e) ↦ let more = timed-fresh id rest others in rw (e, other) (omega arith)
]

timed-once :
    (id : ℕ) (found : Table ℕ FoundBattle)
    → IsKeyed ◌==◌ ==_iff found
    → count (has_id id) (timed found) ≡ once (last_in (find ◌==◌ id found))
unfolding timed count find last_in
timed-once id [] h = refl
timed-once id ((j, f) ∷ rest) (fresh, keyed) = elim (Bool-cases (j == id)) [
  | inl e ↦
      let none_left : count (has_id id) (timed rest) ≡ 0 =
        timed-fresh id rest
          (subst (λ k. All (λ (i, w). (i == k) ≡ false) rest) ((==_iff j id).0 e) fresh) in
      elim (Option-cases f.last) [
        | inl k ↦ rw (e, k) none_left
        | inr (t, k) ↦ rw (e, k, e) (omega arith)
      ]
  | inr e ↦ elim (Option-cases f.last) [
    | inl k ↦ rw (k, e) (timed-once id rest keyed)
    | inr (t, k) ↦ let more = timed-once id rest keyed in rw (k, e) (omega arith)
  ]
]

battles-once :
    (id : ℕ) (matches : List RatedMatch)
    → count (has_id id) (battles matches) ≡ once (last_of id (query matches))
unfolding battles last_in find
battles-once id matches =
    let rows = query matches in
    count-sorted (has_id id) (timed (count_games [] rows))
    ∙ timed-once id (count_games [] rows) (count_games-IsKeyed [] rows tt)
    ∙ ap once (last-count_games id [] rows)

-- The battles that count come in the order of their times. Each battle is there once if one of its games
-- that count has a moment at which it finished, and not otherwise. Its time is the last of these moments,
-- whatever their order, and its winners are those of its games that count, in their order.
pub battles-AreMade :
    (matches : List RatedMatch)
    → IsOrdered (battles matches)
      × All (IsMadeOf (query matches)) (battles matches)
      × ((id : ℕ) → count (has_id id) (battles matches) ≡ once (last_of id (query matches)))
unfolding battles
battles-AreMade matches =
    let rows = query matches in
    (
      battles-IsOrdered matches,
      sorted-All (IsMadeOf rows) (timed (count_games [] rows))
          (timed-IsMadeOf rows (count_games [] rows) (found-Tells rows)),
      λ id. battles-once id matches,
    )
