-- ===== src/Arena/Rating/Counting.antt =====
-- judge/arena/rating.py: which battles count, and the order in which they do.
use cpcjudge_site.Base.{
  ℕ, ◌≤◌, Bool, not, ◌&&◌, ◌||◌, Option, none, some, is_some, List, [], ◌∷◌, All, if◌then◌else◌,
  ◌≡◌, inl, inr, Bool-cases, arith,
}
use cpcjudge_site.Arena.Engine.Rows.{MatchStatus}
use cpcjudge_site.Arena.Rating.{
  Ranking, DecidedReason, was_cancelled, was_bye, was_walkover, was_guest, RatedMatch, is_cancelled,
  is_decided, is_ranked, is_excluded, is_unplayed, never_reason, decision, counts_q, after_decided,
  RatedBattle, comes_first, insert, sorted, timed, count_games, query, battles,
}

-- the filter of the query, and the conditions of the pages, as tests on the columns
counts_columns :
    (tournament : Option Ranking) (own : Ranking) (status : MatchStatus) (reason : DecidedReason)
    (a b guest_a guest_b : Bool)
    → (elim tournament [ none ↦ is_ranked own | some t ↦ is_ranked t && not (is_excluded own) ]
        && (is_decided status && a && b && not guest_a && not guest_b)
        && not (is_unplayed reason))
      ≡ ((is_decided status && a && b)
          && (is_ranked (elim tournament [
            | none ↦ own
            | some t ↦ if is_excluded own then Ranking.excluded else t
          ])
              && not (
                  is_some (
                    if is_cancelled status then some was_cancelled else elim reason [
                      | DecidedReason.bye ↦ some was_bye
                      | DecidedReason.walkover ↦ some was_walkover
                      | DecidedReason.played ↦ if guest_a || guest_b then some was_guest else none
                    ]))))
counts_columns tournament own status reason a b guest_a guest_b = ground arith

-- The query finds a battle exactly when it is decided between two players, its decision is that it counts,
-- and there is no reason why it never counts: what `after_decided` asks of a decided battle.
pub counts_q-after_decided :
    (m : RatedMatch)
    → counts_q m
      ≡ ((is_decided m.status && is_some m.player_a && is_some m.player_b) && after_decided m)
unfolding counts_q after_decided decision never_reason
counts_q-after_decided m =
    counts_columns m.tournament_ranking m.ranking m.status m.decided_reason (is_some m.player_a)
      (is_some m.player_b) (is_some m.display_name_a) (is_some m.display_name_b)

-- in order of their times
abbrev pub IsOrdered : List RatedBattle → Type 0
IsOrdered [] = Unit
IsOrdered (x ∷ rest) = All (λ y. x.time ≤ y.time) rest × IsOrdered rest

pub insert-All :
    (P : RatedBattle → Type 0) (x : RatedBattle) (l : List RatedBattle)
    → P x
    → All P l
    → All P (insert x l)
unfolding insert
insert-All P x [] own h = (own, tt)
insert-All P x (y ∷ rest) own (first, others) = elim (Bool-cases (comes_first y x)) [
  | inl e ↦ rw (e) (first, insert-All P x rest own others)
  | inr e ↦ rw (e) (own, (first, others))
]

latest-All :
    (t s : ℕ) (l : List RatedBattle) → s ≤ t → All (λ y. t ≤ y.time) l → All (λ y. s ≤ y.time) l
latest-All t s [] le h = tt
latest-All t s (y ∷ rest) le (first, others) =
    (omega (arith, first, le), latest-All t s rest le others)

insert-IsOrdered : (x : RatedBattle) (l : List RatedBattle) → IsOrdered l → IsOrdered (insert x l)
unfolding insert
insert-IsOrdered x [] h = (tt, tt)
insert-IsOrdered x (y ∷ rest) (first, others) = elim (Bool-cases (comes_first y x)) [
  | inl e ↦
      let le : y.time ≤ x.time = ground arith in
      rw (e) (insert-All (λ z. y.time ≤ z.time) x rest le first, insert-IsOrdered x rest others)
  | inr e ↦
      let le : x.time ≤ y.time = ground arith in
      rw (e) ((le, latest-All y.time x.time rest le first), (first, others))
]

sorted-IsOrdered : (l : List RatedBattle) → IsOrdered (sorted l)
unfolding sorted
sorted-IsOrdered [] = tt
sorted-IsOrdered (x ∷ rest) = insert-IsOrdered x (sorted rest) (sorted-IsOrdered rest)

-- the order of the battles
pub battles-IsOrdered : (matches : List RatedMatch) → IsOrdered (battles matches)
unfolding battles
battles-IsOrdered matches = sorted-IsOrdered (timed (count_games [] (query matches)))
