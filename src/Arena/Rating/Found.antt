-- ===== src/Arena/Rating/Found.antt =====
-- judge/arena/rating.py: what the loop of `_battles` over the games finds.
use mathlib.Core.List.{append-nil, append_assoc}
use cpcjudge_site.Base.{
  ℕ, ◌==◌, ==_iff, max, false, Option, none, some, List, [], ◌∷◌, ◌++◌, if◌then◌else◌, ◌≡◌, refl,
  sym, ◌∙◌, ap, subst, inl, inr, Bool-cases, Option-cases, arith,
}
use cpcjudge_site.Arena.Outcome.{Slot}
use cpcjudge_site.Arena.Rating.Dictionary.{Table, find, put}
use cpcjudge_site.Arena.Rating.Keyed.{IsKeyed, put-IsKeyed, find-put, find-put_other, differ-sym}
use cpcjudge_site.Arena.Rating.{GameRow, FoundBattle, latest, count_game, count_games, battles}

-- the later of two moments that may be missing
abbrev pub later : Option ℕ → Option ℕ → Option ℕ
later none o = o
later (some t) none = some t
later (some t) (some u) = some (max t u)

-- the last moment of the games of a battle, and their winners in order
abbrev pub last_of : ℕ → List GameRow → Option ℕ
last_of id [] = none
last_of id (g ∷ rest) =
    let others = last_of id rest in if g.match_id == id then later g.finished_at others else others

abbrev pub winners_of : ℕ → List GameRow → List Slot
winners_of id [] = []
winners_of id (g ∷ rest) =
    let others = winners_of id rest in if g.match_id == id then g.winner ∷ others else others

later_assoc : (a b c : Option ℕ) → later (later a b) c ≡ later a (later b c)
later_assoc none b c = refl
later_assoc (some t) none c = refl
later_assoc (some t) (some u) none = refl
later_assoc (some t) (some u) (some v) = ap some (ground arith)

later-none : (a : Option ℕ) → later a none ≡ a
later-none none = refl
later-none (some t) = refl

latest-later : (a b : Option ℕ) → latest a b ≡ later b a
latest-later none none = refl
latest-later none (some u) = refl
latest-later (some t) none = refl
latest-later (some t) (some u) = ground arith

latest_self : (a : Option ℕ) → latest a a ≡ a
latest_self none = refl
latest_self (some t) = ground arith

-- what a battle found so far says
unfoldable pub last_in : Option FoundBattle → Option ℕ
last_in none = none
last_in (some f) = f.last

unfoldable pub winners_in : Option FoundBattle → List Slot
winners_in none = []
winners_in (some f) = f.winners

abbrev counted : GameRow → Option FoundBattle → FoundBattle
counted g none = record {
  a = g.a;
  b = g.b;
  winners = [] ++ g.winner ∷ [];
  last = latest g.finished_at g.finished_at;
}
counted g (some f) = record f {
  winners = f.winners ++ g.winner ∷ [];
  last = latest g.finished_at f.last;
}

count_game-counted :
    (battles : Table ℕ FoundBattle) (g : GameRow)
    → count_game battles g ≡ put ◌==◌ g.match_id (counted g (find ◌==◌ g.match_id battles)) battles
unfolding count_game
count_game-counted battles g = elim (Option-cases (find ◌==◌ g.match_id battles)) [
  | inl e ↦ rw (e) refl
  | inr (f, e) ↦ rw (e) refl
]

last-counted :
    (g : GameRow) (o : Option FoundBattle) → (counted g o).last ≡ later (last_in o) g.finished_at
unfolding last_in
last-counted g none = latest_self g.finished_at
last-counted g (some f) = latest-later g.finished_at f.last

winners-counted :
    (g : GameRow) (o : Option FoundBattle) → (counted g o).winners ≡ winners_in o ++ g.winner ∷ []
unfolding winners_in
winners-counted g none = refl
winners-counted g (some f) = refl

-- one turn of the loop, for one battle
count_game-own :
    (battles : Table ℕ FoundBattle) (g : GameRow)
    → find ◌==◌ g.match_id (count_game battles g) ≡ some (counted g (find ◌==◌ g.match_id battles))
count_game-own battles g =
    rw (count_game-counted battles g)
      (find-put ◌==◌ ==_iff g.match_id (counted g (find ◌==◌ g.match_id battles)) battles)

count_game-other :
    (id : ℕ) (battles : Table ℕ FoundBattle) (g : GameRow)
    → (g.match_id == id) ≡ false
    → find ◌==◌ id (count_game battles g) ≡ find ◌==◌ id battles
count_game-other id battles g h = rw (count_game-counted battles g) (
    find-put_other ◌==◌ ==_iff id g.match_id (counted g (find ◌==◌ g.match_id battles)) battles
      (differ-sym ◌==◌ ==_iff g.match_id id h))

pub last-count_games :
    (id : ℕ) (battles : Table ℕ FoundBattle) (rows : List GameRow)
    → last_in (find ◌==◌ id (count_games battles rows))
      ≡ later (last_in (find ◌==◌ id battles)) (last_of id rows)
unfolding count_games last_in
last-count_games id battles [] = sym (later-none (last_in (find ◌==◌ id battles)))
last-count_games id battles (g ∷ rest) = elim (Bool-cases (g.match_id == id)) [
  | inl e ↦
      let same : g.match_id ≡ id = (==_iff g.match_id id).0 e in
      let now : last_in (find ◌==◌ id (count_game battles g))
          ≡ later (last_in (find ◌==◌ id battles)) g.finished_at =
        subst
          (λ k.
            last_in (find ◌==◌ k (count_game battles g))
            ≡ later (last_in (find ◌==◌ k battles)) g.finished_at)
          same
          (ap last_in (count_game-own battles g) ∙ last-counted g (find ◌==◌ g.match_id battles)) in
      rw (e) (
        last-count_games id (count_game battles g) rest
        ∙ ap (λ o. later o (last_of id rest)) now
        ∙ later_assoc (last_in (find ◌==◌ id battles)) g.finished_at (last_of id rest))
  | inr e ↦ rw (e) (
      last-count_games id (count_game battles g) rest
      ∙ ap (λ o. later (last_in o) (last_of id rest)) (count_game-other id battles g e))
]

pub winners-count_games :
    (id : ℕ) (battles : Table ℕ FoundBattle) (rows : List GameRow)
    → winners_in (find ◌==◌ id (count_games battles rows))
      ≡ winners_in (find ◌==◌ id battles) ++ winners_of id rows
unfolding count_games winners_in
winners-count_games id battles [] = sym (append-nil (winners_in (find ◌==◌ id battles)))
winners-count_games id battles (g ∷ rest) = elim (Bool-cases (g.match_id == id)) [
  | inl e ↦
      let same : g.match_id ≡ id = (==_iff g.match_id id).0 e in
      let now : winners_in (find ◌==◌ id (count_game battles g))
          ≡ winners_in (find ◌==◌ id battles) ++ g.winner ∷ [] =
        subst
          (λ k.
            winners_in (find ◌==◌ k (count_game battles g))
            ≡ winners_in (find ◌==◌ k battles) ++ g.winner ∷ [])
          same
          (ap winners_in (count_game-own battles g)
            ∙ winners-counted g (find ◌==◌ g.match_id battles)) in
      rw (e) (
        winners-count_games id (count_game battles g) rest
        ∙ ap (λ l. l ++ winners_of id rest) now
        ∙ append_assoc (winners_in (find ◌==◌ id battles)) (g.winner ∷ []) (winners_of id rest))
  | inr e ↦ rw (e) (
      winners-count_games id (count_game battles g) rest
      ∙ ap (λ o. winners_in o ++ winners_of id rest) (count_game-other id battles g e))
]

pub count_games-IsKeyed :
    (battles : Table ℕ FoundBattle) (rows : List GameRow)
    → IsKeyed ◌==◌ ==_iff battles
    → IsKeyed ◌==◌ ==_iff (count_games battles rows)
unfolding count_games
count_games-IsKeyed battles [] h = h
count_games-IsKeyed battles (g ∷ rest) h = count_games-IsKeyed (count_game battles g) rest (
    subst (IsKeyed ◌==◌ ==_iff) (sym (count_game-counted battles g))
      (put-IsKeyed ◌==◌ ==_iff g.match_id (counted g (find ◌==◌ g.match_id battles)) battles h))
