-- ===== src/Arena/Bracket/Links.antt =====
-- judge/arena/tournament.py: where the winners of a new bracket go.
use cpcjudge_site.Base.{
  ℕ, zero, suc, ◌+◌, ◌*◌, ◌/◌, ◌%◌, ◌==◌, true, false, Option, some, List, [], ◌∷◌, ◌++◌, length,
  length-append, map, get_elem?, ◌≡◌, refl, sym, ◌∙◌, ap, ap₂, ◌≤◌, arith,
}
use cpcjudge_site.Arena.Outcome.{Slot, slot_a, slot_b}
use cpcjudge_site.Arena.Seeding.{bracket_size, round_count}
use cpcjudge_site.Arena.Seeding.Doubling.{pow2}
use cpcjudge_site.Arena.Seeding.Bracket.{round_count_lem}
use cpcjudge_site.Arena.Bracket.{BracketMatch}
use cpcjudge_site.Arena.Bracket.Rounds.{Round}
use cpcjudge_site.Arena.Bracket.Build.{shift, slot_at, next_of, level, levels, best_of_round}

-- Both places of each match of a round, in order.
abbrev pub both_slots : List BracketMatch → List (Option (ℕ × Slot))
both_slots [] = []
both_slots (m ∷ rest) = some (m.id, slot_a) ∷ some (m.id, slot_b) ∷ both_slots rest

-- From the last round to the first: the winners of a round take both places of each match of the next one.
abbrev pub AreLinked : List (List BracketMatch) → Type 0
AreLinked [] = Unit
AreLinked (above ∷ []) = Unit
AreLinked (above ∷ below ∷ rest) =
    (map (λ m. m.next_match) below ≡ both_slots above) × AreLinked (below ∷ rest)

halved : (x : ℕ) → 2 * x / 2 ≡ x
halved x = omega arith

shift-pow2 : (n k : ℕ) → shift (pow2 (n + k)) n ≡ pow2 k
unfolding shift
shift-pow2 zero k = ap pow2 (omega arith)
shift-pow2 (suc n) k =
    let half : pow2 (suc n + k) / 2 ≡ pow2 (n + k) =
      ap (λ x. pow2 x / 2) {x = suc n + k} {y = suc (n + k)} (omega arith)
      ∙ halved (pow2 (n + k)) in
    ap (λ s. shift s n) half ∙ shift-pow2 n k

get-middle :
    (before after : List BracketMatch) (m : BracketMatch)
    → get_elem? (before ++ m ∷ after) (length before) ≡ some m
get-middle [] after m = refl
get-middle (x ∷ rest) after m = get-middle rest after m

length-level :
    (n position id round best_of : ℕ) (following : List BracketMatch)
    → length (level n position id round best_of following) ≡ n
unfolding level
length-level zero position id round best_of following = refl
length-level (suc n) position id round best_of following =
    omega (arith, length-level n (suc position) (suc id) round best_of following)

slot_at-even : (k : ℕ) → slot_at (2 * k) ≡ slot_a
slot_at-even k = rw (even k) refl
  where
    even : (k : ℕ) → (2 * k % 2 == 0) ≡ true
    even k = ground arith

slot_at-odd : (k : ℕ) → slot_at (suc (2 * k)) ≡ slot_b
slot_at-odd k = rw (odd k) refl
  where
    odd : (k : ℕ) → (suc (2 * k) % 2 == 0) ≡ false
    odd k = ground arith

next-at :
    (following : List BracketMatch) (position : ℕ) (m : BracketMatch)
    → get_elem? following (position / 2) ≡ some m
    → next_of following position ≡ some (m.id, slot_at position)
next-at following position m h = rw (next_of, h) refl

next-even :
    (before rest : List BracketMatch) (m : BracketMatch)
    → next_of (before ++ m ∷ rest) (2 * length before) ≡ some (m.id, slot_a)
next-even before rest m =
    next-at (before ++ m ∷ rest) (2 * length before) m
      (ap (get_elem? (before ++ m ∷ rest)) (halved (length before)) ∙ get-middle before rest m)
    ∙ ap (λ s. some (m.id, s)) (slot_at-even (length before))

next-odd :
    (before rest : List BracketMatch) (m : BracketMatch)
    → next_of (before ++ m ∷ rest) (suc (2 * length before)) ≡ some (m.id, slot_b)
next-odd before rest m =
    let half : suc (2 * length before) / 2 ≡ length before = omega arith in
    next-at (before ++ m ∷ rest) (suc (2 * length before)) m
      (ap (get_elem? (before ++ m ∷ rest)) half ∙ get-middle before rest m)
    ∙ ap (λ s. some (m.id, s)) (slot_at-odd (length before))

append-one :
    (before rest : List BracketMatch) (m : BracketMatch)
    → (before ++ m ∷ []) ++ rest ≡ before ++ m ∷ rest
append-one [] rest m = refl
append-one (x ∷ before) rest m = ap (λ l. x ∷ l) (append-one before rest m)

level-both :
    (before following : List BracketMatch) (n position id round best_of : ℕ)
    → n ≡ 2 * length following
    → position ≡ 2 * length before
    → map (λ m. m.next_match) (level n position id round best_of (before ++ following))
      ≡ both_slots following
unfolding level
level-both before [] zero position id round best_of e f = refl
level-both before [] (suc n) position id round best_of e f = absurd (omega (arith, e))
level-both before (m ∷ rest) zero position id round best_of e f = absurd (omega (arith, e))
level-both before (m ∷ rest) (suc zero) position id round best_of e f = absurd (omega (arith, e))
level-both before (m ∷ rest) (suc (suc n)) position id round best_of e f =
    let first : next_of (before ++ m ∷ rest) position ≡ some (m.id, slot_a) =
      ap (next_of (before ++ m ∷ rest)) f ∙ next-even before rest m in
    let second : next_of (before ++ m ∷ rest) (suc position) ≡ some (m.id, slot_b) =
      ap (λ p. next_of (before ++ m ∷ rest) (suc p)) f ∙ next-odd before rest m in
    let others =
      level-both (before ++ m ∷ []) rest n (suc (suc position)) (suc (suc id)) round best_of
        (omega (arith, e)) (omega (arith, f, length-append before (m ∷ []))) in
    ap₂ (λ x l. x ∷ l) first
      (ap₂ (λ x l. x ∷ l) second
        (ap
            (λ l.
              map (λ k. k.next_match) (level n (suc (suc position)) (suc (suc id)) round best_of l))
            (sym (append-one before rest m))
          ∙ others))

-- the rounds below one of `2 ^ k` matches, and that round
below-AreLinked :
    (n k size : ℕ) (rounds : List Round) (id : ℕ) (above : List BracketMatch)
    → size ≡ pow2 (n + suc k)
    → length above ≡ pow2 k
    → AreLinked (above ∷ levels n size rounds id above)
unfolding levels
below-AreLinked zero k size rounds id above e h = tt
below-AreLinked (suc n) k size rounds id above e h =
    let number : shift size (suc n) ≡ pow2 (suc k) =
      ap (λ s. shift s (suc n)) e ∙ shift-pow2 (suc n) (suc k) in
    let own = level (shift size (suc n)) 0 id (suc n) (best_of_round (suc n) rounds) above in
    (
      level-both [] above (shift size (suc n)) 0 id (suc n) (best_of_round (suc n) rounds)
          (omega (arith, number, h)) (omega arith),
      below-AreLinked n (suc k) size rounds (id + shift size (suc n)) own
          (e ∙ ap pow2 (omega arith))
          (length-level (shift size (suc n)) 0 id (suc n) (best_of_round (suc n) rounds) above
            ∙ number),
    )

levels-linked :
    (r size : ℕ) (rounds : List Round) (id : ℕ)
    → size ≡ pow2 r
    → AreLinked (levels r size rounds id [])
unfolding levels
levels-linked zero size rounds id e = tt
levels-linked (suc r) size rounds id e =
    let one : shift size (suc r) ≡ pow2 0 =
      ap (λ s. shift s (suc r)) (e ∙ ap pow2 {x = suc r} {y = suc r + 0} (omega arith))
      ∙ shift-pow2 (suc r) 0 in
    below-AreLinked r 0 size rounds (id + shift size (suc r))
      (level (shift size (suc r)) 0 id (suc r) (best_of_round (suc r) rounds) [])
      (e ∙ ap pow2 {x = suc r} {y = r + suc 0} (omega arith))
      (length-level (shift size (suc r)) 0 id (suc r) (best_of_round (suc r) rounds) [] ∙ one)

-- In the bracket made for `n` participants, at least one, the winners of each round go, in order, to both
-- places of each match of the next round: no place of a later round is left without a match that fills it,
-- and none is filled by two.
pub levels-AreLinked :
    (n : ℕ) (rounds : List Round) (id : ℕ)
    → 1 ≤ n
    → AreLinked (levels (round_count n) (bracket_size n) rounds id [])
levels-AreLinked n rounds id h =
    levels-linked (round_count n) (bracket_size n) rounds id (round_count_lem n h)
