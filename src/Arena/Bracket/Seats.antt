-- ===== src/Arena/Bracket/Seats.antt =====
-- judge/arena/tournament.py: who plays the first round of a new bracket, and who may enter it.
use cpcjudge_site.Base.{
  ℕ, zero, suc, ◌-◌, ◌*◌, ◌==◌, ◌≤◌, ◌<◌, Bool, true, false, not, ◌&&◌, ◌||◌, some, is_some, List,
  [], ◌∷◌, length, get_elem?, if◌then◌else◌, ◌≡◌, refl, ◌∙◌, ap, subst, inl, inr, Bool-cases, arith,
}
use cpcjudge_site.Arena.Outcome.{Slot, slot_a, slot_b}
use cpcjudge_site.Arena.Engine.Rows.{MatchStatus, other}
use cpcjudge_site.Arena.Seeding.{bracket_size, seeding_order}
use cpcjudge_site.Arena.Seeding.Bracket.{byes_fall_on_best_seeds, seeding_order-permutes}
use cpcjudge_site.Arena.Bracket.{BracketMatch, player}
use cpcjudge_site.Arena.Bracket.Build.{seat, seated, seed_profile, bye}

-- the match of a position, after `seat`
get-seat :
    (participants order : List ℕ) (matches : List BracketMatch) (i a b : ℕ) (m : BracketMatch)
    → get_elem? order (2 * i) ≡ some a
    → get_elem? order (suc (2 * i)) ≡ some b
    → get_elem? matches i ≡ some m
    → get_elem? (seat participants order matches) i ≡ some (seated participants a b m)
unfolding seat
get-seat participants order [] i a b m ea eb em = absurd (ground arith)
get-seat participants [] (k ∷ rest) i a b m ea eb em = absurd (ground arith)
get-seat participants (x ∷ []) (k ∷ rest) i a b m ea eb em = absurd (ground arith)
get-seat participants (x ∷ y ∷ order) (k ∷ rest) zero a b m ea eb em =
    let ex : x ≡ a = ground (arith, ea) in
    let ey : y ≡ b = ground (arith, eb) in
    let ek : k ≡ m = ground (arith, em) in
    ap (λ z. some (seated participants z y k)) ex
    ∙ ap (λ z. some (seated participants a z k)) ey
    ∙ ap (λ z. some (seated participants a b z)) ek
get-seat participants (x ∷ y ∷ order) (k ∷ rest) (suc i) a b m ea eb em =
    let next : 2 * suc i ≡ suc (suc (2 * i)) = omega arith in
    get-seat participants order rest i a b m
      (subst (λ p. get_elem? (x ∷ y ∷ order) p ≡ some a) next ea)
      (subst (λ p. get_elem? (x ∷ y ∷ order) (suc p) ≡ some b) next eb) em

get-elem : {A : Type 0} (l : List A) (i : ℕ) → i < length l → is_some (get_elem? l i) ≡ true
get-elem [] i h = absurd (omega (arith, h))
get-elem (x ∷ rest) zero h = refl
get-elem (x ∷ rest) (suc i) h = get-elem rest i (omega (arith, h))

seed_profile-present :
    (participants : List ℕ) (s : ℕ)
    → 1 ≤ s
    → s ≤ length participants
    → is_some (seed_profile participants s) ≡ true
seed_profile-present participants s lo hi =
    let some_seed : (s == 0) ≡ false = ground (arith, lo) in
    rw (some_seed) (get-elem participants (s - 1) (omega (arith, lo, hi)))

either_left : (x y : Bool) → x ≡ true → (x || y) ≡ true
either_left x y h = ground arith

either_right : (x y : Bool) → y ≡ true → (x || y) ≡ true
either_right x y h = ground arith

one_alone :
    (x y : Bool) (status : MatchStatus)
    → (x || y) ≡ true
    → (if x && y then MatchStatus.ready else status) ≡ MatchStatus.pending
    → x ≡ not y
one_alone true true status h e = absurd (ground arith)
one_alone true false status h e = refl
one_alone false true status h e = refl
one_alone false false status h e = absurd (ground arith)

-- a decided match whose winner is there, alone
abbrev pub IsWonAlone : BracketMatch → Type 0
IsWonAlone m =
    (slot : Slot) × (m.winner_slot ≡ some slot)
    × (is_some (player m slot) ≡ true)
    × (is_some (player m (other slot)) ≡ false)

bye-IsWonAlone :
    (now : ℕ) (m : BracketMatch)
    → is_some m.player_a ≡ not (is_some m.player_b)
    → IsWonAlone (bye now m)
bye-IsWonAlone now m h = elim (Bool-cases (is_some m.player_a)) [
  | inl e ↦ (slot_a, rw e refl, e, ground arith)
  | inr e ↦ (slot_b, rw e refl, ground arith, e)
]

-- In the first round of a bracket for at least two participants, each match has a player, and one that is
-- still pending once they are seated has only that one: recorded as a bye, it is won by that player, who is
-- there, over an empty slot.
pub seat-HasPlayer :
    (now : ℕ) (participants : List ℕ) (matches : List BracketMatch) (i a b : ℕ) (m : BracketMatch)
    → 2 ≤ length participants
    → (let order = seeding_order (bracket_size (length participants)) in
        get_elem? order (2 * i) ≡ some a
        → get_elem? order (suc (2 * i)) ≡ some b
        → get_elem? matches i ≡ some m
        → (k : BracketMatch) × (get_elem? (seat participants order matches) i ≡ some k)
          × ((is_some k.player_a || is_some k.player_b) ≡ true)
          × (k.status ≡ MatchStatus.pending
              → (is_some k.player_a ≡ not (is_some k.player_b)) × IsWonAlone (bye now k)))
seat-HasPlayer now participants matches i a b m two ea eb em =
    let (there, _, _) = byes_fall_on_best_seeds (length participants) i a b two ea eb in
    let present : (is_some (seed_profile participants a) || is_some (seed_profile participants b))
        ≡ true =
      elim there [
        | inl le ↦ either_left _ _ (seed_profile-present participants a (in_range (2 * i) a ea) le)
        | inr le ↦
            either_right _ _ (seed_profile-present participants b (in_range (suc (2 * i)) b eb) le)
      ] in
    (
      seated participants a b m,
      get-seat participants (seeding_order (bracket_size (length participants))) matches i a b m ea
          eb em,
      present,
      λ pending.
          let alone =
            one_alone (is_some (seed_profile participants a))
              (is_some (seed_profile participants b)) m.status present pending in
          (alone, bye-IsWonAlone now (seated participants a b m) alone),
    )
  where
    in_range :
        (j s : ℕ)
        → get_elem? (seeding_order (bracket_size (length participants))) j ≡ some s
        → 1 ≤ s
    in_range j s e =
        let (_, _, range) = seeding_order-permutes (length participants) (omega (arith, two)) in
        (range j s e).0
