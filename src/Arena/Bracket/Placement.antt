-- ===== src/Arena/Bracket/Placement.antt =====
-- judge/arena/tournament.py: what sending a player to a match does.
use cpcjudge_site.Base.{
  ℕ, ◌≡◌, refl, sym, ap, ◌∙◌, inl, inr, Bool, true, false, Option, some, List, [], ◌∷◌, ◌==◌,
  ==_refl, ==_iff, Bool-cases, arith,
}
use cpcjudge_site.Arena.Outcome.{Slot, slot_a, slot_b}
use cpcjudge_site.Arena.Engine.Rows.{MatchStatus, other, done, raise, require, refused, ArenaError}
use cpcjudge_site.Arena.Bracket.{
  BracketMatch, Tournament, find_match, save_match, place, placed, player, seed, has_both,
  settle_status,
}

find-save :
    (m old : BracketMatch) (matches : List BracketMatch)
    → find_match m.id matches ≡ some old
    → find_match m.id (save_match m matches) ≡ some m
unfolding find_match save_match
find-save m old [] h = absurd (ground arith)
find-save m old (k ∷ rest) h = elim (Bool-cases (k.id == m.id)) [
  | inl e ↦ rw (e, ==_refl m.id) refl
  | inr e ↦ rw (e, e) (find-save m old rest (ground arith))
]

find-save_other :
    (id : ℕ) (m : BracketMatch) (matches : List BracketMatch)
    → (m.id == id) ≡ false
    → find_match id (save_match m matches) ≡ find_match id matches
unfolding find_match save_match
find-save_other id m [] h = refl
find-save_other id m (k ∷ rest) h = elim (Bool-cases (k.id == m.id)) [
  | inl e ↦ let apart : (k.id == id) ≡ false = ground arith in rw (e, h, apart) refl
  | inr e ↦ let ih = find-save_other id m rest h in ground arith
]

find-id :
    (id : ℕ) (m : BracketMatch) (matches : List BracketMatch)
    → find_match id matches ≡ some m
    → m.id ≡ id
unfolding find_match
find-id id m [] h = absurd (ground arith)
find-id id m (k ∷ rest) h = elim (Bool-cases (k.id == id)) [
  | inl e ↦ let same : k ≡ m = ground arith in let same_id : k.id ≡ id = (==_iff k.id id).0 e in cc
  | inr e ↦ find-id id m rest (ground arith)
]

-- PENDING means a player is missing, READY that both are there.
abbrev pub IsConsistent : BracketMatch → Type 0
IsConsistent m =
    (m.status ≡ MatchStatus.pending → has_both m ≡ false)
    × (m.status ≡ MatchStatus.ready → has_both m ≡ true)

placed-keeps :
    (slot : Slot) (profile s : Option ℕ) (m : BracketMatch)
    → (player (placed slot profile s m) slot ≡ profile)
      × (seed (placed slot profile s m) slot ≡ s)
      × (player (placed slot profile s m) (other slot) ≡ player m (other slot))
placed-keeps slot_a profile s m = (refl, refl, refl)
placed-keeps slot_b profile s m = (refl, refl, refl)

settle-IsConsistent :
    (both : Bool) (status : MatchStatus)
    → (settle_status both status ≡ MatchStatus.pending → both ≡ false)
      × (settle_status both status ≡ MatchStatus.ready → both ≡ true)
settle-IsConsistent both status = ground arith

placed-IsConsistent :
    (slot : Slot) (profile s : Option ℕ) (m : BracketMatch) → IsConsistent (placed slot profile s m)
placed-IsConsistent slot_a profile s m = settle-IsConsistent _ m.status
placed-IsConsistent slot_b profile s m = settle-IsConsistent _ m.status

placed-id :
    (slot : Slot) (profile s : Option ℕ) (m : BracketMatch) → (placed slot profile s m).id ≡ m.id
placed-id slot_a profile s m = refl
placed-id slot_b profile s m = refl

place_open :
    (id : ℕ) (slot : Slot) (profile s : Option ℕ) (t : Tournament) (m : BracketMatch)
    → find_match id t.matches ≡ some m
    → m.played ≡ false
    → place id slot profile s t
      ≡ done (record t { matches = save_match (placed slot profile s m) t.matches })
unfolding place require
place_open id slot profile s t m found p = rw (place, found, p) refl

place_played :
    (id : ℕ) (slot : Slot) (profile s : Option ℕ) (t : Tournament) (m : BracketMatch)
    → find_match id t.matches ≡ some m
    → m.played ≡ true
    → place id slot profile s t ≡ raise refused
unfolding place require
place_played id slot profile s t m found p = rw (place, found, p) refl

done_same : {t t' : Tournament} → done t ≡ done t' → t ≡ t'
done_same h = ground arith

not_done : {t : Tournament} {e : ArenaError} → raise e ≡ done t → ⊥
not_done h = ground arith

-- A player that is sent to a match takes the seat named, with their seed, if no game of that match was
-- played; the other seat, and every other match, stay as they were; and the match waits for a player
-- exactly when one is missing, if it is waiting or ready.
pub place-IsConsistent :
    (id : ℕ) (slot : Slot) (profile s : Option ℕ) (t t' : Tournament) (m : BracketMatch)
    → find_match id t.matches ≡ some m
    → place id slot profile s t ≡ done t'
    → (m' : BracketMatch) × (find_match id t'.matches ≡ some m')
      × (m.played ≡ false)
      × (player m' slot ≡ profile)
      × (seed m' slot ≡ s)
      × (player m' (other slot) ≡ player m (other slot))
      × IsConsistent m'
      × ((k : ℕ) → (id == k) ≡ false → find_match k t'.matches ≡ find_match k t.matches)
place-IsConsistent id slot profile s t t' m found h = elim (Bool-cases m.played) [
  | inl p ↦ absurd (not_done (sym (place_played id slot profile s t m found p) ∙ h))
  | inr p ↦
      let target = placed slot profile s m in
      let same : record t { matches = save_match target t.matches } ≡ t' =
        done_same (sym (place_open id slot profile s t m found p) ∙ h) in
      let same_id : target.id ≡ id = placed-id slot profile s m ∙ find-id id m t.matches found in
      let (seat, seeded, kept) = placed-keeps slot profile s m in
      let stored : find_match target.id t.matches ≡ some m =
        ap (λ i. find_match i t.matches) same_id ∙ found in
      let saved : find_match id (save_match target t.matches) ≡ some target =
        ap (λ i. find_match i (save_match target t.matches)) (sym same_id)
        ∙ find-save target m t.matches stored in
      (
        target,
        ap (λ x. find_match id x.matches) (sym same) ∙ saved,
        p,
        seat,
        seeded,
        kept,
        placed-IsConsistent slot profile s m,
        λ k apart.
            ap (λ x. find_match k x.matches) (sym same)
            ∙ find-save_other k target t.matches (ap (λ i. i == k) same_id ∙ apart),
      )
]
