-- ===== src/Arena/Rating/Recompute.antt =====
-- judge/arena/rating.py: after `recompute`, `check` finds nothing.
use cpcjudge_site.Base.{◌==◌, ==_iff, ==_refl, Bool, true, List, [], ◌∷◌, ◌≡◌, refl, ap, ap₂, arith}
use cpcjudge_site.Arena.Rating.Dictionary.{same_pair}
use cpcjudge_site.Arena.Rating.{RatedBattle, RatedMatch, battles}
use cpcjudge_site.Arena.Rating.Compute.{
  Strength, Formula, Player, Change, Players, Changes, compute, rate_battles, rate_battle,
  rate_player,
}
use cpcjudge_site.Arena.Rating.Sync.{
  Stored, check, recompute, same_strength, same_rating, same_change,
}
use cpcjudge_site.Arena.Rating.Keyed.{IsKeyed, IsLawful, put-IsKeyed}
use cpcjudge_site.Arena.Rating.Settled.{sync-behind}

number-IsLawful : IsLawful ◌==◌
number-IsLawful j k = ==_iff j k

pair-IsLawful : IsLawful same_pair
pair-IsLawful (a, b) (c, d) = (
  λ h. ap₂ (λ x y. (x, y)) (ground (arith, h)) (ground (arith, h)),
  λ e.
      let first : a ≡ c = ap (λ x. x.0) e in
      let second : b ≡ d = ap (λ x. x.1) e in ground (arith, first, second),
)

same_strength_self :
    {F : Type 0} (close : F → F → Bool)
    → ((x : F) → close x x ≡ true)
    → (s : Strength F) → same_strength close s s ≡ true
same_strength_self close h s = rw (h s.rating, h s.deviation, h s.volatility) refl

same_rating_self :
    {F : Type 0} (close : F → F → Bool)
    → ((x : F) → close x x ≡ true)
    → (p : Player F) → same_rating close p p ≡ true
unfolding same_rating
same_rating_self close h p =
    rw
      (
        same_strength_self close h p.strength,
        ==_refl p.games,
        ==_refl p.wins,
        ==_refl p.battles,
        ==_refl p.last_played,
      )
      refl

same_change_self :
    {F : Type 0} (close : F → F → Bool)
    → ((x : F) → close x x ≡ true)
    → (c : Change F) → same_change close c c ≡ true
unfolding same_change
same_change_self close h c =
    rw
      (
        ==_refl c.time,
        h c.rating_before,
        same_strength_self close h c.after,
        ==_refl c.games,
        ==_refl c.wins,
        ==_refl c.games_total,
      )
      refl

module _ {F : Type 0} (f : Formula F) where
  abbrev AreKeyed : Players F × Changes F → Type 0
  AreKeyed (players, changes) =
      IsKeyed ◌==◌ number-IsLawful players × IsKeyed same_pair pair-IsLawful changes

  rate_battles-AreKeyed :
      (l : List RatedBattle) (st : Players F × Changes F)
      → AreKeyed st
      → AreKeyed (rate_battles f l st)
  unfolding rate_battles rate_battle rate_player
  rate_battles-AreKeyed [] st h = h
  rate_battles-AreKeyed (battle ∷ rest) (players, changes) (one, two) =
      rate_battles-AreKeyed rest (rate_battle f battle (players, changes)) (
        put-IsKeyed ◌==◌ number-IsLawful battle.b _ _
            (put-IsKeyed ◌==◌ number-IsLawful battle.a _ players one),
        put-IsKeyed same_pair pair-IsLawful (battle.match_id, battle.b) _ _
            (put-IsKeyed same_pair pair-IsLawful (battle.match_id, battle.a) _ changes two),
      )

  -- Whatever is stored, once `recompute` has run, `check` finds no row that differs from what the battles
  -- give, when every number is close to itself: a second run has nothing to write or delete.
  pub recompute-check :
      (close : F → F → Bool)
      → ((x : F) → close x x ≡ true)
      → (matches : List RatedMatch) (stored : Stored F)
      → check f close matches ((recompute f close matches stored).0) ≡ 0
  unfolding check recompute compute
  recompute-check close close_refl matches stored =
      let computed = rate_battles f (battles matches) ([], []) in
      let (players, changes) = rate_battles-AreKeyed (battles matches) ([], []) (tt, tt) in
      omega (
        arith,
        sync-behind ◌==◌ number-IsLawful (same_rating close) (same_rating_self close close_refl)
            stored.ratings (computed.0) players,
        sync-behind same_pair pair-IsLawful (same_change close) (same_change_self close close_refl)
            stored.changes (computed.1) changes,
      )
