-- ===== src/Arena/Rating/Totals.antt =====
-- judge/arena/rating.py: what `compute` counts.
use cpcjudge_site.Base.{
  ℕ, ◌+◌, ◌*◌, ◌≤◌, ◌==◌, Bool, Option, none, some, List, [], ◌∷◌, length, count, All, ◌≡◌, refl,
  inl, inr, Bool-cases, arith,
}
use cpcjudge_site.Arena.Outcome.{Slot, slot_a, slot_b}
use cpcjudge_site.Arena.Bracket.{same_slot}
use cpcjudge_site.Arena.Rating.Dictionary.{Table, find, put}
use cpcjudge_site.Arena.Rating.{RatedBattle}
use cpcjudge_site.Arena.Rating.Compute.{
  Strength, Formula, Player, Players, Changes, totals, player_after, rate_player, before_of,
  rate_battle, rate_battles, compute,
}

-- a sum over the values of a dictionary
abbrev pub sum : {K V : Type 0} → (V → ℕ) → Table K V → ℕ
sum of [] = 0
sum of ((k, v) ∷ rest) = of v + sum of rest

abbrev pub in_old : {V : Type 0} → (V → ℕ) → Option V → ℕ
in_old of none = 0
in_old of (some v) = of v

sum-put :
    {K V : Type 0} (same : K → K → Bool) (of : V → ℕ) (k : K) (v : V) (t : Table K V)
    → sum of (put same k v t) + in_old of (find same k t) ≡ sum of t + of v
unfolding find put
sum-put same of k v [] = omega arith
sum-put same of k v ((j, w) ∷ rest) = elim (Bool-cases (same j k)) [
  | inl e ↦ rw (e) (omega arith)
  | inr e ↦ rw (e) (omega (arith, sum-put same of k v rest))
]

-- Every game has one winner.
count-winners :
    (winners : List Slot)
    → count (λ w. same_slot w slot_a) winners + count (λ w. same_slot w slot_b) winners
      ≡ length winners
unfolding count
count-winners [] = refl
count-winners (slot_a ∷ rest) = omega (arith, count-winners rest)
count-winners (slot_b ∷ rest) = omega (arith, count-winners rest)

count-length :
    (slot : Slot) (winners : List Slot) → count (λ w. same_slot w slot) winners ≤ length winners
unfolding count
count-length slot [] = omega arith
count-length slot (w ∷ rest) = elim (Bool-cases (same_slot w slot)) [
  | inl e ↦ rw (e) (omega (arith, count-length slot rest))
  | inr e ↦ rw (e) (omega (arith, count-length slot rest))
]

abbrev pub games_counted : List RatedBattle → ℕ
games_counted [] = 0
games_counted (battle ∷ rest) = length battle.winners + games_counted rest

module _ {F : Type 0} (f : Formula F) where
  totals-old :
      (o : Option (Player F))
      → ((totals f o).0 ≡ in_old (λ p. p.games) o)
        × ((totals f o).1 ≡ in_old (λ p. p.wins) o)
        × ((totals f o).2 ≡ in_old (λ p. p.battles) o)
  totals-old none = (refl, refl, refl)
  totals-old (some p) = (refl, refl, refl)

  rate_player-sum :
      (battle : RatedBattle) (profile : ℕ) (slot : Slot) (own rival : Strength F)
      (players : Players F) (changes : Changes F)
      → (let after = (rate_player f battle profile slot own rival (players, changes)).0 in
          (sum (λ p. p.games) after ≡ sum (λ p. p.games) players + length battle.winners)
          × (sum (λ p. p.wins) after
              ≡ sum (λ p. p.wins) players + count (λ w. same_slot w slot) battle.winners)
          × (sum (λ p. p.battles) after ≡ sum (λ p. p.battles) players + 1))
  unfolding rate_player player_after
  rate_player-sum battle profile slot own rival players changes =
      let state = player_after f players battle profile slot own rival in
      let old = find ◌==◌ profile players in
      let (games, wins, battles) = totals-old old in
      (
        omega (arith, sum-put ◌==◌ (λ p. p.games) profile state players, games),
        omega (arith, sum-put ◌==◌ (λ p. p.wins) profile state players, wins),
        omega (arith, sum-put ◌==◌ (λ p. p.battles) profile state players, battles),
      )

  rate_battle-sum :
      (battle : RatedBattle) (players : Players F) (changes : Changes F)
      → (let after = (rate_battle f battle (players, changes)).0 in
          (sum (λ p. p.games) after ≡ sum (λ p. p.games) players + 2 * length battle.winners)
          × (sum (λ p. p.wins) after ≡ sum (λ p. p.wins) players + length battle.winners)
          × (sum (λ p. p.battles) after ≡ sum (λ p. p.battles) players + 2))
  unfolding rate_battle
  rate_battle-sum battle players changes =
      let a = before_of f players battle.time battle.a in
      let b = before_of f players battle.time battle.b in
      let first = rate_player f battle battle.a slot_a a b (players, changes) in
      let (games_a, wins_a, battles_a) =
        rate_player-sum battle battle.a slot_a a b players changes in
      let (games_b, wins_b, battles_b) =
        rate_player-sum battle battle.b slot_b b a (first.0) (first.1) in
      (
        omega (arith, games_a, games_b),
        omega (arith, wins_a, wins_b, count-winners battle.winners),
        omega (arith, battles_a, battles_b),
      )

  rate_battles-sum :
      (battles : List RatedBattle) (players : Players F) (changes : Changes F)
      → (let after = (rate_battles f battles (players, changes)).0 in
          (sum (λ p. p.games) after ≡ sum (λ p. p.games) players + 2 * games_counted battles)
          × (sum (λ p. p.wins) after ≡ sum (λ p. p.wins) players + games_counted battles)
          × (sum (λ p. p.battles) after ≡ sum (λ p. p.battles) players + 2 * length battles))
  unfolding rate_battles
  rate_battles-sum [] players changes = (omega arith, omega arith, omega arith)
  rate_battles-sum (battle ∷ rest) players changes =
      let next = rate_battle f battle (players, changes) in
      let (games, wins, fought) = rate_battle-sum battle players changes in
      let (games_rest, wins_rest, fought_rest) = rate_battles-sum rest (next.0) (next.1) in
      (
        omega (arith, games, games_rest),
        omega (arith, wins, wins_rest),
        omega (arith, fought, fought_rest),
      )

  -- a player's counts
  abbrev pub IsCounted : ℕ × Player F → Type 0
  IsCounted (profile, p) = p.wins ≤ p.games

  find-IsCounted :
      (profile : ℕ) (players : Players F)
      → All IsCounted players
      → (totals f (find ◌==◌ profile players)).1 ≤ (totals f (find ◌==◌ profile players)).0
  unfolding find
  find-IsCounted profile [] h = omega arith
  find-IsCounted profile ((j, p) ∷ rest) h = elim (Bool-cases (j == profile)) [
    | inl e ↦ rw (e) (h.0)
    | inr e ↦ rw (e) (find-IsCounted profile rest (h.1))
  ]

  put-IsCounted :
      (profile : ℕ) (p : Player F) (players : Players F)
      → p.wins ≤ p.games
      → All IsCounted players
      → All IsCounted (put ◌==◌ profile p players)
  unfolding put
  put-IsCounted profile p [] new h = (new, tt)
  put-IsCounted profile p ((j, q) ∷ rest) new h = elim (Bool-cases (j == profile)) [
    | inl e ↦ rw (e) (new, h.1)
    | inr e ↦ rw (e) (h.0, put-IsCounted profile p rest new (h.1))
  ]

  rate_player-IsCounted :
      (battle : RatedBattle) (profile : ℕ) (slot : Slot) (own rival : Strength F)
      (st : Players F × Changes F)
      → All IsCounted (st.0)
      → All IsCounted ((rate_player f battle profile slot own rival st).0)
  unfolding rate_player player_after
  rate_player-IsCounted battle profile slot own rival (players, changes) h =
      put-IsCounted profile (player_after f players battle profile slot own rival) players
        (omega (arith, find-IsCounted profile players h, count-length slot battle.winners)) h

  rate_battles-IsCounted :
      (battles : List RatedBattle) (players : Players F) (changes : Changes F)
      → All IsCounted players
      → All IsCounted ((rate_battles f battles (players, changes)).0)
  unfolding rate_battles rate_battle
  rate_battles-IsCounted [] players changes h = h
  rate_battles-IsCounted (battle ∷ rest) players changes h =
      let a = before_of f players battle.time battle.a in
      let b = before_of f players battle.time battle.b in
      let first = rate_player f battle battle.a slot_a a b (players, changes) in
      let second = rate_player f battle battle.b slot_b b a first in
      rate_battles-IsCounted rest (second.0) (second.1) (
        rate_player-IsCounted battle battle.b slot_b b a first
          (rate_player-IsCounted battle battle.a slot_a a b (players, changes) h))

  -- In the ranking that `compute` gives, the wins of all the players are as many as the games of the
  -- battles, the games twice as many, the battles counted twice the battles, and no player has won more
  -- games than they played.
  pub compute-counts :
      (battles : List RatedBattle)
      → (let players = (compute f battles).0 in
          (sum (λ p. p.wins) players ≡ games_counted battles)
          × (sum (λ p. p.games) players ≡ 2 * games_counted battles)
          × (sum (λ p. p.battles) players ≡ 2 * length battles)
          × All IsCounted players)
  unfolding compute
  compute-counts battles =
      let (games, wins, fought) = rate_battles-sum battles [] [] in
      (
        omega (arith, wins),
        omega (arith, games),
        omega (arith, fought),
        rate_battles-IsCounted battles [] [] tt,
      )
