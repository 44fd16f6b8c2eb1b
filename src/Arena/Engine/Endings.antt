-- ===== src/Arena/Engine/Endings.antt =====
-- judge/arena/engine.py: a game that ends, and a game that moves on by itself, leave a sound battle.
use cpcjudge_site.Base.{
  ℕ, ◌+◌, ◌≤◌, ◌<◌, ◌≡◌, ap, refl, sym, ◌∙◌, ◌⊎◌, ◌==◌, inl, inr, true, false, Option, none, some,
  List, [], ◌∷◌, leb, count, max, Bool-cases, Option-cases, arith,
}
use cpcjudge_site.Arena.Scoring.{Standing, Attempt}
use cpcjudge_site.Arena.Outcome.{Slot, slot_a, slot_b, Problems, Decision, Outcome}
use cpcjudge_site.Arena.Engine.Rows.{
  Battle, Match, Game, GameStatus, GameReason, find_game, save_game, is_over, bump, wins_needed,
  by_games, by_score,
}
use cpcjudge_site.Arena.Engine.Play.{
  finish, tie, apply, tick_locked, add_win, closed, evaluate, expected, has_status, result_snapshot,
  tick,
}
use cpcjudge_site.Arena.Engine.Counting.{won_by, active, number, count-save, find_game-id}
use cpcjudge_site.Arena.Engine.Sound.{
  Counted, Sound, bump_keeps, save-distinct, put-Sound, decide_match-Sound, prepare_next-Sound,
}

-- What makes it safe to end a game that stands in the battle as `old`: the match is not over, nobody
-- won that game yet, and no other game is being played.
pub record CanEnd (g old : Game) (b : Battle) : Type 0 where
  pub found : find_game g.id b.games ≡ some old
  pub going : is_over b.match_row.status ≡ false
  pub unwon : (slot : Slot) → won_by slot old ≡ false
  pub alone : count active b.games ≡ number (active old)

-- the games once `g`, which is no longer played, is saved
ended_active :
    (g old ended : Game) (b : Battle)
    → CanEnd g old b
    → ended.id ≡ g.id
    → active ended ≡ false
    → count active (save_game ended b.games) ≡ 0
ended_active g old ended b c same quiet =
    let found : find_game ended.id b.games ≡ some old = rw same c.found in
    let counts = count-save active ended old b.games found in let alone = c.alone in ground arith

ended_won :
    (slot : Slot) (g old ended : Game) (b : Battle)
    → CanEnd g old b
    → ended.id ≡ g.id
    → count (won_by slot) (save_game ended b.games)
      ≡ count (won_by slot) b.games + number (won_by slot ended)
ended_won slot g old ended b c same =
    let found : find_game ended.id b.games ≡ some old = rw same c.found in
    let counts = count-save (won_by slot) ended old b.games found in
    let unwon = c.unwon slot in ground arith

-- the wins once the game is counted
ended-Counted :
    (m : Match) (g old ended : Game) (b : Battle)
    → CanEnd g old b
    → ended.id ≡ g.id
    → m.wins_a ≡ b.match_row.wins_a + number (won_by slot_a ended)
    → m.wins_b ≡ b.match_row.wins_b + number (won_by slot_b ended)
    → Sound b
    → Counted m (save_game ended b.games) b.next_id
ended-Counted m g old ended b c same wa wb s =
    let found : find_game ended.id b.games ≡ some old = rw same c.found in
    record {
      distinct = λ id. rw (save-distinct ended old b.games found id) (s.counted.distinct id);
      fresh = λ id le. save-distinct ended old b.games found id ∙ s.counted.fresh id le;
      score_a =
          let w = ended_won slot_a g old ended b c same in let d = s.counted.score_a in omega arith;
      score_b =
          let w = ended_won slot_b g old ended b c same in let d = s.counted.score_b in omega arith;
    }

-- the game that `_finish` saves
abbrev finished_game : Slot → GameReason → Standing × Standing → ℕ → Option ℕ → Game → Game
finished_game slot reason result now actor g = record (closed actor now g) {
  status = GameStatus.finished;
  winner_slot = some slot;
  reason = some reason;
  result = some result;
  decided_by = actor;
}

add_win_counts :
    (slot : Slot) (reason : GameReason) (result : Standing × Standing) (now : ℕ) (actor : Option ℕ)
    (g : Game) (m : Match)
    → (let ended = finished_game slot reason result now actor g in
        ((add_win slot m).wins_a ≡ m.wins_a + number (won_by slot_a ended))
        × ((add_win slot m).wins_b ≡ m.wins_b + number (won_by slot_b ended)))
add_win_counts slot_a reason result now actor g m = (omega arith, omega arith)
add_win_counts slot_b reason result now actor g m = (omega arith, omega arith)

plus_none : (n : ℕ) → n ≡ n + 0
plus_none n = omega arith

below_needed : (a b needed : ℕ) → leb needed (max a b) ≡ false → (a < needed) × (b < needed)
below_needed a b needed h = ground arith

-- A game being played is counted as such.
pub found_active :
    (id : ℕ) (g : Game) (games : List Game)
    → find_game id games ≡ some g
    → active g ≡ true
    → 1 ≤ count active games
unfolding find_game count
found_active id g [] h a = absurd (ground arith)
found_active id g (k ∷ rest) h a = elim (Bool-cases (k.id == id)) [
  | inl e ↦ let same : k ≡ g = ground arith in rw (same, a) (omega arith)
  | inr e ↦ omega (arith, found_active id g rest (ground arith) a)
]

active-unwon : (g : Game) → active g ≡ true → (slot : Slot) → won_by slot g ≡ false
active-unwon g a slot = ground arith

-- A game being played can end: its match is not over, and no other one is being played.
pub active-CanEnd :
    (g : Game) (b : Battle)
    → find_game g.id b.games ≡ some g
    → active g ≡ true
    → Sound b
    → CanEnd g g b
active-CanEnd g b found a s =
    let some_played = found_active g.id g b.games found a in
    let at_most = s.one_active in
    record {
      found = found;
      going = elim (Bool-cases (is_over b.match_row.status)) [
        | inl o ↦ let quiet = s.quiet o in absurd (omega arith)
        | inr o ↦ o
      ];
      unwon = active-unwon g a;
      alone = rw a (omega arith);
    }

Outcome-cases :
    (o : Outcome)
    → (o ≡ Outcome.countdown)
      ⊎ ((o ≡ Outcome.live)
          ⊎ ((o ≡ Outcome.verifying) ⊎ ((o ≡ Outcome.finish) ⊎ (o ≡ Outcome.tie))))
Outcome-cases Outcome.countdown = inl refl
Outcome-cases Outcome.live = inr (inl refl)
Outcome-cases Outcome.verifying = inr (inr (inl refl))
Outcome-cases Outcome.finish = inr (inr (inr (inl refl)))
Outcome-cases Outcome.tie = inr (inr (inr (inr refl)))

module _ (bank : Match → Game → Option Problems) where
  pub finish-Sound :
      (slot : Slot) (reason : GameReason) (result : Standing × Standing) (now : ℕ)
      (actor : Option ℕ) (g old : Game) (b : Battle)
      → CanEnd g old b
      → Sound b
      → Sound (finish bank slot reason result now actor g b)
  unfolding finish
  finish-Sound slot reason result now actor g old b c s =
      let ended = finished_game slot reason result now actor g in
      let won = bump actor (add_win slot b.match_row) in
      let (wa, wb, bo, st) = bump_keeps actor (add_win slot b.match_row) in
      let (aa, ab) = add_win_counts slot reason result now actor g b.match_row in
      let counted = ended-Counted won g old ended b c refl (wa ∙ aa) (wb ∙ ab) s in
      let calm = ended_active g old ended b c refl refl in
      let after : Battle = record b { match_row = won; games = save_game ended b.games } in
      elim (Bool-cases (leb (wins_needed won) (max won.wins_a won.wins_b))) [
        | inl e ↦
            rw (finish, c.going, e) (decide_match-Sound slot by_games now actor after counted calm)
        | inr e ↦
            rw (finish, c.going, e)
              (prepare_next-Sound bank after (record {
                counted = counted;
                one_active = omega arith;
                quiet = λ o. calm;
                below = λ o. below_needed won.wins_a won.wins_b (wins_needed won) e;
              }))
      ]

  pub tie-Sound :
      (result : Standing × Standing) (now : ℕ) (actor : Option ℕ) (g old : Game) (b : Battle)
      → CanEnd g old b
      → Sound b
      → Sound (tie bank result now actor g b)
  unfolding tie
  tie-Sound result now actor g old b c s =
      let ended : Game = record (closed actor now g) {
        status = GameStatus.tie;
        result = some result;
      } in
      let (wa, wb, bo, st) = bump_keeps actor b.match_row in
      let counted =
        ended-Counted (bump actor b.match_row) g old ended b c refl (wa ∙ plus_none _)
          (wb ∙ plus_none _) s in
      let calm = ended_active g old ended b c refl refl in
      let old_below = s.below c.going in
      rw (tie, c.going)
        (prepare_next-Sound bank
          (record b { match_row = bump actor b.match_row; games = save_game ended b.games })
          (record {
            counted = counted;
            one_active = omega arith;
            quiet = λ o. calm;
            below = λ o. rw (wa, wb, bo) old_below;
          }))

  apply-Sound :
      (d : Decision) (now : ℕ) (attempts : Slot → List Attempt) (g : Game) (b : Battle)
      → find_game g.id b.games ≡ some g
      → active g ≡ true
      → Sound b
      → Sound (apply bank d now attempts g b)
  unfolding apply
  apply-Sound d now attempts g b found a s =
      let can_end = active-CanEnd g b found a s in
      let result = result_snapshot g attempts in
      elim (Outcome-cases d.outcome) [
        | inl e ↦ rw (apply, e) s
        | inr (inl e) ↦ elim (Bool-cases (has_status g.status GameStatus.live)) [
          | inl h ↦ rw (apply, e, h) s
          | inr h ↦
              rw (apply, e, h)
                (put-Sound b (record g { status = GameStatus.live }) g found
                  (sym (active-unwon g a slot_a)) (sym (active-unwon g a slot_b)) (λ _. a) s)
        ]
        | inr (inr (inl e)) ↦ elim (Bool-cases (has_status g.status GameStatus.verifying)) [
          | inl h ↦ rw (apply, e, h) s
          | inr h ↦
              rw (apply, e, h)
                (put-Sound b _ g found (sym (active-unwon g a slot_a))
                  (sym (active-unwon g a slot_b)) (λ _. a) s)
        ]
        | inr (inr (inr (inl e))) ↦ elim (Option-cases d.winner) [
          | inl w ↦ rw (apply, e, w) s
          | inr (slot, w) ↦ elim (Option-cases d.reason) [
            | inl r ↦ rw (apply, e, w, r) s
            | inr (reason, r) ↦
                rw (apply, e, w, r)
                  (finish-Sound slot (by_score reason) result now none g g b can_end s)
          ]
        ]
        | inr (inr (inr (inr e))) ↦ rw (apply, e) (tie-Sound result now none g g b can_end s)
      ]

  evaluated-active :
      (g : Game) (now : ℕ) (attempts : Slot → List Attempt) (d : Decision)
      → evaluate g now attempts ≡ some d
      → active g ≡ true
  evaluated-active g now attempts d h = elim (Bool-cases (active g)) [
    | inl a ↦ a
    | inr a ↦ absurd (ground arith)
  ]

  pub tick-Sound : (now game_id : ℕ) (b : Battle) → Sound b → Sound (tick bank now game_id b)
  unfolding tick tick_locked
  tick-Sound now game_id b s = elim (Option-cases (find_game game_id b.games)) [
    | inl e ↦ rw (tick, e) s
    | inr (g, e) ↦
        let same = find_game-id game_id g b.games e in
        let found : find_game g.id b.games ≡ some g = ap (λ i. find_game i b.games) same ∙ e in
        let attempts = b.attempts g.id in
        elim (Option-cases (evaluate g now attempts)) [
          | inl f ↦ rw (tick, e, tick_locked, f) s
          | inr (d, f) ↦
              let moved =
                apply-Sound d now attempts g b found (evaluated-active g now attempts d f) s in
              elim (Option-cases (expected d)) [
                | inl x ↦ rw (tick, e, tick_locked, f, x) moved
                | inr (status, x) ↦ elim (Bool-cases (has_status status g.status)) [
                  | inl y ↦ rw (tick, e, tick_locked, f, x, y) s
                  | inr y ↦ rw (tick, e, tick_locked, f, x, y) moved
                ]
              ]
        ]
  ]
