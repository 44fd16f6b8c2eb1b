-- ===== src/Arena/Engine/Sound.antt =====
-- judge/arena/engine.py: what holds of every battle, and that playing, ending and voiding keep it.
use cpcjudge_site.Base.{
  ℕ, suc, ◌+◌, ◌≤◌, ◌<◌, ◌≡◌, ap, refl, sym, ◌∙◌, inl, inr, Bool, true, false, not, Option, none,
  some, List, [], ◌∷◌, ◌++◌, ◌==◌, keep, count, Bool-cases, Option-cases, arith,
}
use cpcjudge_site.Arena.Outcome.{Slot, slot_a, slot_b, Problems}
use cpcjudge_site.Arena.Engine.Rows.{
  Battle, Match, Game, MatchReason, MatchStatus, find_game, save_game, current_prepared_game,
  is_prepared, is_over, is_unplayed, put, bump, ensure_next_game, new_game, max_number, wins_needed,
}
use cpcjudge_site.Arena.Engine.Play.{decide_match, prepare_next, from_bank}
use cpcjudge_site.Arena.Engine.Counting.{
  won_by, active, has_id, find_game-id, count-append, count-keep, count-keep_≤, count-save_same,
  count-save_≤, unplayed-unwon, find-In, In-append, In-current_prepared,
}

-- No identifier is taken twice or reserved for a later game, and the wins of a player are the games
-- won.
pub record Counted (m : Match) (games : List Game) (next_id : ℕ) : Type 0 where
  pub distinct : (id : ℕ) → count (has_id id) games ≤ 1
  pub fresh : (id : ℕ) → next_id ≤ id → count (has_id id) games ≡ 0
  pub score_a : m.wins_a ≡ count (won_by slot_a) games
  pub score_b : m.wins_b ≡ count (won_by slot_b) games

-- Besides, at most one game is being played, and none once the match is over; and as long as it is
-- not over, nobody has the wins needed.
pub record Sound (b : Battle) : Type 0 where
  pub counted : Counted b.match_row b.games b.next_id
  pub one_active : count active b.games ≤ 1
  pub quiet : is_over b.match_row.status ≡ true → count active b.games ≡ 0
  pub below :
      is_over b.match_row.status ≡ false
      → (b.match_row.wins_a < wins_needed b.match_row)
        × (b.match_row.wins_b < wins_needed b.match_row)

pub bump_keeps :
    (actor : Option ℕ) (m : Match)
    → ((bump actor m).wins_a ≡ m.wins_a)
      × ((bump actor m).wins_b ≡ m.wins_b)
      × ((bump actor m).best_of ≡ m.best_of)
      × ((bump actor m).status ≡ m.status)
bump_keeps none m = (refl, refl, refl, refl)
bump_keeps (some a) m = (refl, refl, refl, refl)

-- A change of the match that keeps its wins, its length and whether it is over.
pub rematch-Sound :
    (b : Battle) (m : Match) (advanced : List Slot)
    → m.wins_a ≡ b.match_row.wins_a
    → m.wins_b ≡ b.match_row.wins_b
    → m.best_of ≡ b.match_row.best_of
    → is_over m.status ≡ is_over b.match_row.status
    → Sound b
    → Sound (record b { match_row = m; advanced = advanced })
rematch-Sound b m advanced wa wb bo ov s = record {
  counted = record {
    distinct = s.counted.distinct;
    fresh = s.counted.fresh;
    score_a = wa ∙ s.counted.score_a;
    score_b = wb ∙ s.counted.score_b;
  };
  one_active = s.one_active;
  quiet = λ o. s.quiet (sym ov ∙ o);
  below = λ o. let old = s.below (sym ov ∙ o) in rw (wa, wb, bo) old;
}

-- identifiers when a game is saved
pub save-distinct :
    (g old : Game) (games : List Game)
    → find_game g.id games ≡ some old
    → (id : ℕ) → count (has_id id) (save_game g games) ≡ count (has_id id) games
save-distinct g old games found id =
    let same_id = find_game-id g.id old games found in
    count-save_same (has_id id) g old games found (ap (λ i. i == id) (sym same_id))

-- Saving a game that counts as much as before, and is being played only if it was.
pub put-Sound :
    (b : Battle) (g old : Game)
    → find_game g.id b.games ≡ some old
    → won_by slot_a g ≡ won_by slot_a old
    → won_by slot_b g ≡ won_by slot_b old
    → (active g ≡ true → active old ≡ true)
    → Sound b
    → Sound (put g b)
put-Sound b g old found wa wb ac s =
    let fewer = count-save_≤ active g old b.games found ac in
    record {
      counted = record {
        distinct = λ id. rw (save-distinct g old b.games found id) (s.counted.distinct id);
        fresh = λ id le. save-distinct g old b.games found id ∙ s.counted.fresh id le;
        score_a = s.counted.score_a ∙ sym (count-save_same (won_by slot_a) g old b.games found wa);
        score_b = s.counted.score_b ∙ sym (count-save_same (won_by slot_b) g old b.games found wb);
      };
      one_active = let d = s.one_active in omega arith;
      quiet = λ o. let d = s.quiet o in omega arith;
      below = s.below;
    }

over_and_not : (status : MatchStatus) → is_over status ≡ true → is_over status ≡ false → ⊥
over_and_not status h k = ground arith

-- Dropping the games that nobody played changes no count.
pub kept-Counted :
    (m : Match) (games : List Game) (next_id : ℕ)
    → Counted m games next_id
    → Counted m (keep (λ g. not (is_unplayed g)) games) next_id
kept-Counted m games next_id c = record {
  distinct = λ id.
      let d = count-keep_≤ (has_id id) (λ g. not (is_unplayed g)) games in
      let e = c.distinct id in omega arith;
  fresh = λ id le.
      let d = count-keep_≤ (has_id id) (λ g. not (is_unplayed g)) games in
      let e = c.fresh id le in omega arith;
  score_a = c.score_a ∙ sym (count-keep (won_by slot_a) games (unplayed-unwon slot_a));
  score_b = c.score_b ∙ sym (count-keep (won_by slot_b) games (unplayed-unwon slot_b));
}

-- The match is decided once nothing is being played.
pub decide_match-Sound :
    (slot : Slot) (reason : MatchReason) (now : ℕ) (actor : Option ℕ) (b : Battle)
    → Counted b.match_row b.games b.next_id
    → count active b.games ≡ 0
    → Sound (decide_match slot reason now actor b)
unfolding decide_match
decide_match-Sound slot reason now actor b c quiet =
    let fewer = count-keep_≤ active (λ g. not (is_unplayed g)) b.games in
    let m : Match = record b.match_row {
      status = MatchStatus.decided;
      winner_slot = some slot;
      decided_reason = some reason;
      decided_at = some now;
    } in
    let (wa, wb, bo, st) = bump_keeps actor m in
    record {
      counted =
          let k = kept-Counted b.match_row b.games b.next_id c in
          record {
            distinct = k.distinct;
            fresh = k.fresh;
            score_a = wa ∙ k.score_a;
            score_b = wb ∙ k.score_b;
          };
      one_active = omega arith;
      quiet = λ o. omega arith;
      below = λ o. absurd (over_and_not (bump actor m).status (ap is_over st) o);
    }

append-Sound :
    (b : Battle) (number_of : ℕ)
    → Sound b
    → Sound
        (record b { games = b.games ++ new_game b.next_id number_of ∷ []; next_id = suc b.next_id })
append-Sound b n s =
    let g = new_game b.next_id n in
    let counts = λ (p : Game → Bool). count-append p b.games g in
    record {
      counted = record {
        distinct = λ id.
            let c = counts (has_id id) in
            let d = s.counted.distinct id in
            let f = s.counted.fresh id in
            elim (Bool-cases (b.next_id == id)) [
              | inl e ↦ ground (arith, f)
              | inr e ↦ ground arith
            ];
        fresh = λ id le.
            let c = counts (has_id id) in let d = s.counted.fresh id (omega arith) in ground arith;
        score_a = let c = counts (won_by slot_a) in let d = s.counted.score_a in omega arith;
        score_b = let c = counts (won_by slot_b) in let d = s.counted.score_b in omega arith;
      };
      one_active = let c = counts active in let d = s.one_active in omega arith;
      quiet = λ o. let c = counts active in let d = s.quiet o in omega arith;
      below = s.below;
    }

-- the next game to play, which is there or is created
pub ensure_next_game-Sound :
    (b : Battle)
    → Sound b
    → (let next = ensure_next_game b in
        Sound (next.0)
        × (find_game (next.1).id (next.0).games ≡ some (next.1))
        × (is_prepared (next.1).status ≡ true))
ensure_next_game-Sound b s = elim (Option-cases (current_prepared_game b.games)) [
  | inr (g, e) ↦
      let (inside, kind) = In-current_prepared g b.games e in
      rw (ensure_next_game, e) (s, find-In g b.games s.counted.distinct inside, kind)
  | inl e ↦
      let g = new_game b.next_id (max_number b.games + 1) in
      let added = append-Sound b (max_number b.games + 1) s in
      rw (ensure_next_game, e)
        (added, find-In g (b.games ++ g ∷ []) added.counted.distinct (In-append g b.games), refl)
]

module _ (bank : Match → Game → Option Problems) where
  from_bank-Sound :
      (g : Game) (b : Battle)
      → find_game g.id b.games ≡ some g
      → Sound b
      → Sound (from_bank bank g b)
  from_bank-Sound g b found s = elim (Option-cases (bank b.match_row g)) [
    | inl e ↦ rw (from_bank, e) s
    | inr (ps, e) ↦
        rw (from_bank, e) (put-Sound b (record g { problems = ps }) g found refl refl (λ h. h) s)
  ]

  pub prepare_next-Sound : (b : Battle) → Sound b → Sound (prepare_next bank b)
  prepare_next-Sound b s =
      let (sound, found, kind) = ensure_next_game-Sound b s in
      from_bank-Sound (ensure_next_game b).1 (ensure_next_game b).0 found sound
