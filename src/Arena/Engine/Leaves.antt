-- ===== src/Arena/Engine/Leaves.antt =====
-- judge/arena/engine.py: the actions of an organizer that end no game leave a sound battle.
use cpcjudge_site.Base.{
  ℕ, ◌+◌, ◌*◌, ◌/◌, ◌≤◌, ◌<◌, ◌≡◌, subst, ap, refl, sym, ◌∙◌, inl, inr, Bool, true, false, not,
  ◌&&◌, ◌==◌, Option, none, some, List, [], ◌∷◌, ltb, if◌then◌else◌, count, keep, any, max,
  Bool-cases, Option-cases, arith,
}
use cpcjudge_site.Arena.Scoring.{minute}
use cpcjudge_site.Arena.Outcome.{Slot, slot_a, slot_b}
use cpcjudge_site.Arena.Engine.Rows.{
  Battle, Match, Game, MatchStatus, ArenaError, Result, done, raise, require, find_game, is_active,
  is_open_status, is_over, is_tie, is_prepared, some_active, is_unplayed, put, bump, check_version,
  moment_or, by_walkover,
}
use cpcjudge_site.Arena.Engine.Actions.{
  on_open_match, with_game, started_or_tied, another_runs, void_game, void_started, extend_game,
  update_match, walkover, cancel_match, replace_player,
}
use cpcjudge_site.Arena.Engine.Counting.{
  count-keep_≤, won_by, active, has_id, number, find_game-id, won-void_started, active-void_started,
  id-void_started,
}
use cpcjudge_site.Arena.Engine.Sound.{
  kept-Counted, Counted, Sound, rematch-Sound, put-Sound, decide_match-Sound,
}
use cpcjudge_site.Arena.Engine.Endings.{CanEnd, active-CanEnd}

-- An action leaves a sound battle, unless it raises.
pub data Leaves : Result Battle → Type 0 where
  left : {b : Battle} → Sound b → Leaves (done b)
  raised : {e : ArenaError} → Leaves (raise e)

pub require-Leaves :
    (ok : Bool) (e : ArenaError) (r : Result Battle)
    → (ok ≡ true → Leaves r)
    → Leaves (require ok e r)
unfolding require
require-Leaves true e r h = h refl
require-Leaves false e r h = Leaves.raised

pub with_game-Leaves :
    (id : ℕ) (b : Battle) (f : Game → Result Battle)
    → ((g : Game) → find_game g.id b.games ≡ some g → Leaves (f g))
    → Leaves (with_game id b f)
unfolding with_game
with_game-Leaves id b f h = elim (Option-cases (find_game id b.games)) [
  | inl e ↦ rw (with_game, e) Leaves.raised
  | inr (g, e) ↦
      let same = find_game-id id g b.games e in
      rw (with_game, e) (h g (ap (λ i. find_game i b.games) same ∙ e))
]

pub on_open_match-Leaves :
    (version : Option ℕ) (b : Battle) (r : Result Battle)
    → (is_over b.match_row.status ≡ false → Leaves r)
    → Leaves (on_open_match version b r)
unfolding on_open_match
on_open_match-Leaves version b r h =
    require-Leaves (check_version version b.match_row) _ _
      (λ _. require-Leaves (not (is_over b.match_row.status)) _ _ (λ o. h (ground arith)))

pub bump-Sound :
    (actor : ℕ) (b : Battle)
    → Sound b
    → Sound (record b { match_row = bump (some actor) b.match_row })
bump-Sound actor b s =
    rematch-Sound b (bump (some actor) b.match_row) b.advanced refl refl refl refl s

no_other_active :
    (id : ℕ) (games : List Game)
    → count (has_id id) games ≡ 0
    → any (λ h. is_active h.status && not (h.id == id)) games ≡ false
    → count active games ≡ 0
unfolding count any
no_other_active id [] n a = refl
no_other_active id (h ∷ rest) n a =
    let ih = no_other_active id rest (omega (arith, n)) (ground (arith, a)) in ground arith

-- With a tied game and no other one being played, none is.
tied_quiet :
    (g : Game) (games : List Game)
    → find_game g.id games ≡ some g
    → active g ≡ false
    → ((id : ℕ) → count (has_id id) games ≤ 1)
    → any (λ h. is_active h.status && not (h.id == g.id)) games ≡ false
    → count active games ≡ 0
unfolding find_game count any
tied_quiet g [] found idle d a = refl
tied_quiet g (k ∷ rest) found idle d a = elim (Bool-cases (k.id == g.id)) [
  | inl e ↦
      let same : k ≡ g = ground arith in
      let once = d g.id in
      let idle_k : active k ≡ false = subst (λ x. active x ≡ false) (sym same) idle in
      let ih = no_other_active g.id rest (ground arith) (ground arith) in ground arith
  | inr e ↦
      let ih = tied_quiet g rest (ground arith) idle (λ id. omega (arith, d id)) (ground arith) in
      ground arith
]

-- a game that is played or tied can be ended while no other is played
tied-unwon : (g : Game) → is_tie g.status ≡ true → (slot : Slot) → won_by slot g ≡ false
tied-unwon g tied slot = ground arith

pub started-CanEnd :
    (g : Game) (b : Battle)
    → find_game g.id b.games ≡ some g
    → is_over b.match_row.status ≡ false
    → started_or_tied g.status ≡ true
    → another_runs g b ≡ false
    → Sound b
    → CanEnd g g b
started-CanEnd g b found going kind lone s = elim (Bool-cases (active g)) [
  | inl a ↦ active-CanEnd g b found a s
  | inr idle ↦
      let tied : is_tie g.status ≡ true = ground arith in
      let lone_games : any (λ h. is_active h.status && not (h.id == g.id)) b.games ≡ false =
        ground arith in
      let calm = tied_quiet g b.games found idle s.counted.distinct lone_games in
      record {
        found = found;
        going = going;
        unwon = tied-unwon g tied;
        alone = calm ∙ sym (ap number idle);
      }
]

pub voided-Sound :
    (by : Option ℕ) (now : ℕ) (g : Game) (b : Battle)
    → CanEnd g g b
    → Sound b
    → Sound (put (void_game now by g) b)
voided-Sound by now g b c s =
    put-Sound b (void_game now by g) g c.found (sym (c.unwon slot_a)) (sym (c.unwon slot_b))
      (λ h. absurd (ground arith)) s

-- closing a game that ends does not matter
pub stopped-CanEnd :
    (now : ℕ) (g : Game) (b : Battle)
    → CanEnd g g b
    → CanEnd (if is_open_status g.status then record g { closed_at = some now } else g) g b
stopped-CanEnd now g b c = elim (Bool-cases (is_open_status g.status)) [
  | inl e ↦ rw e (record { found = c.found; going = c.going; unwon = c.unwon; alone = c.alone })
  | inr e ↦ rw e c
]

pub extend_game-Sound :
    (actor game_id minutes : ℕ) (version : Option ℕ) (b : Battle)
    → Sound b
    → Leaves (extend_game actor game_id minutes version b)
unfolding extend_game
extend_game-Sound actor game_id minutes version b s = on_open_match-Leaves version b _ (λ going.
    with_game-Leaves game_id b _ (λ g found. require-Leaves _ _ _ (λ playing.
      require-Leaves _ _ _ (λ small. require-Leaves _ _ _ (λ short. Leaves.left (
        bump-Sound actor
          (put
            (record g {
              ends_at = some (moment_or g.ends_at 0 + minutes * minute);
              contest_end = elim g.contest_end [
                | none ↦ none
                | some _ ↦ some (moment_or g.ends_at 0 + minutes * minute)
              ];
            })
            b)
          (put-Sound b _ g found refl refl (λ a. a) s)))))))

pub update_match-Sound :
    (actor : ℕ) (version best_of : Option ℕ) (b : Battle)
    → Sound b
    → Leaves (update_match actor version best_of b)
unfolding update_match
update_match-Sound actor version none b s =
    on_open_match-Leaves version b _ (λ going. Leaves.left (bump-Sound actor b s))
update_match-Sound actor version (some n) b s = on_open_match-Leaves version b _ (λ going.
    require-Leaves _ _ _ (λ known. require-Leaves _ _ _ (λ longer. Leaves.left (record {
      counted = record {
        distinct = s.counted.distinct;
        fresh = s.counted.fresh;
        score_a = s.counted.score_a;
        score_b = s.counted.score_b;
      };
      one_active = s.one_active;
      quiet = s.quiet;
      below = λ _. longer_below b.match_row.wins_a b.match_row.wins_b (n / 2 + 1) longer;
    }))))
  where
    longer_below : (x y needed : ℕ) → ltb (max x y) needed ≡ true → (x < needed) × (y < needed)
    longer_below x y needed h = ground arith

voided-Counted :
    (now : ℕ) (by : Game → Option ℕ) (b : Battle)
    → Sound b
    → Counted b.match_row (void_started now by b.games) b.next_id
voided-Counted now by b s = record {
  distinct = λ id. rw (id-void_started id now by b.games) (s.counted.distinct id);
  fresh = λ id le. id-void_started id now by b.games ∙ s.counted.fresh id le;
  score_a = s.counted.score_a ∙ sym (won-void_started slot_a now by b.games);
  score_b = s.counted.score_b ∙ sym (won-void_started slot_b now by b.games);
}

pub walkover-Sound :
    (actor : ℕ) (slot : Slot) (now : ℕ) (version : Option ℕ) (b : Battle)
    → Sound b
    → Leaves (walkover actor slot now version b)
unfolding walkover
walkover-Sound actor slot now version b s = on_open_match-Leaves version b _ (λ going.
    require-Leaves _ _ _ (λ seated. Leaves.left (
      decide_match-Sound slot by_walkover now (some actor)
        (record b { games = void_started now (λ g. some actor) b.games })
        (voided-Counted now (λ g. some actor) b s)
        (active-void_started now (λ g. some actor) b.games))))

-- dropping the games that nobody played, once the match is over and nothing is being played
cancelled-Sound :
    (m : Match) (b : Battle)
    → is_over m.status ≡ true
    → Counted m b.games b.next_id
    → count active b.games ≡ 0
    → Sound (record b { match_row = m; games = keep (λ g. not (is_unplayed g)) b.games })
cancelled-Sound m b over c quiet =
    let fewer = count-keep_≤ active (λ g. not (is_unplayed g)) b.games in
    record {
      counted = kept-Counted m b.games b.next_id c;
      one_active = omega arith;
      quiet = λ o. omega arith;
      below = λ o. absurd (ground arith);
    }

pub cancel_match-Sound :
    (actor now : ℕ) (version : Option ℕ) (b : Battle)
    → Sound b
    → Leaves (cancel_match actor now version b)
unfolding cancel_match
cancel_match-Sound actor now version b s = require-Leaves _ _ _ (λ current.
    require-Leaves _ _ _ (λ quick. require-Leaves _ _ _ (λ going. Leaves.left (
      cancelled-Sound
        (bump (some actor)
          (record b.match_row { status = MatchStatus.cancelled; decided_at = some now }))
        (record b { games = void_started now (λ g. g.decided_by) b.games }) refl
        (rematch (voided-Counted now (λ g. g.decided_by) b s))
        (active-void_started now (λ g. g.decided_by) b.games)))))
  where
    rematch :
        {games : List Game}
        → Counted b.match_row games b.next_id
        → Counted
            (bump
              (some actor)
              (record b.match_row { status = MatchStatus.cancelled; decided_at = some now }))
            games
            b.next_id
    rematch c = record {
      distinct = c.distinct;
      fresh = c.fresh;
      score_a = c.score_a;
      score_b = c.score_b;
    }

pub prepared-unwon :
    (g : Game) → is_prepared g.status ≡ true → (slot : Slot) → won_by slot g ≡ false
prepared-unwon g kind slot = ground arith

pub prepared-idle : (g : Game) → is_prepared g.status ≡ true → active g ≡ true → ⊥
prepared-idle g kind a = ground arith

pub no_active : (games : List Game) → some_active games ≡ false → count active games ≡ 0
unfolding count any
no_active [] h = refl
no_active (g ∷ rest) h = let ih = no_active rest (ground (arith, h)) in ground arith

pub replace_player-Sound :
    (actor : ℕ) (slot : Slot) (profile : ℕ) (busy : ℕ → Bool) (version : Option ℕ) (b : Battle)
    → Sound b
    → Leaves (replace_player actor slot profile busy version b)
unfolding replace_player
replace_player-Sound actor slot profile busy version b s =
    on_open_match-Leaves version b _ (λ going. require-Leaves _ _ _ (λ unplayed.
      require-Leaves _ _ _ (λ rival. require-Leaves _ _ _ (λ apart. require-Leaves _ _ _ (λ free.
        Leaves.left (
          rematch-Sound b _ b.advanced (ground arith) (ground arith) (ground arith) (ground arith)
            s))))))
