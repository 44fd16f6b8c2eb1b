-- ===== src/Arena/Engine/Over.antt =====
-- judge/arena/engine.py: a match that is over stays as it is.
use cpcjudge_site.Base.{
  ℕ, ◌≡◌, refl, ◌∙◌, ap, inl, inr, Bool, true, false, not, Option, none, Bool-cases, Option-cases,
  arith,
}
use cpcjudge_site.Arena.Outcome.{Problems}
use cpcjudge_site.Arena.Engine.Rows.{
  Battle, Match, Game, Result, done, require, ArenaError, is_over, is_playing, is_locking,
  check_version, find_game,
}
use cpcjudge_site.Arena.Engine.Play.{tick, tick_locked, evaluate}
use cpcjudge_site.Arena.Engine.Actions.{
  on_open_match, with_game, extend_game, update_match, walkover, cancel_match, add_game,
  cancel_game, declare_winner, finalize_verification, call_match, start_game, replace_player,
  can_start,
}
use cpcjudge_site.Arena.Engine.Counting.{active}
use cpcjudge_site.Arena.Engine.Sound.{Sound}
use cpcjudge_site.Arena.Engine.Endings.{found_active}
use cpcjudge_site.Arena.Engine.Reachable.{Step, Reachable, Reachable-Sound}

-- what an action that does not raise leaves has the same match, since there is no such action
abbrev Refused : Battle → Result Battle → Type 0
Refused b r = (b' : Battle) → r ≡ done b' → b'.match_row ≡ b.match_row

require-Refused :
    (b : Battle) (ok : Bool) (e : ArenaError) (r : Result Battle)
    → Refused b r
    → Refused b (require ok e r)
unfolding require
require-Refused b true e r h = h
require-Refused b false e r h = λ b' k. absurd (ground arith)

fails-Refused :
    (b : Battle) (ok : Bool) (e : ArenaError) (r : Result Battle)
    → ok ≡ false
    → Refused b (require ok e r)
unfolding require
fails-Refused b ok e r h = λ b' k. absurd (ground arith)

with_game-Refused :
    (b : Battle) (id : ℕ) (f : Game → Result Battle)
    → ((g : Game) → Refused b (f g))
    → Refused b (with_game id b f)
unfolding with_game
with_game-Refused b id f h = elim (Option-cases (find_game id b.games)) [
  | inl e ↦ rw (with_game, e) (λ b' k. absurd (ground arith))
  | inr (g, e) ↦ rw (with_game, e) (h g)
]

on_open_match-Refused :
    (version : Option ℕ) (b : Battle) (r : Result Battle)
    → is_over b.match_row.status ≡ true
    → Refused b (on_open_match version b r)
unfolding on_open_match
on_open_match-Refused version b r over =
    require-Refused b (check_version version b.match_row) _ _
      (fails-Refused b (not (is_over b.match_row.status)) _ _ (ground arith))

tick_over :
    (bank : Match → Game → Option Problems) (now id : ℕ) (b : Battle)
    → is_over b.match_row.status ≡ true
    → Sound b
    → tick bank now id b ≡ b
unfolding tick tick_locked
tick_over bank now id b over s = elim (Option-cases (find_game id b.games)) [
  | inl e ↦ rw (tick, e) refl
  | inr (g, e) ↦ elim (Bool-cases (active g)) [
    | inl a ↦
        let played = found_active id g b.games e a in
        let calm = s.quiet over in absurd (omega arith)
    | inr a ↦
        let nothing : evaluate g now (b.attempts g.id) ≡ none = ground arith in
        rw (tick, e, tick_locked, nothing) refl
  ]
]

step_over :
    {bank : Match → Game → Option Problems} {b b' : Battle}
    → Step bank b b'
    → Sound b
    → is_over b.match_row.status ≡ true
    → b'.match_row ≡ b.match_row
unfolding extend_game update_match walkover cancel_match add_game cancel_game declare_winner
    finalize_verification call_match start_game replace_player
step_over {bank = k} (Step.looked now id b) s over =
    ap (λ x. x.match_row) (tick_over k now id b over s)
step_over (Step.judged attempts b) s over = refl
step_over (Step.added a v b e) s over = on_open_match-Refused v b _ over _ e
step_over {bank = k} (Step.called a n r bu v b e) s over =
    let free : is_locking b.match_row.status ≡ false = ground arith in
    require-Refused b _ _ _ (rw free (fails-Refused b _ _ _ (ground arith))) _ e
step_over {bank = k} (Step.began a n ru f r bu l w g v b e) s over =
    require-Refused b _ _ _ (fails-Refused b (can_start b.match_row.status) _ _ (ground arith)) _ e
step_over (Step.extended a g m v b e) s over = on_open_match-Refused v b _ over _ e
step_over (Step.voided a g n v b e) s over = on_open_match-Refused v b _ over _ e
step_over (Step.declared a g l n v b e) s over =
    require-Refused b _ _ _
      (with_game-Refused b g _ (λ x.
        require-Refused b _ _ _
          (fails-Refused b (is_playing b.match_row.status) _ _ (ground arith))))
      _ e
step_over (Step.verified a g n v b e) s over = on_open_match-Refused v b _ over _ e
step_over (Step.given a l n v b e) s over = on_open_match-Refused v b _ over _ e
step_over (Step.cancelled a n v b e) s over =
    require-Refused b _ _ _
      (require-Refused b _ _ _
        (fails-Refused b (not (is_over b.match_row.status)) _ _ (ground arith)))
      _ e
step_over (Step.changed a v o b e) s over = on_open_match-Refused v b _ over _ e
step_over (Step.replaced a l p bu v b e) s over = on_open_match-Refused v b _ over _ e

-- Once a sound battle's match is decided or cancelled, none of the engine's modelled actions and no look
-- at a game changes the match: not its result, its wins, its players or its version. Those are the actions
-- of engine.py that `Step` lists; correcting the winner, `set_winner` of tournament.py, is not one of them.
pub over_stays :
    (bank : Match → Game → Option Problems) (b b' : Battle)
    → Sound b
    → is_over b.match_row.status ≡ true
    → Reachable bank b b'
    → b'.match_row ≡ b.match_row
over_stays bank b b' s over Reachable.here = refl
over_stays bank b b' s over (Reachable.next {b' = c} before step) =
    let same = over_stays bank b c s over before in
    step_over step (Reachable-Sound bank b c s before) (ap (λ m. is_over m.status) same ∙ over)
    ∙ same
