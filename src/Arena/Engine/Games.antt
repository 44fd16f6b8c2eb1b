-- ===== src/Arena/Engine/Games.antt =====
-- judge/arena/engine.py: the actions that start a game, end one or prepare the next leave a sound battle.
use cpcjudge_site.Base.{
  ℕ, ◌≡◌, subst, ap, refl, sym, ◌∙◌, inl, inr, Bool, true, false, not, ◌&&◌, Option, none, some,
  if◌then◌else◌, count, Bool-cases, Option-cases, arith,
}
use cpcjudge_site.Arena.Scoring.{Standing}
use cpcjudge_site.Arena.Outcome.{Slot, slot_a, slot_b, Problems, Decision, decide_ignoring_pending}
use cpcjudge_site.Arena.Engine.Rows.{
  Battle, Match, Game, MatchStatus, PlayRules, find_game, is_over, is_locking, is_playing, by_score,
  is_prepared, put, bump, ensure_next_game, moment_or,
}
use cpcjudge_site.Arena.Engine.Play.{finish, tie, prepare_next}
use cpcjudge_site.Arena.Engine.Actions.{
  game_to_start, with_problems, has_problems, started, void_game, add_game, cancel_game,
  declare_winner, finalize_verification, call_match, start_game,
}
use cpcjudge_site.Arena.Engine.Counting.{
  count-save_same, In-current_prepared, find-In, count-save, won_by, active, find_game-id,
}
use cpcjudge_site.Arena.Engine.Sound.{
  save-distinct, Sound, rematch-Sound, put-Sound, prepare_next-Sound, ensure_next_game-Sound,
}
use cpcjudge_site.Arena.Engine.Endings.{CanEnd, finish-Sound, tie-Sound, active-CanEnd}
use cpcjudge_site.Arena.Engine.Leaves.{
  Leaves, require-Leaves, with_game-Leaves, on_open_match-Leaves, bump-Sound, started-CanEnd,
  stopped-CanEnd, voided-Sound, prepared-unwon, prepared-idle, no_active,
}

-- A game that starts while no other one is being played.
activate-Sound :
    (g old : Game) (b : Battle)
    → find_game g.id b.games ≡ some old
    → is_over b.match_row.status ≡ false
    → count active b.games ≡ 0
    → ((slot : Slot) → won_by slot g ≡ false)
    → ((slot : Slot) → won_by slot old ≡ false)
    → Sound b
    → Sound (put g b)
activate-Sound g old b found going idle new old_unwon s =
    let counts = count-save active g old b.games found in
    record {
      counted = record {
        distinct = λ id. rw (save-distinct g old b.games found id) (s.counted.distinct id);
        fresh = λ id le. save-distinct g old b.games found id ∙ s.counted.fresh id le;
        score_a =
            s.counted.score_a
            ∙ sym (
                count-save_same (won_by slot_a) g old b.games found
                  (new slot_a ∙ sym (old_unwon slot_a)));
        score_b =
            s.counted.score_b
            ∙ sym (
                count-save_same (won_by slot_b) g old b.games found
                  (new slot_b ∙ sym (old_unwon slot_b)));
      };
      one_active = ground arith;
      quiet = λ o. absurd (ground arith);
      below = s.below;
    }

module _ (bank : Match → Game → Option Problems) where
  pub add_game-Sound :
      (actor : ℕ) (version : Option ℕ) (b : Battle)
      → Sound b
      → Leaves (add_game bank actor version b)
  unfolding add_game
  add_game-Sound actor version b s = on_open_match-Leaves version b _ (λ going.
      Leaves.left (bump-Sound actor (ensure_next_game b).0 (ensure_next_game-Sound b s).0))

  pub declare_winner-Sound :
      (actor game_id : ℕ) (slot : Slot) (now : ℕ) (version : Option ℕ) (b : Battle)
      → Sound b
      → Leaves (declare_winner bank actor game_id slot now version b)
  unfolding declare_winner
  declare_winner-Sound actor game_id slot now version b s = require-Leaves _ _ _ (λ current.
      with_game-Leaves game_id b _ (λ g found. require-Leaves _ _ _ (λ kind.
        require-Leaves _ _ _ (λ playing. require-Leaves _ _ _ (λ lone. Leaves.left (
          finish-Sound bank slot _ _ now (some actor) _ g b
            (stopped-CanEnd now g b (started-CanEnd g b found (ground arith) kind (ground arith) s))
            s))))))

  finalized :
      (d : Decision) (result : Standing × Standing) (now actor : ℕ) (g : Game) (b : Battle)
      → CanEnd g g b
      → Sound b
      → Sound (elim d.winner [
        | none ↦ tie bank result now (some actor) g b
        | some slot ↦ elim d.reason [
          | none ↦ tie bank result now (some actor) g b
          | some reason ↦ finish bank slot (by_score reason) result now (some actor) g b
        ]
      ])
  finalized d result now actor g b c s = elim (Option-cases d.winner) [
    | inl w ↦ rw w (tie-Sound bank result now (some actor) g g b c s)
    | inr (slot, w) ↦ elim (Option-cases d.reason) [
      | inl r ↦ rw (w, r) (tie-Sound bank result now (some actor) g g b c s)
      | inr (reason, r) ↦
          rw (w, r) (finish-Sound bank slot (by_score reason) result now (some actor) g g b c s)
    ]
  ]

  pub finalize_verification-Sound :
      (actor game_id now : ℕ) (version : Option ℕ) (b : Battle)
      → Sound b
      → Leaves (finalize_verification bank actor game_id now version b)
  unfolding finalize_verification
  finalize_verification-Sound actor game_id now version b s =
      on_open_match-Leaves version b _ (λ going. with_game-Leaves game_id b _ (λ g found.
        require-Leaves _ _ _ (λ waiting. Leaves.left (
          finalized
            (decide_ignoring_pending (b.attempts g.id slot_a) (b.attempts g.id slot_b) g.problems
              g.rules (moment_or g.started_at 0) (moment_or g.ends_at 0) now)
            _ now actor g b (active-CanEnd g b found (ground arith) s) s))))

  if_playing :
      (status : MatchStatus) (b : Battle)
      → Sound b
      → Sound (if is_playing status then prepare_next bank b else b)
  if_playing status b s = elim (Bool-cases (is_playing status)) [
    | inl p ↦ rw p (prepare_next-Sound bank b s)
    | inr p ↦ rw p s
  ]

  pub cancel_game-Sound :
      (actor game_id now : ℕ) (version : Option ℕ) (b : Battle)
      → Sound b
      → Leaves (cancel_game bank actor game_id now version b)
  unfolding cancel_game
  cancel_game-Sound actor game_id now version b s = on_open_match-Leaves version b _ (λ going.
      with_game-Leaves game_id b _ (λ g found. require-Leaves _ _ _ (λ kind.
        require-Leaves _ _ _ (λ lone.
          let voided =
            voided-Sound (some actor) now g b (started-CanEnd g b found going kind (ground arith) s)
              s in
          let bumped = bump-Sound actor (put (void_game now (some actor) g) b) voided in
          Leaves.left (if_playing b.match_row.status _ bumped)))))

  pub call_match-Sound :
      (actor now : ℕ) (running : Bool) (busy : ℕ → Bool) (version : Option ℕ) (b : Battle)
      → Sound b
      → Leaves (call_match bank actor now running busy version b)
  unfolding call_match
  call_match-Sound actor now running busy version b s = require-Leaves _ _ _ (λ current.
      elim (Bool-cases (is_locking b.match_row.status)) [
        | inl e ↦ rw e (Leaves.left s)
        | inr e ↦ rw e (
            require-Leaves _ _ _ (λ ready. require-Leaves _ _ _ (λ runs.
              require-Leaves _ _ _ (λ free. Leaves.left (
                prepare_next-Sound bank _ (
                  rematch-Sound b
                    (bump (some actor)
                      (record b.match_row { status = MatchStatus.called; called_at = some now }))
                    b.advanced refl refl refl (ground arith) s))))))
      ])

  with_problems-keeps :
      (g : Game) (m : Match) (P : Game → Type 0)
      → P g
      → ((ps : Problems) → P (record g { problems = ps }))
      → P (with_problems bank g m)
  with_problems-keeps g m P here given = elim (Bool-cases (has_problems g)) [
    | inl e ↦ rw (with_problems, e) here
    | inr e ↦ elim (Option-cases (bank m g)) [
      | inl f ↦ rw (with_problems, e, f) here
      | inr (ps, f) ↦ rw (with_problems, e, f) (given ps)
    ]
  ]

  game_to_start-found :
      (id : Option ℕ) (g : Game) (b : Battle)
      → game_to_start bank id b ≡ some g
      → Sound b
      → (find_game g.id b.games ≡ some g) × (is_prepared g.status ≡ true)
  game_to_start-found none g b h s =
      let (inside, kind) = In-current_prepared g b.games h in
      (find-In g b.games s.counted.distinct inside, kind)
  game_to_start-found (some id) g b h s = elim (Option-cases (find_game id b.games)) [
    | inl e ↦ absurd (ground arith)
    | inr (k, e) ↦ elim (Bool-cases (is_prepared k.status)) [
      | inl p ↦
          let same : k ≡ g = ground arith in
          let found : find_game id b.games ≡ some g = e ∙ ap some same in
          let same_id = find_game-id id g b.games found in
          (
            ap (λ i. find_game i b.games) same_id ∙ found,
            subst (λ x. is_prepared x.status ≡ true) same p,
          )
      | inr p ↦ absurd (ground arith)
    ]
  ]

  pub start_game-Sound :
      (actor now : ℕ) (rules : PlayRules) (force running : Bool) (busy : ℕ → Bool)
      (languages warned : Game → Bool) (game_id version : Option ℕ) (b : Battle)
      → Sound b
      → Leaves
          (start_game bank actor now rules force running busy languages warned game_id version b)
  unfolding start_game
  start_game-Sound actor now rules force running busy languages warned game_id version b s =
      require-Leaves _ _ _ (λ current. require-Leaves _ _ _ (λ can. require-Leaves _ _ _ (λ seated.
        require-Leaves _ _ _ (λ runs. require-Leaves _ _ _ (λ idle.
          elim (Option-cases (game_to_start bank game_id b)) [
            | inl e ↦ rw e Leaves.raised
            | inr (chosen, e) ↦
                let (found, kind) = game_to_start-found game_id chosen b e s in
                let m = b.match_row in
                let g = with_problems bank chosen m in
                let going : is_over m.status ≡ false = ground arith in
                let stored : find_game g.id b.games ≡ some chosen =
                  with_problems-keeps chosen m (λ h. find_game h.id b.games ≡ some chosen) found
                    (λ ps. found) in
                let waiting : is_prepared g.status ≡ true =
                  with_problems-keeps chosen m (λ h. is_prepared h.status ≡ true) kind
                    (λ ps. kind) in
                rw e (
                  require-Leaves _ _ _ (λ free. require-Leaves _ _ _ (λ ready.
                    elim (Bool-cases (not force && warned g)) [
                      | inl w ↦ rw w (
                          Leaves.left (
                            put-Sound b g chosen stored
                              (prepared-unwon g waiting slot_a
                                ∙ sym (prepared-unwon chosen kind slot_a))
                              (prepared-unwon g waiting slot_b
                                ∙ sym (prepared-unwon chosen kind slot_b))
                              (λ a. absurd (prepared-idle g waiting a)) s))
                      | inr w ↦
                          let playing_now =
                            activate-Sound (started rules now g) chosen b stored going
                              (no_active b.games (ground arith)) (λ slot. refl)
                              (prepared-unwon chosen kind) s in
                          rw w (
                            Leaves.left (
                              rematch-Sound (put (started rules now g) b) _ b.advanced refl refl
                                refl (sym going) playing_now))
                    ])))
          ])))))
