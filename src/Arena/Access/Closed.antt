-- ===== src/Arena/Access/Closed.antt =====
-- judge/arena/access.py: nobody runs a battle that they may still play, and who sees the hidden history.
use cpcjudge_site.Base.{
  ℕ, true, false, ◌&&◌, ◌||◌, Option, some, contains, ◌≡◌, sym, ◌∙◌, subst, same_option, inl, inr,
  Bool-cases, arith,
}
use cpcjudge_site.Arena.Access.{
  User, Tables, ArenaTournament, ArenaMatch, playing_profile, tournament_ids, contended_by,
  contended_tournaments, contends, can_manage_match, is_played_by, is_unfinished, is_draft,
  playing_in,
}
use cpcjudge_site.Arena.Access.Keys.{IsKeyed, IsRow, any-row, contains-key}

-- Whoever plays an open battle of an unfinished tournament contends it.
contends-played :
    (db : Tables) (u : Option User) (p : ℕ) (t : ArenaTournament) (n : ArenaMatch)
    → playing_profile u ≡ some p
    → IsKeyed (λ r. r.id) db.tournaments
    → IsRow t db.tournaments
    → is_unfinished t.status ≡ true
    → IsRow n db.matches
    → n.tournament ≡ some t.id
    → is_played_by p n ≡ true
    → contends db u (some t.id) ≡ true
unfolding contends contended_tournaments contended_by
contends-played db u p t n logged keyed row running other in_it played =
    let playing : playing_in p t.id db.matches ≡ true =
      any-row (λ m. same_option m.tournament (some t.id) && is_played_by p m) n db.matches other
        (ground (arith, in_it, played)) in
    let found : contains t.id (tournament_ids (contended_by db p)) ≡ true =
      contains-key (λ r. r.id)
        (λ r.
          is_draft r.status && contains p r.participants
          || is_unfinished r.status && playing_in p r.id db.matches)
        t db.tournaments keyed row
      ∙ ground (arith, running, playing) in
    rw (contends, contended_tournaments, logged) found

-- Nobody runs a battle of a tournament while they play: a user who may manage a battle of a draft or running
-- tournament, whatever their permissions, plays no battle of that tournament that is not over, neither that
-- one nor another.
pub can_manage_match-IsFair :
    (db : Tables) (u : Option User) (p : ℕ) (m n : ArenaMatch) (t : ArenaTournament)
    → playing_profile u ≡ some p
    → IsKeyed (λ r. r.id) db.tournaments
    → IsRow t db.tournaments
    → is_unfinished t.status ≡ true
    → m.tournament ≡ some t.id
    → can_manage_match db u (some m) ≡ true
    → IsRow n db.matches
    → n.tournament ≡ some t.id
    → is_played_by p n ≡ false
unfolding can_manage_match
can_manage_match-IsFair db u p m n t logged keyed row running of_it manages other in_it =
    elim (Bool-cases (is_played_by p n)) [
      | inr e ↦ e
      | inl e ↦
          let contended : contends db u m.tournament ≡ true =
            subst (λ o. contends db u o ≡ true) (sym of_it)
              (contends-played db u p t n logged keyed row running other in_it e) in
          absurd (ground (arith, manages, contended))
    ]
