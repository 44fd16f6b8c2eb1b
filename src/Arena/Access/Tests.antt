-- ===== src/Arena/Access/Tests.antt =====
-- judge/arena/access.py: a tournament of three people, one of its players among its organizers.
use cpcjudge_site.Base.{
  ℕ, true, false, not, ◌&&◌, ◌||◌, Option, none, some, [], ◌∷◌, contains, keep, any, ◌≡◌, refl, inl,
  inr,
}
use cpcjudge_site.Arena.Engine.Rows.{MatchStatus}
use cpcjudge_site.Arena.Bracket.{TournamentStatus}
use cpcjudge_site.Arena.Access.{
  User, Tables, ArenaTournament, ArenaMatch, ArenaScreen, ArenaProblemBank, match_ids, screen_ids,
  bank_ids, matches_for, screens_for, banks_for, closed_match_ids, contends, plays,
  can_manage_match, can_manage_screen, can_manage_bank, is_played_by, can_manage_tournament,
}
use cpcjudge_site.Arena.Access.Listed.{
  can_manage_screen-listed, can_manage_bank-listed, closed_match_ids-contends,
  can_manage_match-listed,
}
use cpcjudge_site.Arena.Access.Closed.{can_manage_match-IsFair}

abbrev organizer : Option ℕ → Option User
organizer profile = some (record {
  is_authenticated = true;
  is_active = true;
  has_own = true;
  has_all = false;
  has_history = false;
  has_ranking = false;
  profile = profile;
})

-- The battle of the tournament is over for player 7, so they may run the other one.
abbrev cup : ArenaTournament
cup = record {
  id = 1;
  status = TournamentStatus.running;
  bank = some 5;
  created_by = some 9;
  organizers = 7 ∷ [];
  participants = 7 ∷ 8 ∷ 6 ∷ [];
  show_in_history = false;
}

abbrev battle : ℕ → MatchStatus → ℕ → ℕ → ArenaMatch
battle id status a b = record {
  id = id;
  tournament = some 1;
  status = status;
  player_a = some a;
  player_b = some b;
  created_by = some 9;
  organizers = [];
}

abbrev first : ArenaMatch
first = battle 1 MatchStatus.decided 7 8

abbrev final : ArenaMatch
final = battle 2 MatchStatus.playing 8 6

abbrev projector : ArenaScreen
projector = record { id = 1; tournament = some 1; battle = none; created_by = some 7 }

abbrev problem_bank : ArenaProblemBank
problem_bank = record { id = 5; created_by = some 7 }

abbrev rows : Tables
rows = record {
  tournaments = cup ∷ [];
  matches = first ∷ final ∷ [];
  screens = projector ∷ [];
  banks = problem_bank ∷ [];
}

-- A player of the final, an organizer too, may not run the first battle.
player_refused : can_manage_match rows (organizer (some 8)) (some first) ≡ false
unfolding can_manage_match any keep
player_refused = refl

-- An organizer without a profile organizes a tournament that has no co-organizers.
without_profile :
    can_manage_tournament
      (record rows { tournaments = record cup { organizers = [] } ∷ [] })
      (organizer none)
      (some cup)
    ≡ true
unfolding can_manage_tournament any keep
without_profile = refl

can_manage_screen-listed_example :
    can_manage_screen rows (organizer (some 7)) (some projector)
    ≡ contains projector.id (screen_ids (screens_for rows (organizer (some 7))))
unfolding any
can_manage_screen-listed_example =
    can_manage_screen-listed rows (organizer (some 7)) projector (refl, tt) (inl refl)

can_manage_bank-listed_example :
    can_manage_bank rows (organizer (some 7)) (some problem_bank)
    ≡ contains problem_bank.id (bank_ids (banks_for rows (organizer (some 7))))
unfolding any
can_manage_bank-listed_example =
    can_manage_bank-listed rows (organizer (some 7)) problem_bank (refl, tt) (inl refl)

closed_match_ids-contends_example :
    contains final.id (closed_match_ids rows (organizer (some 8))) ≡ (
      plays (organizer (some 8)) (some final)
      || contends rows (organizer (some 8)) final.tournament)
unfolding any
closed_match_ids-contends_example =
    closed_match_ids-contends rows (organizer (some 8)) final (refl, (refl, tt)) (inr (inl refl))

can_manage_match-listed_example : can_manage_match rows (organizer (some 7)) (some final) ≡ (
    contains final.id (match_ids (matches_for rows (organizer (some 7))))
    && not (contains final.id (closed_match_ids rows (organizer (some 7)))))
unfolding any
can_manage_match-listed_example =
    can_manage_match-listed rows (organizer (some 7)) final (refl, (refl, tt)) (inr (inl refl))

can_manage_match-IsFair_example : is_played_by 7 first ≡ false
unfolding can_manage_match any keep
can_manage_match-IsFair_example =
    can_manage_match-IsFair rows (organizer (some 7)) 7 final first cup refl (refl, tt) (inl refl)
      refl refl refl (inl refl) refl
