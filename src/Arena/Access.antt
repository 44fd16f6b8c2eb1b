-- ===== src/Arena/Access.antt =====
-- judge/arena/access.py: who may see and change the battles, tournaments, screens and problem banks. A
-- table is the list of its rows, a query the list of the rows it finds, and a key the number of a row: the
-- keys of a table differ.
mod Keys
pub mod Closed
pub mod Listed
mod Tests
use cpcjudge_site.Base.{
  ℕ, Bool, true, false, not, ◌&&◌, ◌||◌, ◌==◌, if◌then◌else◌, Option, none, some, List, [], ◌∷◌,
  map, keep, any, contains, is_some, same_option,
}
use cpcjudge_site.Arena.Engine.Rows.{MatchStatus}
use cpcjudge_site.Arena.Bracket.{TournamentStatus}

-- A user: the permissions are the answers of `has_perm`, which Django gives.
pub record User : Type 0 where
  pub is_authenticated : Bool
  pub is_active : Bool
  pub has_own : Bool
  pub has_all : Bool
  pub has_history : Bool
  pub has_ranking : Bool
  pub profile : Option ℕ

-- the columns that access.py reads, and the participants of a tournament
pub record ArenaTournament : Type 0 where
  pub id : ℕ
  pub status : TournamentStatus
  pub bank : Option ℕ
  pub created_by : Option ℕ
  pub organizers : List ℕ
  pub participants : List ℕ
  pub show_in_history : Bool

pub record ArenaMatch : Type 0 where
  pub id : ℕ
  pub tournament : Option ℕ
  pub status : MatchStatus
  pub player_a : Option ℕ
  pub player_b : Option ℕ
  pub created_by : Option ℕ
  pub organizers : List ℕ

pub record ArenaScreen : Type 0 where
  pub id : ℕ
  pub tournament : Option ℕ
  pub battle : Option ℕ
  pub created_by : Option ℕ

pub record ArenaProblemBank : Type 0 where
  pub id : ℕ
  pub created_by : Option ℕ

pub record Tables : Type 0 where
  pub tournaments : List ArenaTournament
  pub matches : List ArenaMatch
  pub screens : List ArenaScreen
  pub banks : List ArenaProblemBank

-- `can_manage`, of a user or of none
unfoldable pub can_manage : Option User → Bool
can_manage none = false
can_manage (some u) = u.is_authenticated && u.is_active && (u.has_own || u.has_all)

unfoldable pub manages_all : Option User → Bool
unfolding can_manage
manages_all none = false
manages_all (some u) = can_manage (some u) && u.has_all

abbrev pub profile_id : Option User → Option ℕ
profile_id none = none
profile_id (some u) = u.profile

-- the profile of a user who is logged in
abbrev pub playing_profile : Option User → Option ℕ
playing_profile none = none
playing_profile (some u) = if u.is_authenticated then u.profile else none

-- `_tournament_q`: a column or a relation is compared with None by asking whether it is empty.
abbrev pub organized_by : Option ℕ → Option ℕ → List ℕ → Bool
organized_by profile created_by organizers = same_option created_by profile || elim profile [
  | none ↦ elim organizers [ [] ↦ true | _ ∷ _ ↦ false ]
  | some p ↦ contains p organizers
]

-- `id__in`: whether an optional key is one of these
abbrev pub is_in : Option ℕ → List ℕ → Bool
is_in none ids = false
is_in (some k) ids = contains k ids

abbrev pub tournament_ids : List ArenaTournament → List ℕ
tournament_ids rows = map (λ t. t.id) rows

abbrev pub match_ids : List ArenaMatch → List ℕ
match_ids rows = map (λ m. m.id) rows

abbrev pub screen_ids : List ArenaScreen → List ℕ
screen_ids rows = map (λ s. s.id) rows

abbrev pub bank_ids : List ArenaProblemBank → List ℕ
bank_ids rows = map (λ b. b.id) rows

unfoldable pub tournaments_for : Tables → Option User → List ArenaTournament
unfolding can_manage manages_all
tournaments_for db u =
    if manages_all u
    then db.tournaments
    else if not (can_manage u)
    then []
    else keep (λ t. organized_by (profile_id u) t.created_by t.organizers) db.tournaments

unfoldable pub matches_for : Tables → Option User → List ArenaMatch
unfolding can_manage manages_all tournaments_for
matches_for db u =
    if manages_all u
    then db.matches
    else if not (can_manage u)
    then []
    else keep
        (λ m.
          not (is_some m.tournament) && organized_by (profile_id u) m.created_by m.organizers
          || is_in m.tournament (tournament_ids (tournaments_for db u)))
        db.matches

-- decided or cancelled
abbrev pub is_over : MatchStatus → Bool
is_over MatchStatus.decided = true
is_over MatchStatus.cancelled = true
is_over _ = false

abbrev pub is_draft : TournamentStatus → Bool
is_draft TournamentStatus.draft = true
is_draft _ = false

-- a draft, or running
abbrev pub is_unfinished : TournamentStatus → Bool
is_unfinished TournamentStatus.draft = true
is_unfinished TournamentStatus.running = true
is_unfinished _ = false

-- `Q(player_a_id=profile_id) | Q(player_b_id=profile_id)`, without the battles that are over
abbrev pub is_played_by : ℕ → ArenaMatch → Bool
is_played_by p m =
    (same_option m.player_a (some p) || same_option m.player_b (some p)) && not (is_over m.status)

-- `playing`: the tournaments of the battles that the profile still plays
abbrev pub playing_in : ℕ → ℕ → List ArenaMatch → Bool
playing_in p tournament matches =
    any (λ m. same_option m.tournament (some tournament) && is_played_by p m) matches

-- `_contended_by`
unfoldable pub contended_by : Tables → ℕ → List ArenaTournament
contended_by db p =
    keep
      (λ t.
        is_draft t.status && contains p t.participants
        || is_unfinished t.status && playing_in p t.id db.matches)
      db.tournaments

unfoldable pub contended_tournaments : Tables → Option User → List ArenaTournament
unfolding contended_by
contended_tournaments db u = elim (playing_profile u) [ none ↦ [] | some p ↦ contended_by db p ]

-- `contends`, of the key of a tournament, if there is one
unfoldable pub contends : Tables → Option User → Option ℕ → Bool
unfolding contended_tournaments
contends db u tournament = is_in tournament (tournament_ids (contended_tournaments db u))

unfoldable pub profile_contends : Tables → Option ℕ → Option ℕ → Bool
unfolding contended_by
profile_contends db none tournament = false
profile_contends db (some p) tournament = is_in tournament (tournament_ids (contended_by db p))

unfoldable pub contended_screens : Tables → Option User → List ArenaScreen
unfolding contended_tournaments
contended_screens db u =
    let tournaments = tournament_ids (contended_tournaments db u) in
    let battles = match_ids (keep (λ m. is_in m.tournament tournaments) db.matches) in
    keep (λ s. is_in s.tournament tournaments || is_in s.battle battles) db.screens

-- Whether one of the tournaments has the bank.
abbrev pub has_bank : ℕ → List ArenaTournament → Bool
has_bank bank tournaments = any (λ t. same_option t.bank (some bank)) tournaments

unfoldable pub contended_banks : Tables → Option User → List ArenaProblemBank
unfolding contended_tournaments
contended_banks db u = keep (λ b. has_bank b.id (contended_tournaments db u)) db.banks

unfoldable pub contends_bank : Tables → Option User → Option ℕ → Bool
unfolding contended_banks
contends_bank db u bank = is_in bank (bank_ids (contended_banks db u))

unfoldable pub screens_for : Tables → Option User → List ArenaScreen
unfolding can_manage manages_all contended_screens
screens_for db u =
    if not (can_manage u)
    then []
    else let own =
        if manages_all u
        then db.screens
        else keep (λ s. same_option s.created_by (profile_id u)) db.screens in
      keep (λ s. not (contains s.id (screen_ids (contended_screens db u)))) own

-- `screens_of_actor`, of the actor's user, if there is an actor
unfoldable pub screens_of_actor : Tables → Option User → List ArenaScreen
unfolding can_manage screens_for
screens_of_actor db actor = if not (can_manage actor) then db.screens else screens_for db actor

unfoldable pub banks_for : Tables → Option User → List ArenaProblemBank
unfolding can_manage manages_all contended_banks
banks_for db u =
    if not (can_manage u)
    then []
    else let own =
        if manages_all u
        then db.banks
        else keep (λ b. same_option b.created_by (profile_id u)) db.banks in
      keep (λ b. not (contains b.id (bank_ids (contended_banks db u)))) own

unfoldable pub closed_match_ids : Tables → Option User → List ℕ
unfolding contended_tournaments
closed_match_ids db u = elim (playing_profile u) [
  | none ↦ []
  | some p ↦ match_ids (
      keep
        (λ m. is_played_by p m || is_in m.tournament (tournament_ids (contended_tournaments db u)))
        db.matches)
]

unfoldable pub can_manage_tournament : Tables → Option User → Option ArenaTournament → Bool
unfolding can_manage manages_all tournaments_for contends
can_manage_tournament db u none = manages_all u
can_manage_tournament db u (some t) =
    if contends db u (some t.id)
    then false
    else manages_all u || can_manage u && contains t.id (tournament_ids (tournaments_for db u))

-- `ArenaMatch.slot_of` is not None
abbrev pub has_slot : ℕ → ArenaMatch → Bool
has_slot p m = same_option m.player_a (some p) || same_option m.player_b (some p)

unfoldable pub plays : Option User → Option ArenaMatch → Bool
plays u none = false
plays u (some m) = elim (playing_profile u) [
  | none ↦ false
  | some p ↦ has_slot p m && not (is_over m.status)
]

unfoldable pub can_manage_match : Tables → Option User → Option ArenaMatch → Bool
unfolding can_manage manages_all matches_for contends plays
can_manage_match db u none = manages_all u
can_manage_match db u (some m) =
    if plays u (some m) || contends db u m.tournament
    then false
    else manages_all u || can_manage u && contains m.id (match_ids (matches_for db u))

unfoldable pub can_manage_screen : Tables → Option User → Option ArenaScreen → Bool
unfolding can_manage manages_all screens_for contended_screens
can_manage_screen db u none = manages_all u
can_manage_screen db u (some s) =
    if contains s.id (screen_ids (contended_screens db u))
    then false
    else manages_all u || can_manage u && contains s.id (screen_ids (screens_for db u))

unfoldable pub can_manage_bank : Tables → Option User → Option ArenaProblemBank → Bool
unfolding can_manage manages_all banks_for contends_bank
can_manage_bank db u none = manages_all u
can_manage_bank db u (some b) =
    if contends_bank db u (some b.id)
    then false
    else manages_all u || can_manage u && contains b.id (bank_ids (banks_for db u))

unfoldable pub moderates_history : Option User → Bool
unfolding manages_all
moderates_history none = false
moderates_history (some u) =
    u.is_authenticated && u.is_active && (u.has_history || manages_all (some u))

unfoldable pub can_change_history : Tables → Option User → Option ArenaTournament → Bool
unfolding moderates_history can_manage_tournament
can_change_history db u t = moderates_history u || can_manage_tournament db u t

unfoldable pub history_hidden_for : Tables → Option User → List ArenaTournament
unfolding moderates_history tournaments_for
history_hidden_for db u =
    let hidden = keep (λ t. not t.show_in_history) db.tournaments in
    if moderates_history u
    then hidden
    else keep (λ t. contains t.id (tournament_ids (tournaments_for db u))) hidden

unfoldable pub decides_ranking : Option User → Bool
decides_ranking none = false
decides_ranking (some u) = u.is_authenticated && u.is_active && u.has_ranking
