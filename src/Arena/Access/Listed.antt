-- ===== src/Arena/Access/Listed.antt =====
-- judge/arena/access.py: the lists of the panel agree with the check on each row.
use cpcjudge_site.Base.{
  ℕ, Bool, true, false, not, ◌&&◌, ◌||◌, if◌then◌else◌, Option, none, some, List, [], keep, any,
  contains, ◌≡◌, refl, sym, ap, arith, is_some, same_option,
}
use cpcjudge_site.Arena.Access.{
  User, Tables, ArenaMatch, ArenaScreen, ArenaProblemBank, can_manage, manages_all, profile_id,
  playing_profile, organized_by, is_in, tournament_ids, match_ids, screen_ids, bank_ids,
  tournaments_for, matches_for, contended_tournaments, contends, contended_screens, contended_banks,
  contends_bank, screens_for, banks_for, closed_match_ids, plays, can_manage_match,
  can_manage_screen, can_manage_bank, is_played_by, is_over, has_slot,
}
use cpcjudge_site.Arena.Access.Keys.{IsKeyed, IsRow, contains-key, contains-listed, contains-owned}

-- Organizing all battles is organizing some.
pub manages_all-can_manage : (u : Option User) → manages_all u ≡ true → can_manage u ≡ true
unfolding manages_all can_manage
manages_all-can_manage none h = h
manages_all-can_manage (some u) h = ground arith

-- The check of a row asks the list that it is in.
allowed-listed :
    (manages all_ own closed listed : Bool)
    → (all_ ≡ true → manages ≡ true)
    → listed ≡ (manages && (all_ || own) && not closed)
    → (if closed then false else all_ || manages && listed) ≡ listed
allowed-listed manages all_ own true listed h e = ground arith
allowed-listed manages true own false listed h e = ground (arith, h refl)
allowed-listed manages false own false listed h e = ground arith

-- A user may manage a saved screen exactly when it is one of the screens listed to them.
pub can_manage_screen-listed :
    (db : Tables) (u : Option User) (s : ArenaScreen)
    → IsKeyed (λ r. r.id) db.screens
    → IsRow s db.screens
    → can_manage_screen db u (some s) ≡ contains s.id (screen_ids (screens_for db u))
unfolding can_manage_screen screens_for
can_manage_screen-listed db u s keyed row =
    allowed-listed (can_manage u) (manages_all u) (same_option s.created_by (profile_id u))
      (contains s.id (screen_ids (contended_screens db u)))
      (contains s.id (screen_ids (screens_for db u))) (manages_all-can_manage u)
      (contains-listed (λ r. r.id) (can_manage u) (manages_all u)
        (λ r. same_option r.created_by (profile_id u)) (screen_ids (contended_screens db u)) s
        db.screens keyed row)

-- A user may manage a saved problem bank exactly when it is one of the banks listed to them.
pub can_manage_bank-listed :
    (db : Tables) (u : Option User) (b : ArenaProblemBank)
    → IsKeyed (λ r. r.id) db.banks
    → IsRow b db.banks
    → can_manage_bank db u (some b) ≡ contains b.id (bank_ids (banks_for db u))
unfolding can_manage_bank contends_bank banks_for
can_manage_bank-listed db u b keyed row =
    allowed-listed (can_manage u) (manages_all u) (same_option b.created_by (profile_id u))
      (contains b.id (bank_ids (contended_banks db u))) (contains b.id (bank_ids (banks_for db u)))
      (manages_all-can_manage u)
      (contains-listed (λ r. r.id) (can_manage u) (manages_all u)
        (λ r. same_option r.created_by (profile_id u)) (bank_ids (contended_banks db u)) b db.banks
        keyed row)

-- the closed battles of a profile, or of none
closed-contends :
    (db : Tables) (o : Option ℕ) (tournaments : List ℕ) (m : ArenaMatch)
    → (o ≡ none → is_in m.tournament tournaments ≡ false)
    → IsKeyed (λ r. r.id) db.matches
    → IsRow m db.matches
    → contains m.id (elim o [
      | none ↦ []
      | some p ↦
          match_ids (keep (λ r. is_played_by p r || is_in r.tournament tournaments) db.matches)
    ])
      ≡ (elim o [ none ↦ false | some p ↦ has_slot p m && not (is_over m.status) ]
          || is_in m.tournament tournaments)
unfolding any
closed-contends db none tournaments m h keyed row = sym (h refl)
closed-contends db (some p) tournaments m h keyed row =
    contains-key (λ r. r.id) (λ r. is_played_by p r || is_in r.tournament tournaments) m db.matches
      keyed row

contended_tournaments-none :
    (db : Tables) (u : Option User) → playing_profile u ≡ none → contended_tournaments db u ≡ []
unfolding contended_tournaments
contended_tournaments-none db u h = rw (contended_tournaments, h) refl

not-contends :
    (db : Tables) (u : Option User) (t : Option ℕ)
    → playing_profile u ≡ none
    → contends db u t ≡ false
unfolding contends any
not-contends db u none h = refl
not-contends db u (some t) h =
    ap (λ l. contains t (tournament_ids l)) (contended_tournaments-none db u h)

-- `closed_match_ids` has the key of a saved battle exactly when the user plays it, or still plays its
-- tournament.
pub closed_match_ids-contends :
    (db : Tables) (u : Option User) (m : ArenaMatch)
    → IsKeyed (λ r. r.id) db.matches
    → IsRow m db.matches
    → contains m.id (closed_match_ids db u) ≡ (plays u (some m) || contends db u m.tournament)
unfolding closed_match_ids plays contends
closed_match_ids-contends db u m keyed row =
    closed-contends db (playing_profile u) (tournament_ids (contended_tournaments db u)) m
      (not-contends db u m.tournament) keyed row

allowed-match :
    (manages all_ own closed listed shut : Bool)
    → (all_ ≡ true → manages ≡ true)
    → listed ≡ (all_ || manages && own)
    → shut ≡ closed
    → (if closed then false else all_ || manages && listed) ≡ (listed && not shut)
allowed-match manages all_ own true listed shut h e f = ground arith
allowed-match manages true own false listed shut h e f = ground (arith, h refl)
allowed-match manages false own false listed shut h e f = ground arith

-- A user who organizes some battles may manage a saved battle exactly when it is listed to them and is not
-- one of the closed ones.
pub can_manage_match-listed :
    (db : Tables) (u : Option User) (m : ArenaMatch)
    → IsKeyed (λ r. r.id) db.matches
    → IsRow m db.matches
    → can_manage_match db u (some m) ≡ (
        contains m.id (match_ids (matches_for db u)) && not (contains m.id (closed_match_ids db u)))
unfolding can_manage_match matches_for
can_manage_match-listed db u m keyed row =
    allowed-match (can_manage u) (manages_all u) (own m)
      (plays u (some m) || contends db u m.tournament)
      (contains m.id (match_ids (matches_for db u))) (contains m.id (closed_match_ids db u))
      (manages_all-can_manage u)
      (contains-owned (λ r. r.id) (manages_all u) (can_manage u) own m db.matches keyed row)
      (closed_match_ids-contends db u m keyed row)
  where
    own : ArenaMatch → Bool
    own r =
        not (is_some r.tournament) && organized_by (profile_id u) r.created_by r.organizers
        || is_in r.tournament (tournament_ids (tournaments_for db u))
