-- ===== src/Arena/Bracket/Build.antt =====
-- judge/arena/tournament.py: `_build_bracket`, and what runs it. Keys of new rows follow each other.
use cpcjudge_site.Base.{
  ℕ, zero, suc, ◌+◌, ◌-◌, ◌/◌, ◌%◌, Bool, true, false, not, ◌&&◌, Option, none, some, is_some, List,
  [], ◌∷◌, ◌++◌, ◌==◌, ltb, leb, if◌then◌else◌, length, map, get_elem?, max, find?,
}
use cpcjudge_site.Arena.Outcome.{Slot, slot_a, slot_b}
use cpcjudge_site.Arena.Engine.Rows.{
  MatchStatus, Result, done, raise, require, then_do, refused, conflict, not_found,
}
use cpcjudge_site.Arena.Seeding.{bracket_size, seeding_order}
use cpcjudge_site.Arena.Bracket.{
  BracketMatch, Tournament, Reason, find_match, save_match, advance, is_draft, is_current,
  is_decided,
}
use cpcjudge_site.Arena.Bracket.Rounds.{
  Seeding, Round, min_participants, clean_participants, is_other, sync_rounds,
}

-- a game prepared in a draft, with its problems and their points
pub record PreparedGame : Type 0 where
  pub match_id : ℕ
  pub number : ℕ
  pub rows : List (ℕ × ℕ)

-- A draft: the tournament, its participants in the order of their seeds, its rounds, the prepared games of
-- its matches, and the key of the next row.
pub record Draft : Type 0 where
  pub tournament : Tournament
  pub third_place_match : Bool
  pub seeding : Seeding
  pub participants : List ℕ
  pub rounds : List Round
  pub games : List PreparedGame
  pub next_id : ℕ

-- the place of a game: round, position, whether for third place, and the game's number
pub record Chosen : Type 0 where
  pub round : ℕ
  pub position : ℕ
  pub third : Bool
  pub number : ℕ
  pub rows : List (ℕ × ℕ)

-- `_chosen_problems`
pub chosen_problems : List BracketMatch → List PreparedGame → List Chosen
chosen_problems matches [] = []
chosen_problems matches (g ∷ rest) =
    let others = chosen_problems matches rest in
    elim (find_match g.match_id matches) [
      | none ↦ others
      | some m ↦ elim g.rows [
        | [] ↦ others
        | _ ∷ _ ↦
            record {
              round = m.round;
              position = m.position;
              third = m.is_third_place;
              number = g.number;
              rows = g.rows;
            }
            ∷ others
      ]
    ]

-- `size >> number`
unfoldable pub shift : ℕ → ℕ → ℕ
shift size zero = size
shift size (suc n) = shift (size / 2) n

abbrev pub slot_at : ℕ → Slot
slot_at position = if position % 2 == 0 then slot_a else slot_b

-- `following[position // 2]`, in a round that is not the last
abbrev pub next_of : List BracketMatch → ℕ → Option (ℕ × Slot)
next_of following position = elim (get_elem? following (position / 2)) [
  | none ↦ none
  | some f ↦ some (f.id, slot_at position)
]

abbrev pub best_of_round : ℕ → List Round → ℕ
best_of_round number rounds = elim (find? (λ r. r.number == number) rounds) [
  | none ↦ 1
  | some r ↦ r.best_of
]

abbrev pub new_match : ℕ → ℕ → ℕ → ℕ → Bool → Option (ℕ × Slot) → BracketMatch
new_match id round position best_of third next = record {
  id = id;
  round = round;
  position = position;
  best_of = best_of;
  is_third_place = third;
  status = MatchStatus.pending;
  player_a = none;
  player_b = none;
  seed_a = none;
  seed_b = none;
  next_match = next;
  loser_next_match = none;
  winner_slot = none;
  decided_reason = none;
  decided_at = none;
  version = 0;
  played = false;
}

-- the matches of a round from a position on
unfoldable pub level : ℕ → ℕ → ℕ → ℕ → ℕ → List BracketMatch → List BracketMatch
level zero position id round best_of following = []
level (suc n) position id round best_of following =
    new_match id round position best_of false (next_of following position)
    ∷ level n (suc position) (suc id) round best_of following

-- the rounds from number `n` down to the first, which stands last
unfoldable pub levels : ℕ → ℕ → List Round → ℕ → List BracketMatch → List (List BracketMatch)
unfolding shift level
levels zero size rounds id following = []
levels (suc n) size rounds id following =
    let own = level (shift size (suc n)) 0 id (suc n) (best_of_round (suc n) rounds) following in
    own ∷ levels n size rounds (id + shift size (suc n)) own

unfoldable pub concat : List (List BracketMatch) → List BracketMatch
concat [] = []
concat (l ∷ rest) = l ++ concat rest

-- the semifinals send their losers to the match for third place
unfoldable pub losers_to : ℕ → ℕ → List BracketMatch → List BracketMatch
losers_to third position [] = []
losers_to third position (m ∷ rest) =
    record m { loser_next_match = some (third, if position == 0 then slot_a else slot_b) }
    ∷ losers_to third (suc position) rest

abbrev pub has_third : Bool → ℕ → ℕ → Bool
has_third wanted rounds count = wanted && leb 2 rounds && leb 4 count

-- the rounds with the match for third place, if there is one, whose key is `id`
unfoldable pub with_third : Bool → ℕ → ℕ → List (List BracketMatch) → List (List BracketMatch)
unfolding losers_to
with_third true id best_of (final ∷ semifinals ∷ rest) =
    (new_match id (length rest + 2) 1 best_of true none ∷ final) ∷ losers_to id 0 semifinals ∷ rest
with_third _ id best_of rounds = rounds

-- `seeds.get(seed)`
abbrev pub seed_profile : List ℕ → ℕ → Option ℕ
seed_profile participants seed = if seed == 0 then none else get_elem? participants (seed - 1)

-- a match of the first round gets its players
abbrev pub seated : List ℕ → ℕ → ℕ → BracketMatch → BracketMatch
seated participants a b m =
    let player_a = seed_profile participants a in
    let player_b = seed_profile participants b in
    record m {
      player_a = player_a;
      seed_a = if is_some player_a then some a else none;
      player_b = player_b;
      seed_b = if is_some player_b then some b else none;
      status = if is_some player_a && is_some player_b then MatchStatus.ready else m.status;
    }

unfoldable pub seat : List ℕ → List ℕ → List BracketMatch → List BracketMatch
seat participants (a ∷ b ∷ order) (m ∷ rest) =
    seated participants a b m ∷ seat participants order rest
seat participants order matches = matches

unfoldable pub seat_first : List ℕ → List ℕ → List (List BracketMatch) → List (List BracketMatch)
unfolding seat
seat_first participants order [] = []
seat_first participants order (l ∷ []) = seat participants order l ∷ []
seat_first participants order (l ∷ k ∷ rest) = l ∷ seat_first participants order (k ∷ rest)

abbrev pub is_pending : MatchStatus → Bool
is_pending MatchStatus.pending = true
is_pending _ = false

-- the match of a bye, decided for the lone player
abbrev pub bye : ℕ → BracketMatch → BracketMatch
bye now m = record m {
  status = MatchStatus.decided;
  winner_slot = some (if is_some m.player_a then slot_a else slot_b);
  decided_reason = some Reason.bye;
  decided_at = some now;
  version = suc m.version;
}

-- the loop over the first round, by the keys of its matches
pub byes : ℕ → List ℕ → Tournament → Result Tournament
byes now [] t = done t
byes now (id ∷ rest) t = elim (find_match id t.matches) [
  | none ↦ raise not_found
  | some m ↦
      if is_pending m.status
      then then_do
          (advance (bye now m) now (record t { matches = save_match (bye now m) t.matches }))
          (byes now rest)
      else byes now rest t
]

abbrev pub same_bool : Bool → Bool → Bool
same_bool true b = b
same_bool false b = not b

abbrev pub is_place : BracketMatch → Chosen → Bool
is_place m c = c.round == m.round && c.position == m.position && same_bool c.third m.is_third_place

-- the problems chosen for a game of a match
abbrev pub chosen_rows : List Chosen → BracketMatch → ℕ → List (ℕ × ℕ)
chosen_rows chosen m number = elim (find? (λ c. is_place m c && c.number == number) chosen) [
  | none ↦ []
  | some c ↦ c.rows
]

-- `max(numbers, default=0)`
pub last_number : List Chosen → BracketMatch → ℕ
last_number [] m = 0
last_number (c ∷ rest) m =
    let others = last_number rest m in if is_place m c then max c.number others else others

pub games_up_to : List Chosen → BracketMatch → ℕ → List PreparedGame
games_up_to chosen m zero = []
games_up_to chosen m (suc n) =
    games_up_to chosen m n
    ++ record { match_id = m.id; number = suc n; rows = chosen_rows chosen m (suc n) } ∷ []

-- the prepared games, made again for the matches that are still to be played
pub restored : List Chosen → List BracketMatch → List PreparedGame
unfolding games_up_to last_number
restored chosen [] = []
restored chosen (m ∷ rest) =
    let others = restored chosen rest in
    if is_decided m.status then others else games_up_to chosen m (last_number chosen m) ++ others

-- the matches of a new bracket, before the byes
unfoldable pub new_levels : Draft → List Round → List (List BracketMatch)
unfolding levels with_third seat_first concat
new_levels d rounds =
    let count = length d.participants in
    let created = levels (length rounds) (bracket_size count) rounds d.next_id [] in
    seat_first d.participants (seeding_order (bracket_size count)) (
      with_third (has_third d.third_place_match (length rounds) count)
        (d.next_id + length (concat created)) (best_of_round (length rounds) rounds) created)

abbrev pub first_round : List (List BracketMatch) → List ℕ
first_round [] = []
first_round (l ∷ []) = map (λ m. m.id) l
first_round (l ∷ k ∷ rest) = first_round (k ∷ rest)

-- `_build_bracket`
unfoldable pub build_bracket : ℕ → Draft → Result Draft
unfolding chosen_problems new_levels byes restored concat
build_bracket now d =
    let count = length d.participants in
    let chosen = chosen_problems d.tournament.matches d.games in
    let rounds = sync_rounds count d.rounds in
    let created = new_levels d rounds in
    require (not (ltb count min_participants)) refused (
      then_do (byes now (first_round created) (record d.tournament { matches = concat created }))
        (λ t. done (record d {
          tournament = record t { version = suc t.version };
          rounds = rounds;
          games = restored chosen t.matches;
          next_id = d.next_id + length (concat created);
        })))

pub generate_bracket : ℕ → Option ℕ → Draft → Result Draft
unfolding build_bracket
generate_bracket now version d =
    require (is_current version d.tournament.version) conflict
      (require (is_draft d.tournament.status) refused (build_bracket now d))

-- `set_participants`: `order` puts the profiles in the order of a seeding.
pub set_participants :
    (Seeding → List ℕ → List ℕ)
    → Option ℕ
    → ℕ
    → List (Option ℕ)
    → Option Seeding
    → Option ℕ
    → Draft
    → Result Draft
unfolding build_bracket
set_participants order actor now profiles seeding version d =
    require (is_current version d.tournament.version) conflict (
      require (is_draft d.tournament.status) refused (
        let chosen : Seeding = elim seeding [ none ↦ d.seeding | some s ↦ s ] in
        then_do (clean_participants profiles) (λ cleaned. require (is_other actor cleaned) refused (
          build_bracket now (record d {
            seeding = chosen;
            participants = order chosen cleaned;
            rounds = sync_rounds (length (order chosen cleaned)) d.rounds;
            tournament = record d.tournament { version = suc d.tournament.version };
          })))))
