-- ===== src/Lib.antt =====
-- A verification library for the arena and the judge bridge of this repository.
--
-- The arena (judge/arena) runs battles: two players, a series of games, each game a short contest on
-- a few problems. `scoring.py` says, from the attempts of the two players, whether a game is in its
-- countdown, live, waiting for verdicts, won or tied; `engine.py` records that in the rows of
-- `judge/models/arena.py`, and carries out what organizers ask for; `tournament.py` builds the bracket.
-- The bridge (judge/bridge) hands submissions to the judges; `judge_list.py` is its queue.
--
-- Base            names of the libraries, Boolean tests, lists and integers.
-- Arena.Scoring   judge/arena/scoring.py up to `_standing`: attempts, events, standings.
-- Arena.Outcome   the rest of scoring.py: `worst_case`, `best_case`, `beats`, `decide`. The children
--                 prove that a decision taken early is final: Better (what makes a standing better),
--                 Ordered, First, Rows and Collected (events by date), Future and Chances (attempts still
--                 to come), Compare and Finality. Stuck is about the organizer's final call.
-- Arena.Seeding   judge/arena/tournament.py: `seeding_order`, `bracket_size`, `round_count`. Children:
--                 Doubling (the order by doubling) and Bracket (byes, and when seeds meet).
-- Arena.Engine    judge/arena/engine.py. Rows are the models and the helpers that read and save
--                 them; Play is `tick`, `_apply`, `_finish`, `_tie`, `_decide_match`; Actions are the
--                 organizers' actions. Counting, Sound, Endings, Leaves, Games, Reachable, Over
--                 and Extended are the proofs. Lock is `lock_until`. Create is `create_duel`, and
--                 Created its proof.
-- Arena.Bracket   judge/arena/tournament.py: `_place`, `advance`, `_check_finished`, `set_winner`,
--                 `start_tournament`, `archive_tournament`; Placement has the proofs. Rounds has the
--                 participants and the rounds, Build `_build_bracket`, `generate_bracket` and
--                 `set_participants`; Links, Seats and Entered have the proofs.
-- Arena.Access    judge/arena/access.py: who may see and manage battles, tournaments, screens, banks.
--                 Keys is about queries by key; Closed and Listed have the proofs.
-- Arena.Rating    judge/arena/rating.py: which battles count and in which order. Dictionary has the tables,
--                 Compute is `compute`, Sync `check` and `recompute`. Counting, Found, Times, Totals,
--                 Keyed, Settled and Recompute have the proofs.
-- Arena.Rules     judge/arena/rules.py: what a request may set and how the layers merge; Draw has the
--                 settings for drawing problems. Cleaning, Merging and Saved have the proofs.
-- ContestFormat   judge/contest_format/icpc.py: the label of a problem; Labels has the proof.
-- ProblemData     judge/utils/problem_data.py: Cases is the loop of `make_init` over the rows of a
--                 problem, Init the rest of it, `make_interactive` and `compile`. Batches and Loop
--                 follow the loop, Counts and Stored what is returned and stored.
-- Bridge.JudgeList  judge/bridge/judge_list.py: `judge`, `abort`, `register`, `remove`,
--                 `on_judge_free`, `_handle_free_judge`, `_update_min_tier`. Dispatch, Reserve, Queued,
--                 Exclusive and Reachable have the proofs.
--
-- How the code is modelled. Points are natural numbers of thousandths and moments are natural numbers
-- of microseconds, so the tolerance of scoring.py is exact here. An action of the engine runs in a
-- transaction: it is a function from a battle to a battle or an error, and an error leaves the battle
-- as it was. The bank of problems of a tournament, the players busy in another battle, the languages
-- of a problem and the warnings before a start are arguments. The bridge's judges are a store of
-- objects, since the set of judges and the map of submissions share them; a call that raises is a
-- value beside the state it leaves. What sending to a judge does is an argument.
--
-- Fuel. The loops of `seeding_order`, `bracket_size` and `round_count` run on fuel: the size, the count
-- and the size again, which is enough since each round doubles or halves. `judge` calls itself once,
-- after a failure; two calls are enough, since the second finds the submission already taken. The
-- loop of `get_label_for_problem` has the index plus one for fuel, since each round leaves less of it.
--
-- Not modelled: requests, pages, the database's queries, caches and logs, presence, screens,
-- submissions from the arena, and the rest
-- of the site.
pub mod Arena
pub mod Base
pub mod Bridge
pub mod ContestFormat
pub mod ProblemData
