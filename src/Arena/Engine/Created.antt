-- ===== src/Arena/Engine/Created.antt =====
-- judge/arena/engine.py: the battles that `create_duel` lets through.
use cpcjudge_site.Base.{
  ℕ, suc, ◌≤◌, ◌==◌, Bool, true, false, not, ◌&&◌, ◌||◌, Option, none, some, List, [], ◌∷◌, ◌++◌,
  All, any, contains, length, leb, if◌then◌else◌, ◌≡◌, refl, sym, subst, inl, inr, Bool-cases,
  Option-cases, arith,
}
use cpcjudge_site.Base.Int.{ℤ, pos, negsuc}
use cpcjudge_site.Arena.Engine.Rows.{Match, ArenaError, refused, Result, done, raise, require}
use cpcjudge_site.Arena.Rules.{
  Texts, Json, Rule, Cleaned, invalid, clean_points, clean_best_of, clean_rules, is_best_of,
  one_of_best, within, parsed, then_clean, null, other, boolean, integer, real, text, array,
}
use cpcjudge_site.Arena.Engine.Create.{
  ProblemEntry, entry, malformed, max_problems, chain, or_raise, Problem, problem_ids, repeats,
  shares, all_found, clean_problem_entries, clean_problem_list, clean_games, clean_display,
  busy_elsewhere, Screen, Duel, DuelRequest, is_filled, fits, create_between, create_duel,
}

-- what holds of a result, if there is one
data Returns {A : Type 0} (P : A → Type 0) : Result A → Type 0 where
  returned : {a : A} → P a → Returns P (done a)
  raised : {e : ArenaError} → Returns P (raise e)

done-Returns : {A : Type 0} (P : A → Type 0) (m : Result A) (a : A) → Returns P m → m ≡ done a → P a
done-Returns P m a (returned h) e = subst P (ground arith) h
done-Returns P m a raised e = absurd (ground arith)

any-Returns : {A : Type 0} (m : Result A) → Returns (λ a. Unit) m
any-Returns (done a) = returned tt
any-Returns (raise e) = raised

chain-Returns :
    {A B : Type 0} (Q : A → Type 0) (P : B → Type 0) (m : Result A) (f : A → Result B)
    → Returns Q m
    → ((a : A) → Q a → Returns P (f a))
    → Returns P (chain m f)
unfolding chain
chain-Returns Q P m f (returned h) k = k _ h
chain-Returns Q P m f raised k = raised

require-Returns :
    {A : Type 0} (P : A → Type 0) (ok : Bool) (e : ArenaError) (r : Result A)
    → (ok ≡ true → Returns P r)
    → Returns P (require ok e r)
unfolding require
require-Returns P true e r h = h refl
require-Returns P false e r h = raised

not-true : (b : Bool) → not b ≡ true → b ≡ false
not-true true h = sym h
not-true false h = refl

-- a problem of a game: points within their bounds
abbrev pub HasPoints : Problem → Type 0
HasPoints (id, pos n) = (1 ≤ n) × (n ≤ 10000)
HasPoints (id, negsuc n) = ⊥

-- a game whose organizer sees `visible`, in a battle that already uses `used`
abbrev pub IsGame : List ℕ → List ℕ → List Problem → Type 0
IsGame visible used problems =
    (length problems ≤ 5)
    × All HasPoints problems
    × (repeats (problem_ids problems) ≡ false)
    × (shares (problem_ids problems) used ≡ false)
    × All (λ id. contains id visible ≡ true) (problem_ids problems)

-- Each game uses problems that the games before it do not.
abbrev pub AreGames : List ℕ → List ℕ → List (List Problem) → Type 0
AreGames visible used [] = Unit
AreGames visible used (problems ∷ rest) =
    IsGame visible used problems × AreGames visible (problem_ids problems ++ used) rest

all_found-visible :
    (visible existing ids : List ℕ)
    → all_found visible [] existing ids ≡ true
    → All (λ id. contains id visible ≡ true) ids
unfolding all_found any
all_found-visible visible existing [] h = tt
all_found-visible visible existing (id ∷ rest) h = elim (Bool-cases (contains id visible)) [
  | inl e ↦ (e, all_found-visible visible existing rest (ground arith))
  | inr e ↦ absurd (ground arith)
]

within-Returns : (z : ℤ) (id : ℕ) → Returns (λ v. HasPoints (id, v)) (or_raise (within 1 10000 z))
within-Returns (negsuc n) id = raised
within-Returns (pos n) id = elim (Bool-cases (leb 1 n && leb n 10000)) [
  | inl e ↦ rw (e) (returned (ground arith, ground arith))
  | inr e ↦ rw (e) raised
]

module _ (t : Texts) where
  -- a number read from a text, and cleaned
  parsed-Returns :
      (P : ℤ → Type 0) (looks : Bool) (s : ℕ) (f : ℤ → Cleaned ℤ)
      → ((z : ℤ) → Returns P (or_raise (f z)))
      → Returns P (or_raise (if looks then then_clean (parsed t s) f else invalid))
  parsed-Returns P false s f h = raised
  parsed-Returns P true s f h = elim (Option-cases (t.int_of s)) [
    | inl e ↦ rw (or_raise, e) raised
    | inr (z, e) ↦ rw (or_raise, e) (h z)
  ]

  best-Returns : (z : ℤ) → Returns (λ v. is_best_of t v ≡ true) (or_raise (one_of_best t z))
  best-Returns z = elim (Bool-cases (is_best_of t z)) [
    | inl e ↦ rw (e) (returned e)
    | inr e ↦ rw (e) raised
  ]

  clean_best_of-Returns :
      (v : Json) → Returns (λ z. is_best_of t z ≡ true) (or_raise (clean_best_of t v))
  unfolding clean_best_of
  clean_best_of-Returns null = raised
  clean_best_of-Returns other = raised
  clean_best_of-Returns (boolean b) = raised
  clean_best_of-Returns (array l) = raised
  clean_best_of-Returns (real none) = raised
  clean_best_of-Returns (real (some z)) = best-Returns z
  clean_best_of-Returns (integer z) = best-Returns z
  clean_best_of-Returns (text s) =
      parsed-Returns (λ z. is_best_of t z ≡ true) (t.looks_unsigned s) s (one_of_best t)
        best-Returns

  points-Returns :
      (v : Json) (id : ℕ) → Returns (λ z. HasPoints (id, z)) (or_raise (clean_points t v))
  unfolding clean_points
  points-Returns null id = raised
  points-Returns other id = raised
  points-Returns (boolean b) id = raised
  points-Returns (array l) id = raised
  points-Returns (real z) id = raised
  points-Returns (integer z) id = within-Returns z id
  points-Returns (text s) id =
      parsed-Returns (λ z. HasPoints (id, z)) (t.looks_unsigned s) s (within 1 10000)
        (λ z. within-Returns z id)

  clean_problem_entries-Returns :
      (entries : List ProblemEntry)
      → Returns
          (λ l. All HasPoints l × (length l ≡ length entries))
          (clean_problem_entries t entries)
  unfolding clean_problem_entries
  clean_problem_entries-Returns [] = returned (tt, refl)
  clean_problem_entries-Returns (malformed ∷ rest) = raised
  clean_problem_entries-Returns (entry none points ∷ rest) = raised
  clean_problem_entries-Returns (entry (some id) points ∷ rest) =
      chain-Returns (λ z. HasPoints (id, z)) (λ l. All HasPoints l × (length l ≡ suc (length rest)))
        (or_raise (clean_points t points)) _ (points-Returns points id)
        (λ z z_ok.
          chain-Returns (λ l. All HasPoints l × (length l ≡ length rest))
            (λ l. All HasPoints l × (length l ≡ suc (length rest))) (clean_problem_entries t rest) _
            (clean_problem_entries-Returns rest)
            (λ l l_ok. returned ((z_ok, l_ok.0), omega (arith, l_ok.1))))

  clean_problem_list-Returns :
      (visible used existing : List ℕ) (entries : List ProblemEntry)
      → Returns (IsGame visible used) (clean_problem_list t visible used [] existing entries)
  unfolding clean_problem_list
  clean_problem_list-Returns visible used existing entries =
      require-Returns (IsGame visible used) _ _ _ (λ few.
        chain-Returns (λ l. All HasPoints l × (length l ≡ length entries)) (IsGame visible used)
          (clean_problem_entries t entries) _ (clean_problem_entries-Returns entries)
          (λ l l_ok. require-Returns (IsGame visible used) _ _ _ (λ distinct.
            require-Returns (IsGame visible used) _ _ _ (λ apart.
              require-Returns (IsGame visible used) _ _ _ (λ found. returned (
                omega (arith, l_ok.1, at_most entries few),
                l_ok.0,
                not-true _ distinct,
                not-true _ apart,
                all_found-visible visible existing (problem_ids l) found,
              ))))))
    where
      at_most : (l : List ProblemEntry) → leb (length l) max_problems ≡ true → length l ≤ 5
      at_most l h = ground arith

  clean_games-Returns :
      (visible used : List ℕ) (games : List (List ProblemEntry))
      → Returns
          (λ l. AreGames visible used l × (length l ≡ length games))
          (clean_games t visible used games)
  unfolding clean_games
  clean_games-Returns visible used [] = returned (tt, refl)
  clean_games-Returns visible used (entries ∷ rest) =
      chain-Returns (IsGame visible used)
        (λ l. AreGames visible used l × (length l ≡ suc (length rest)))
        (clean_problem_list t visible used [] [] entries) _
        (clean_problem_list-Returns visible used [] entries)
        (λ problems p_ok.
          chain-Returns
            (λ l. AreGames visible (problem_ids problems ++ used) l × (length l ≡ length rest))
            (λ l. AreGames visible used l × (length l ≡ suc (length rest)))
            (clean_games t visible (problem_ids problems ++ used) rest) _
            (clean_games-Returns visible (problem_ids problems ++ used) rest)
            (λ l l_ok. returned ((p_ok, l_ok.0), omega (arith, l_ok.1))))

-- A battle of two other players, none of them in another battle, with a series of an odd number of games up
-- to nine, no more games prepared than the series has, a first game with problems, and sound games.
pub record IsDuel (t : Texts) (visible : List ℕ) (matches : List Match) (actor : ℕ) (d : Duel)
    : Type 0 where
  pub differ : (d.player_a == d.player_b) ≡ false
  pub others : ((d.player_a == actor) || (d.player_b == actor)) ≡ false
  pub idle : (busy_elsewhere matches d.player_a || busy_elsewhere matches d.player_b) ≡ false
  pub series : is_best_of t d.best_of ≡ true
  pub prepared : fits (length d.games) d.best_of ≡ true
  pub filled : is_filled d.games ≡ true
  pub games : AreGames visible [] d.games

module _ (t : Texts) (rule_of : ℕ → Option Rule) (visible : List ℕ) (matches : List Match)
    (screens : List Screen) where
  create_between-Returns :
      (actor now : ℕ) (r : DuelRequest) (a b : ℕ)
      → Returns
          (IsDuel t visible matches actor)
          (create_between t rule_of visible matches screens actor now r a b)
  unfolding create_between
  create_between-Returns actor now r a b =
      require-Returns (IsDuel t visible matches actor) (not (a == b)) refused _ (λ differ.
        require-Returns (IsDuel t visible matches actor) (not (a == actor || b == actor)) refused _
          (λ others.
            chain-Returns (λ z. is_best_of t z ≡ true) (IsDuel t visible matches actor)
              (or_raise (clean_best_of t r.best_of)) _ (clean_best_of-Returns t r.best_of)
              (λ best_of series.
                chain-Returns (λ x. Unit) (IsDuel t visible matches actor)
                  (or_raise (clean_rules t rule_of r.rules)) _
                  (any-Returns (or_raise (clean_rules t rule_of r.rules)))
                  (λ rules _.
                    chain-Returns (λ x. Unit) (IsDuel t visible matches actor)
                      (clean_display t r.display_a) _ (any-Returns (clean_display t r.display_a))
                      (λ display_a _.
                        chain-Returns (λ x. Unit) (IsDuel t visible matches actor)
                          (clean_display t r.display_b) _
                          (any-Returns (clean_display t r.display_b))
                          (λ display_b _.
                            require-Returns (IsDuel t visible matches actor)
                              (not (busy_elsewhere matches a || busy_elsewhere matches b)) refused _
                              (λ idle.
                                require-Returns (IsDuel t visible matches actor)
                                  (fits (length r.games) best_of) refused _
                                  (λ prepared.
                                    chain-Returns
                                      (λ l. AreGames visible [] l × (length l ≡ length r.games))
                                      (IsDuel t visible matches actor)
                                      (clean_games t visible [] r.games) _
                                      (clean_games-Returns t visible [] r.games)
                                      (λ games games_ok.
                                        require-Returns (IsDuel t visible matches actor)
                                          (is_filled games) refused _
                                          (λ filled. returned (record {
                                            differ = not-true (a == b) differ;
                                            others = not-true (a == actor || b == actor) others;
                                            idle =
                                                not-true
                                                  (busy_elsewhere matches a
                                                    || busy_elsewhere matches b)
                                                  idle;
                                            series = series;
                                            prepared =
                                                subst (λ n. fits n best_of ≡ true)
                                                  (sym (games_ok.1)) prepared;
                                            filled = filled;
                                            games = games_ok.0;
                                          })))))))))))

  -- When `create_duel` makes a battle, its two players differ, neither of them created it or is in another
  -- battle, the series has 1, 3, 5, 7 or 9 games and at least as many as were prepared, the first game has
  -- problems, and each game has at most five, which the creator sees, with points from 1 to 10000, none
  -- repeated in the game or in an earlier one.
  pub create_duel-IsDuel :
      (actor now : ℕ) (r : DuelRequest) (d : Duel)
      → create_duel t rule_of visible matches screens actor now r ≡ done d
      → IsDuel t visible matches actor d
  unfolding create_duel
  create_duel-IsDuel actor now r d h = elim (Option-cases r.player_a) [
    | inl e ↦ absurd (ground arith)
    | inr (a, e) ↦ elim (Option-cases r.player_b) [
      | inl f ↦ absurd (ground arith)
      | inr (b, f) ↦
          let made : create_between t rule_of visible matches screens actor now r a b ≡ done d =
            ground arith in
          done-Returns (IsDuel t visible matches actor)
            (create_between t rule_of visible matches screens actor now r a b) d
            (create_between-Returns actor now r a b) made
    ]
  ]
