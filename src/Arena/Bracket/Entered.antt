-- ===== src/Arena/Bracket/Entered.antt =====
-- judge/arena/tournament.py: the participants that are accepted, and the rounds that are kept.
use cpcjudge_site.Base.{
  ℕ, zero, suc, ◌≤◌, ◌==◌, ==_refl, ==_iff, Bool, true, false, not, ◌&&◌, ◌||◌, Option, none, some,
  List, [], ◌∷◌, ◌++◌, length, All, contains, any, keep, ltb, leb, ◌≡◌, ◌≢◌, refl, sym, ◌∙◌, ap,
  subst, inl, inr, Bool-cases, arith,
}
use cpcjudge_site.Arena.Engine.Rows.{done, require}
use cpcjudge_site.Arena.Seeding.{round_count}
use cpcjudge_site.Arena.Bracket.Rounds.{
  Round, each_once, clean_participants, numbers, missing, sync_rounds,
}

-- no profile twice
abbrev pub AreDistinct : List ℕ → Type 0
AreDistinct [] = Unit
AreDistinct (p ∷ rest) = (contains p rest ≡ false) × AreDistinct rest

each_once-fresh :
    (q : ℕ) (seen : List ℕ) (profiles : List (Option ℕ))
    → contains q seen ≡ true
    → contains q (each_once seen profiles) ≡ false
unfolding each_once any
each_once-fresh q seen [] h = refl
each_once-fresh q seen (none ∷ rest) h = each_once-fresh q seen rest h
each_once-fresh q seen (some p ∷ rest) h = elim (Bool-cases (contains p seen)) [
  | inl e ↦ rw (e) (each_once-fresh q seen rest h)
  | inr e ↦ elim (Bool-cases (p == q)) [
    | inl f ↦ absurd (ground (arith, h, e, ap (λ k. contains k seen) ((==_iff p q).0 f)))
    | inr f ↦ rw (e, f) (each_once-fresh q (p ∷ seen) rest (rw (f) h))
  ]
]

each_once-AreDistinct :
    (seen : List ℕ) (profiles : List (Option ℕ)) → AreDistinct (each_once seen profiles)
unfolding each_once any
each_once-AreDistinct seen [] = tt
each_once-AreDistinct seen (none ∷ rest) = each_once-AreDistinct seen rest
each_once-AreDistinct seen (some p ∷ rest) = elim (Bool-cases (contains p seen)) [
  | inl e ↦ rw (e) (each_once-AreDistinct seen rest)
  | inr e ↦ rw (e) (
    each_once-fresh p (p ∷ seen) rest (rw (==_refl p) refl),
    each_once-AreDistinct (p ∷ seen) rest,
  )
]

each_once-contains :
    (q : ℕ) (seen : List ℕ) (profiles : List (Option ℕ))
    → contains q (each_once seen profiles) ≡ true
    → any (λ o. elim o [ none ↦ false | some p ↦ p == q ]) profiles ≡ true
unfolding each_once any
each_once-contains q seen [] h = h
each_once-contains q seen (none ∷ rest) h = each_once-contains q seen rest h
each_once-contains q seen (some p ∷ rest) h = elim (Bool-cases (p == q)) [
  | inl f ↦ rw (f) refl
  | inr f ↦ elim (Bool-cases (contains p seen)) [
    | inl e ↦ rw (f) (each_once-contains q seen rest (sym (rw (e) refl) ∙ h))
    | inr e ↦ rw (f) (each_once-contains q (p ∷ seen) rest (sym (rw (e, f) refl) ∙ h))
  ]
]

-- The participants that are accepted are from 2 to 64, no two the same, and among the profiles given.
pub clean_participants-AreDistinct :
    (profiles : List (Option ℕ)) (result : List ℕ)
    → clean_participants profiles ≡ done result
    → (2 ≤ length result)
      × (length result ≤ 64)
      × AreDistinct result
      × ((q : ℕ)
          → contains q result ≡ true
          → any (λ o. elim o [ none ↦ false | some p ↦ p == q ]) profiles ≡ true)
unfolding clean_participants require
clean_participants-AreDistinct profiles result h =
    elim (Bool-cases (ltb (length (each_once [] profiles)) 2)) [
      | inl e ↦ absurd (ground arith)
      | inr e ↦ elim (Bool-cases (ltb 64 (length (each_once [] profiles)))) [
        | inl f ↦ absurd (ground arith)
        | inr f ↦
            let same : each_once [] profiles ≡ result = ground arith in
            subst
              (λ l.
                (2 ≤ length l)
                × (length l ≤ 64)
                × AreDistinct l
                × ((q : ℕ)
                    → contains q l ≡ true
                    → any (λ o. elim o [ none ↦ false | some p ↦ p == q ]) profiles ≡ true))
              same
              (
                ground arith,
                ground arith,
                each_once-AreDistinct [] profiles,
                λ q held. each_once-contains q [] profiles held,
              )
      ]
    ]

contains-append :
    (k : ℕ) (xs ys : List ℕ) → contains k (xs ++ ys) ≡ (contains k xs || contains k ys)
unfolding any
contains-append k [] ys = refl
contains-append k (x ∷ xs) ys = elim (Bool-cases (x == k)) [
  | inl e ↦ rw (e) refl
  | inr e ↦ rw (e) (contains-append k xs ys)
]

numbers-append : (xs ys : List Round) → numbers (xs ++ ys) ≡ numbers xs ++ numbers ys
numbers-append [] ys = refl
numbers-append (x ∷ xs) ys = ap (λ l. x.number ∷ l) (numbers-append xs ys)

numbers-keep :
    (k bound : ℕ) (rounds : List Round)
    → contains k (numbers (keep (λ r. leb r.number bound) rounds))
      ≡ (contains k (numbers rounds) && leb k bound)
unfolding any keep
numbers-keep k bound [] = refl
numbers-keep k bound (r ∷ rest) = elim (Bool-cases (leb r.number bound)) [
  | inl e ↦ elim (Bool-cases (r.number == k)) [
    | inl f ↦
        let small : leb k bound ≡ true =
          subst (λ x. leb x bound ≡ true) ((==_iff r.number k).0 f) e in
        rw (e, f, small) refl
    | inr f ↦ rw (e, f) (numbers-keep k bound rest)
  ]
  | inr e ↦ elim (Bool-cases (r.number == k)) [
    | inl f ↦
        let large : leb k bound ≡ false =
          subst (λ x. leb x bound ≡ false) ((==_iff r.number k).0 f) e in
        rw (e) (numbers-keep k bound rest ∙ ground (arith, large))
    | inr f ↦ rw (e, f) (numbers-keep k bound rest)
  ]
]

not_last :
    (there : Bool) (n k : ℕ)
    → (k ≡ suc n → there ≡ true)
    → (leb 1 k && leb k n && not there) ≡ (leb 1 k && leb k (suc n) && not there)
not_last true n k h = ground arith
not_last false n k h =
    let other : k ≢ suc n = λ same. absurd (ground (arith, h same)) in ground (arith, other)

one_more :
    (there : Bool) (n k : ℕ)
    → (k ≡ suc n → there ≡ false)
    → ((leb 1 k && leb k n && not there) || ((suc n == k) || false))
      ≡ (leb 1 k && leb k (suc n) && not there)
one_more true n k h =
    let other : k ≢ suc n = λ same. absurd (ground (arith, h same)) in ground (arith, other)
one_more false n k h = ground arith

numbers-missing :
    (k n : ℕ) (rounds : List Round)
    → contains k (numbers (missing rounds n))
      ≡ (leb 1 k && leb k n && not (contains k (numbers rounds)))
unfolding missing any
numbers-missing k zero rounds = ground arith
numbers-missing k (suc n) rounds = elim (Bool-cases (contains (suc n) (numbers rounds))) [
  | inl e ↦ rw (e) (
      numbers-missing k n rounds
      ∙ not_last (contains k (numbers rounds)) n k
          (λ same. subst (λ x. contains x (numbers rounds) ≡ true) (sym same) e))
  | inr e ↦ rw (e) (
      ap (contains k)
        (numbers-append (missing rounds n) (record { number = suc n; best_of = 1 } ∷ []))
      ∙ contains-append k (numbers (missing rounds n)) (suc n ∷ [])
      ∙ ap (λ b. b || contains k (suc n ∷ [])) (numbers-missing k n rounds)
      ∙ one_more (contains k (numbers rounds)) n k
          (λ same. subst (λ x. contains x (numbers rounds) ≡ false) (sym same) e))
]

numbers-positive :
    (k : ℕ) (rounds : List Round)
    → All (λ r. 1 ≤ r.number) rounds
    → contains k (numbers rounds) ≡ true
    → leb 1 k ≡ true
unfolding any
numbers-positive k [] h held = absurd (ground arith)
numbers-positive k (r ∷ rest) (first, others) held = elim (Bool-cases (r.number == k)) [
  | inl f ↦ let same : r.number ≡ k = (==_iff r.number k).0 f in ground (arith, same, first)
  | inr f ↦ numbers-positive k rest others (sym (rw (f) refl) ∙ held)
]

all_there :
    (left new old : Bool) (k bound : ℕ)
    → (old ≡ true → leb 1 k ≡ true)
    → left ≡ (old && leb k bound)
    → new ≡ (leb 1 k && leb k bound && not left)
    → (left || new) ≡ (leb 1 k && leb k bound)
all_there left new true k bound positive e f = ground (arith, positive refl)
all_there left new false k bound positive e f = ground arith

-- After `_sync_rounds` a round of a number exists exactly when the number is from 1 to the rounds that the
-- participants need, whatever rounds, numbered from 1, were there.
pub sync_rounds-numbers :
    (k count : ℕ) (rounds : List Round)
    → All (λ r. 1 ≤ r.number) rounds
    → contains k (numbers (sync_rounds count rounds)) ≡ (leb 1 k && leb k (round_count count))
unfolding sync_rounds
sync_rounds-numbers k count rounds h =
    let bound = round_count count in
    let left = keep (λ r. leb r.number bound) rounds in
    ap (contains k) (numbers-append left (missing left bound))
    ∙ contains-append k (numbers left) (numbers (missing left bound))
    ∙ all_there (contains k (numbers left)) (contains k (numbers (missing left bound)))
        (contains k (numbers rounds)) k bound (numbers-positive k rounds h)
        (numbers-keep k bound rounds) (numbers-missing k bound left)
