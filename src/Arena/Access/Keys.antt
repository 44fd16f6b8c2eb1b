-- ===== src/Arena/Access/Keys.antt =====
-- judge/arena/access.py: queries by the key of a row.
use cpcjudge_site.Base.{
  ℕ, ◌⊎◌, Bool, true, false, not, ◌&&◌, ◌||◌, ◌==◌, ==_refl, ==_iff, if◌then◌else◌, List, [], ◌∷◌,
  map, keep, any, contains, ◌≡◌, refl, subst, ◌∙◌, ap, inl, inr, Bool-cases, arith,
}

abbrev pub IsRow : {A : Type 0} → A → List A → Type 0
IsRow r [] = ⊥
IsRow r (x ∷ rest) = (x ≡ r) ⊎ IsRow r rest

pub any-row :
    {A : Type 0} (p : A → Bool) (r : A) (rows : List A)
    → IsRow r rows
    → p r ≡ true
    → any p rows ≡ true
unfolding any
any-row p r [] m h = absurd m
any-row p r (x ∷ rest) (inl e) h = rw (ap p e ∙ h) refl
any-row p r (x ∷ rest) (inr m) h = ground (arith, any-row p r rest m h)

module _ {A : Type 0} (key : A → ℕ) where
  -- The rows of a table have different keys.
  abbrev pub IsKeyed : List A → Type 0
  IsKeyed [] = Unit
  IsKeyed (x ∷ rest) = (contains (key x) (map key rest) ≡ false) × IsKeyed rest

  contains-kept :
      (p : A → Bool) (k : ℕ) (rows : List A)
      → contains k (map key rows) ≡ false
      → contains k (map key (keep p rows)) ≡ false
  unfolding any keep
  contains-kept p k [] h = refl
  contains-kept p k (x ∷ rest) h = elim (Bool-cases (key x == k)) [
    | inl e ↦ absurd (ground arith)
    | inr e ↦
        let others : contains k (map key (keep p rest)) ≡ false =
          contains-kept p k rest (ground (arith, h, e)) in
        elim (Bool-cases (p x)) [ inl f ↦ rw (f, e) others | inr f ↦ rw (f) others ]
  ]

  contains-row : (r : A) (rows : List A) → IsRow r rows → contains (key r) (map key rows) ≡ true
  unfolding any
  contains-row r [] m = absurd m
  contains-row r (x ∷ rest) (inl e) =
      subst (λ y. contains (key y) (map key (x ∷ rest)) ≡ true) e (rw (==_refl (key x)) refl)
  contains-row r (x ∷ rest) (inr m) = ground (arith, contains-row r rest m)

  pub contains-key :
      (p : A → Bool) (r : A) (rows : List A)
      → IsKeyed rows
      → IsRow r rows
      → contains (key r) (map key (keep p rows)) ≡ p r
  unfolding any keep
  contains-key p r [] keyed m = absurd m
  contains-key p r (x ∷ rest) (fresh, keyed) (inl e) =
      let own : contains (key x) (map key (keep p (x ∷ rest))) ≡ p x = elim (Bool-cases (p x)) [
        | inl f ↦ rw (f, ==_refl (key x)) refl
        | inr f ↦ rw (f) (contains-kept p (key x) rest fresh)
      ] in
      subst (λ y. contains (key y) (map key (keep p (x ∷ rest))) ≡ p y) e own
  contains-key p r (x ∷ rest) (fresh, keyed) (inr m) = elim (Bool-cases (key x == key r)) [
    | inl e ↦
        let same : key x ≡ key r = (==_iff (key x) (key r)).0 e in
        absurd
          (ground (arith, fresh, contains-row r rest m, ap (λ k. contains k (map key rest)) same))
    | inr e ↦ elim (Bool-cases (p x)) [
      | inl f ↦ rw (f, e) (contains-key p r rest keyed m)
      | inr f ↦ rw (f) (contains-key p r rest keyed m)
    ]
  ]

  keep-keep : (p q : A → Bool) (rows : List A) → keep p (keep q rows) ≡ keep (λ x. q x && p x) rows
  unfolding keep
  keep-keep p q [] = refl
  keep-keep p q (x ∷ rest) = elim (Bool-cases (q x)) [
    | inl e ↦ elim (Bool-cases (p x)) [
      | inl f ↦ rw (e, f) (ap (λ l. x ∷ l) (keep-keep p q rest))
      | inr f ↦ rw (e, f) (keep-keep p q rest)
    ]
    | inr e ↦ rw (e) (keep-keep p q rest)
  ]

  -- the rows listed to somebody: their own, or all of them, without the closed ones
  pub contains-listed :
      (manages all_ : Bool) (own : A → Bool) (closed : List ℕ) (r : A) (rows : List A)
      → IsKeyed rows
      → IsRow r rows
      → contains (key r) (
          map key (
            if not manages
            then []
            else keep (λ x. not (contains (key x) closed)) (if all_ then rows else keep own rows)))
        ≡ (manages && (all_ || own r) && not (contains (key r) closed))
  unfolding any
  contains-listed false all_ own closed r rows keyed m = refl
  contains-listed true true own closed r rows keyed m =
      contains-key (λ x. not (contains (key x) closed)) r rows keyed m
  contains-listed true false own closed r rows keyed m =
      ap (λ l. contains (key r) (map key l))
        (keep-keep (λ x. not (contains (key x) closed)) own rows)
      ∙ contains-key (λ x. own x && not (contains (key x) closed)) r rows keyed m

  -- the rows found by one test, or by two
  pub contains-narrowed :
      (wide : Bool) (p q : A → Bool) (r : A) (rows : List A)
      → IsKeyed rows
      → IsRow r rows
      → contains (key r) (map key (if wide then keep q rows else keep p (keep q rows)))
        ≡ (q r && (wide || p r))
  contains-narrowed true p q r rows keyed m = contains-key q r rows keyed m ∙ ground arith
  contains-narrowed false p q r rows keyed m =
      ap (λ l. contains (key r) (map key l)) (keep-keep p q rows)
      ∙ contains-key (λ x. q x && p x) r rows keyed m

  -- all the rows, or their own
  pub contains-owned :
      (all_ manages : Bool) (own : A → Bool) (r : A) (rows : List A)
      → IsKeyed rows
      → IsRow r rows
      → contains
          (key r)
          (map key (if all_ then rows else (if not manages then [] else keep own rows)))
        ≡ (all_ || manages && own r)
  unfolding any
  contains-owned true manages own r rows keyed m = contains-row r rows m
  contains-owned false false own r rows keyed m = refl
  contains-owned false true own r rows keyed m = contains-key own r rows keyed m
