-- ===== src/Arena/Rating/Keyed.antt =====
-- judge/arena/rating.py: dictionaries with different keys, and writing to them.
use cpcjudge_site.Base.{
  Bool, true, false, some, is_some, List, [], ◌∷◌, length, keep, All, ◌≡◌, refl, sym, ◌∙◌, subst,
  ◌↔◌, inl, inr, Bool-cases, arith,
}
use cpcjudge_site.Arena.Rating.Dictionary.{Table, find, put}
use cpcjudge_site.Arena.Rating.Sync.{kept_rows, write}

pub keep-All :
    {A : Type 0} (P : A → Type 0) (q : A → Bool) (l : List A) → All P l → All P (keep q l)
unfolding keep
keep-All P q [] h = tt
keep-All P q (x ∷ rest) (first, others) = elim (Bool-cases (q x)) [
  | inl e ↦ rw (e) (first, keep-All P q rest others)
  | inr e ↦ rw (e) (keep-All P q rest others)
]

pub keep-holds : {A : Type 0} (q : A → Bool) (l : List A) → All (λ x. q x ≡ true) (keep q l)
unfolding keep
keep-holds q [] = tt
keep-holds q (x ∷ rest) = elim (Bool-cases (q x)) [
  | inl e ↦ rw (e) (e, keep-holds q rest)
  | inr e ↦ rw (e) (keep-holds q rest)
]

pub keep-none :
    {A : Type 0} (q : A → Bool) (l : List A) → All (λ x. q x ≡ false) l → length (keep q l) ≡ 0
unfolding keep
keep-none q [] h = refl
keep-none q (x ∷ rest) (first, others) = rw (first) (keep-none q rest others)

pub map-All :
    {A : Type 0} (P Q : A → Type 0) (l : List A) → ((x : A) → P x → Q x) → All P l → All Q l
map-All P Q [] f h = tt
map-All P Q (x ∷ rest) f (first, others) = (f x first, map-All P Q rest f others)

pub zip-All :
    {A : Type 0} (P Q R : A → Type 0) (l : List A)
    → ((x : A) → P x → Q x → R x)
    → All P l
    → All Q l
    → All R l
zip-All P Q R [] f h k = tt
zip-All P Q R (x ∷ rest) f (first, others) (first2, others2) =
    (f x first first2, zip-All P Q R rest f others others2)

-- The test on keys is equality.
abbrev pub IsLawful : {K : Type 0} → (K → K → Bool) → Type 0
IsLawful {K} same_key = (j k : K) → (same_key j k ≡ true) ↔ (j ≡ k)

module _ {K : Type 0} (same_key : K → K → Bool) (lawful : IsLawful same_key) where
  pub same_self : (k : K) → same_key k k ≡ true
  same_self k = (lawful k k).1 refl

  pub differ-sym : (j k : K) → same_key j k ≡ false → same_key k j ≡ false
  differ-sym j k h = elim (Bool-cases (same_key k j)) [
    | inr e ↦ e
    | inl e ↦
        let same : same_key j k ≡ true = (lawful j k).1 (sym ((lawful k j).0 e)) in
        absurd (ground (arith, same, h))
  ]

module _ {K V : Type 0} (same_key : K → K → Bool) (lawful : IsLawful same_key) where
  -- The keys of a dictionary differ.
  abbrev pub IsKeyed : Table K V → Type 0
  IsKeyed [] = Unit
  IsKeyed ((k, v) ∷ rest) = All (λ (j, w). same_key j k ≡ false) rest × IsKeyed rest

  pub find-put : (k : K) (v : V) (t : Table K V) → find same_key k (put same_key k v t) ≡ some v
  unfolding find put
  find-put k v [] = rw (same_self same_key lawful k) refl
  find-put k v ((j, w) ∷ rest) = elim (Bool-cases (same_key j k)) [
    | inl e ↦ rw (e, e) refl
    | inr e ↦ rw (e, e) (find-put k v rest)
  ]

  pub find-put_other :
      (i k : K) (v : V) (t : Table K V)
      → same_key i k ≡ false
      → find same_key i (put same_key k v t) ≡ find same_key i t
  unfolding find put
  find-put_other i k v [] h = rw (differ-sym same_key lawful i k h) refl
  find-put_other i k v ((j, w) ∷ rest) h = elim (Bool-cases (same_key j k)) [
    | inl e ↦
        let other : same_key j i ≡ false =
          subst (λ x. same_key x i ≡ false) (sym ((lawful j k).0 e))
            (differ-sym same_key lawful i k h) in
        rw (e, other) refl
    | inr e ↦ elim (Bool-cases (same_key j i)) [
      | inl f ↦ rw (e, f) refl
      | inr f ↦ rw (e, f) (find-put_other i k v rest h)
    ]
  ]

  pub put-All :
      (P : K × V → Type 0) (k : K) (v : V) (t : Table K V)
      → ((j : K) → same_key j k ≡ true → P (j, v))
      → P (k, v)
      → All P t
      → All P (put same_key k v t)
  unfolding put
  put-All P k v [] near new h = (new, tt)
  put-All P k v ((j, w) ∷ rest) near new (first, others) = elim (Bool-cases (same_key j k)) [
    | inl e ↦ rw (e) (near j e, others)
    | inr e ↦ rw (e) (first, put-All P k v rest near new others)
  ]

  pub put-IsKeyed : (k : K) (v : V) (t : Table K V) → IsKeyed t → IsKeyed (put same_key k v t)
  unfolding put
  put-IsKeyed k v [] h = (tt, tt)
  put-IsKeyed k v ((j, w) ∷ rest) (first, others) = elim (Bool-cases (same_key j k)) [
    | inl e ↦ rw (e) (first, others)
    | inr e ↦
        let fresh : same_key k j ≡ false = differ-sym same_key lawful j k e in
        rw (e) (
          put-All (λ (i, w'). same_key i j ≡ false) k v rest
              (λ i near. subst (λ x. same_key x j ≡ false) (sym ((lawful i k).0 near)) fresh) fresh
              first,
          put-IsKeyed k v rest others,
        )
  ]

  -- every key of a dictionary is found in it
  pub found-cons :
      (k j : K) (w : V) (t : Table K V)
      → is_some (find same_key k t) ≡ true
      → is_some (find same_key k ((j, w) ∷ t)) ≡ true
  unfolding find
  found-cons k j w t h = elim (Bool-cases (same_key j k)) [ inl e ↦ rw (e) refl | inr e ↦ rw (e) h ]

  pub found-own : (t : Table K V) → All (λ (k, v). is_some (find same_key k t) ≡ true) t
  unfolding find
  found-own [] = tt
  found-own ((k, v) ∷ rest) = (
    rw (same_self same_key lawful k) refl,
    map-All (λ (j, w). is_some (find same_key j rest) ≡ true)
        (λ (j, w). is_some (find same_key j ((k, v) ∷ rest)) ≡ true) rest
        (λ x h. found-cons (x.0) k v rest h) (found-own rest),
  )

  -- deleting rows of other keys
  pub find-kept_rows :
      (stored computed : Table K V) (k : K)
      → is_some (find same_key k computed) ≡ true
      → find same_key k (kept_rows same_key stored computed) ≡ find same_key k stored
  unfolding kept_rows find keep
  find-kept_rows [] computed k h = refl
  find-kept_rows ((j, w) ∷ rest) computed k h = elim (Bool-cases (same_key j k)) [
    | inl e ↦
        let here : is_some (find same_key j computed) ≡ true =
          subst (λ x. is_some (find same_key x computed) ≡ true) (sym ((lawful j k).0 e)) h in
        rw (here, e) refl
    | inr e ↦ elim (Bool-cases (is_some (find same_key j computed))) [
      | inl f ↦ rw (f, e) (find-kept_rows rest computed k h)
      | inr f ↦ rw (f, e) (find-kept_rows rest computed k h)
    ]
  ]

  -- writing rows of other keys
  pub find-write :
      (k : K) (t rows : Table K V)
      → All (λ (j, w). same_key j k ≡ false) rows
      → find same_key k (write same_key t rows) ≡ find same_key k t
  unfolding write
  find-write k t [] h = refl
  find-write k t ((j, w) ∷ rest) (first, others) =
      find-write k (put same_key j w t) rest others
      ∙ find-put_other k j w t (differ-sym same_key lawful j k first)

  pub write-All :
      (P : K × V → Type 0) (t rows : Table K V)
      → ((j k : K) (w v : V) → same_key j k ≡ true → P (k, v) → P (j, w))
      → All P rows
      → All P t
      → All P (write same_key t rows)
  unfolding write
  write-All P t [] near h old = old
  write-All P t ((k, v) ∷ rest) near (first, others) old =
      write-All P (put same_key k v t) rest near others
        (put-All P k v t (λ j e. near j k v v e first) first old)
