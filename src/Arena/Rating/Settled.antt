-- ===== src/Arena/Rating/Settled.antt =====
-- judge/arena/rating.py: a table brought up to date.
use cpcjudge_site.Base.{
  Bool, true, false, not, some, is_some, [], ◌∷◌, keep, All, ◌≡◌, refl, sym, ◌∙◌, ap, subst, inl,
  inr, Bool-cases, arith,
}
use cpcjudge_site.Arena.Rating.Dictionary.{Table, find, put}
use cpcjudge_site.Arena.Rating.Sync.{differs, changed_rows, gone, kept_rows, write, sync, behind}
use cpcjudge_site.Arena.Rating.Keyed.{
  keep-All, keep-holds, keep-none, map-All, zip-All, find-put, find-put_other, found-own,
  find-kept_rows, find-write, write-All, IsKeyed, IsLawful,
}

module _ {K V : Type 0} (same_key : K → K → Bool) (lawful : IsLawful same_key) (same : V → V → Bool)
    (same_refl : (v : V) → same v v ≡ true) where
  changed_rows-All :
      (P : K × V → Type 0) (stored computed : Table K V)
      → All P computed
      → All P (changed_rows same_key same stored computed)
  unfolding changed_rows
  changed_rows-All P stored computed h =
      keep-All P (λ (k, v). differs same_key same (find same_key k stored) v) computed h

  -- After the rows that differ are written, none differs.
  write-settles :
      (stored t computed : Table K V)
      → IsKeyed same_key lawful computed
      → All (λ (k, v). find same_key k t ≡ find same_key k stored) computed
      → All
          (λ (k, v).
            differs same_key same
              (find same_key k (write same_key t (changed_rows same_key same stored computed)))
              v
            ≡ false)
          computed
  unfolding changed_rows keep write
  write-settles stored t [] keyed h = tt
  write-settles stored t ((k, v) ∷ rest) (fresh, keyed) (first, others) =
      let rows = changed_rows same_key same stored rest in
      let apart : All (λ (j, w). same_key j k ≡ false) rows =
        changed_rows-All (λ (j, w). same_key j k ≡ false) stored rest fresh in
      let IsDone : Table K V → Type 0 = λ l.
        All (λ (j, w). differs same_key same (find same_key j (write same_key t l)) w ≡ false)
          ((k, v) ∷ rest) in
      elim (Bool-cases (differs same_key same (find same_key k stored) v)) [
        | inl e ↦
            let done : changed_rows same_key same stored ((k, v) ∷ rest) ≡ (k, v) ∷ rows =
              rw (e) refl in
            let now : find same_key k (write same_key (put same_key k v t) rows) ≡ some v =
              find-write same_key lawful k (put same_key k v t) rows apart
              ∙ find-put same_key lawful k v t in
            let unmoved : All
                (λ (j, w). find same_key j (put same_key k v t) ≡ find same_key j stored) rest =
              zip-All (λ (j, w). same_key j k ≡ false)
                (λ (j, w). find same_key j t ≡ find same_key j stored)
                (λ (j, w). find same_key j (put same_key k v t) ≡ find same_key j stored) rest
                (λ x apart_x same_x. find-put_other same_key lawful (x.0) k v t apart_x ∙ same_x)
                fresh others in
            subst IsDone (sym done) (
              ap (λ o. differs same_key same o v) now ∙ ap not (same_refl v),
              write-settles stored (put same_key k v t) rest keyed unmoved,
            )
        | inr e ↦
            let done : changed_rows same_key same stored ((k, v) ∷ rest) ≡ rows = rw (e) refl in
            let now : find same_key k (write same_key t rows) ≡ find same_key k stored =
              find-write same_key lawful k t rows apart ∙ first in
            subst IsDone (sym done) (
              ap (λ o. differs same_key same o v) now ∙ e,
              write-settles stored t rest keyed others,
            )
      ]

  -- A table brought up to date is not behind.
  pub sync-behind :
      (stored computed : Table K V)
      → IsKeyed same_key lawful computed
      → behind same_key same (sync same_key same stored computed) computed ≡ 0
  unfolding behind sync changed_rows gone kept_rows
  sync-behind stored computed keyed =
      let here : All (λ (k, v). is_some (find same_key k computed) ≡ true) computed =
        found-own same_key lawful computed in
      let rows = changed_rows same_key same stored computed in
      let base = kept_rows same_key stored computed in
      let after = sync same_key same stored computed in
      let written : All (λ (k, v). differs same_key same (find same_key k after) v ≡ false)
          computed =
        write-settles stored base computed keyed (
          map-All (λ (k, v). is_some (find same_key k computed) ≡ true)
            (λ (k, v). find same_key k base ≡ find same_key k stored) computed
            (λ x h. find-kept_rows same_key lawful stored computed (x.0) h) here) in
      let held : All (λ (k, v). not (is_some (find same_key k computed)) ≡ false) after =
        write-All same_key lawful (λ (k, v). not (is_some (find same_key k computed)) ≡ false) base
          rows
          (λ j k w v e h.
            subst (λ x. not (is_some (find same_key x computed)) ≡ false) (sym ((lawful j k).0 e))
              h)
          (changed_rows-All (λ (k, v). not (is_some (find same_key k computed)) ≡ false) stored
            computed
            (map-All (λ (k, v). is_some (find same_key k computed) ≡ true)
              (λ (k, v). not (is_some (find same_key k computed)) ≡ false) computed
              (λ x h. ap not h) here))
          (map-All (λ (k, v). is_some (find same_key k computed) ≡ true)
            (λ (k, v). not (is_some (find same_key k computed)) ≡ false) base (λ x h. ap not h)
            (keep-holds (λ (k, v). is_some (find same_key k computed)) stored)) in
      omega (
        arith,
        keep-none (λ (k, v). differs same_key same (find same_key k after) v) computed written,
        keep-none (λ (k, v). not (is_some (find same_key k computed))) after held,
      )
