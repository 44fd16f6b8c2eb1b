-- ===== src/Bridge/JudgeList/Queued.antt =====
-- judge/bridge/judge_list.py: how often a submission is in the queue, after each change of it.
use cpcjudge_site.Base.{
  ℕ, ◌+◌, ◌-◌, ◌≡◌, ==_iff, subst, refl, inl, inr, Bool, true, false, ◌&&◌, ◌||◌, not, some, List,
  [], ◌∷◌, ◌==◌, if◌then◌else◌, contains, any, keep, Option-cases, arith,
}
use cpcjudge_site.Bridge.JudgeList.{
  JudgeList, Judge, Node, marker, entry, Submission, scan, insert_before, is_mapped, drop, drop_key,
  drop_entry,
}

unfoldable pub queued : ℕ → List Node → ℕ
queued id [] = 0
queued id (marker p ∷ rest) = queued id rest
queued id (entry s ∷ rest) = (if s.id == id then 1 else 0) + queued id rest

abbrev number : Bool → ℕ
number b = if b then 1 else 0

pub contains-drop :
    (id k : ℕ) (l : List ℕ) → contains id (drop k l) ≡ (not (id == k) && contains id l)
unfolding drop keep any
contains-drop id k [] = ground arith
contains-drop id k (i ∷ rest) = ground (arith, contains-drop id k rest)

pub mapped-drop :
    (id k : ℕ) (m : List (ℕ × ℕ))
    → any (λ p. p.0 == id) (drop_key k m) ≡ (not (id == k) && any (λ p. p.0 == id) m)
unfolding drop_key keep any
mapped-drop id k [] = ground arith
mapped-drop id k (p ∷ rest) = ground (arith, mapped-drop id k rest)

pub queued-insert :
    (id p : ℕ) (s : Submission) (q : List Node)
    → queued id (insert_before p s q) ≡ (if s.id == id then 1 else 0) + queued id q
unfolding insert_before queued
queued-insert id p s [] = refl
queued-insert id p s (marker r ∷ rest) = ground (arith, queued-insert id p s rest)
queued-insert id p s (entry t ∷ rest) = ground (arith, queued-insert id p s rest)

pub queued-drop_entry :
    (id k : ℕ) (q : List Node)
    → queued id (drop_entry k q) ≡ (if k == id then queued id q - 1 else queued id q)
unfolding drop_entry queued
queued-drop_entry id k [] = ground arith
queued-drop_entry id k (marker r ∷ rest) = queued-drop_entry id k rest
queued-drop_entry id k (entry t ∷ rest) = ground (arith, queued-drop_entry id k rest)

pub queued-scan :
    (j : Judge) (reserve : Bool) (p : ℕ) (q : List Node) (s : Submission) (left : List Node)
    → scan j reserve p q ≡ some (s, left)
    → (id : ℕ) → queued id q ≡ (if s.id == id then 1 else 0) + queued id left
unfolding scan queued
queued-scan j reserve p [] s left h id = absurd (ground arith)
queued-scan j reserve p (marker r ∷ rest) s left h id =
    elim (Option-cases (scan j reserve (r + 1) rest)) [
      | inl e ↦ absurd (ground arith)
      | inr (found, e) ↦
          let ih = queued-scan j reserve (r + 1) rest (found.0) (found.1) e id in ground (arith, ih)
    ]
queued-scan j reserve p (entry t ∷ rest) s left h id = elim (Option-cases (scan j reserve p rest)) [
  | inl e ↦ ground arith
  | inr (found, e) ↦
      let ih = queued-scan j reserve p rest (found.0) (found.1) e id in ground (arith, ih)
]

pub contains-cons : (id k : ℕ) (l : List ℕ) → contains id (k ∷ l) ≡ ((k == id) || contains id l)
unfolding any
contains-cons id k l = refl

pub mapped-cons :
    (id s k : ℕ) (m : List (ℕ × ℕ))
    → any (λ p. p.0 == id) ((s, k) ∷ drop_key s m) ≡ ((s == id) || any (λ p. p.0 == id) m)
unfolding any
mapped-cons id s k m = let a = mapped-drop id s m in ground arith

pub held_nowhere :
    (s id : ℕ) (st : JudgeList)
    → (is_mapped s st || contains s st.node_map) ≡ false
    → (s == id) ≡ true
    → (is_mapped id st ≡ false) × (contains id st.node_map ≡ false)
held_nowhere s id st new e =
    subst (λ i. (is_mapped i st ≡ false) × (contains i st.node_map ≡ false)) ((==_iff s id).0 e)
      (ground arith)
