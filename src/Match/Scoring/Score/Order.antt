-- ===== src/Match/Scoring/Score/Order.antt =====
-- The order in which the sets of a submission are sent.
use mathlib.Core.List.{
  Permᴰ, Nodup, Nodup-nil, Nodup-cons, Mem, mem-cons_self, mem-cons, not-mem-nil,
}
use mathlib.Core.HLevel.{⊥_prop}
use mathlib.Core.Path.{ap₂}
use mathlib.Core.List.Perm
use mathlib.Core.Logic.{∥∥₁_elim}
use mathlib.Core.Logic.Or
use tourney_api.Prelude.{
  ℕ, ◌+◌, ◌≤◌, ◌≡◌, ◌≢◌, refl, sym, ap, ◌∙◌, ◌↔◌, inl, inr, Bool-cases, true, false, none, List, [],
  ◌∷◌, map, Perm, arith, if◌then◌else◌,
}
use tourney_api.Prelude.Int.{ℤ, pos, negsuc, ltb_ℤ, eq_iff}
use tourney_api.Match.Scoring.{SetScore}
use tourney_api.Match.Scoring.Score.{insert_set, sort_sets, numbering}

ltb_ℤ_total : (a b : ℤ) → a ≢ b → ltb_ℤ a b ≡ (if ltb_ℤ b a then false else true)
ltb_ℤ_total (pos a) (pos b) h = ground (arith, h)
ltb_ℤ_total (negsuc a) (negsuc b) h = ground (arith, h)
ltb_ℤ_total (pos a) (negsuc b) h = refl
ltb_ℤ_total (negsuc a) (pos b) h = refl

ltb_ℤ_trans : (a b c : ℤ) → ltb_ℤ a b ≡ true → ltb_ℤ b c ≡ true → ltb_ℤ a c ≡ true
ltb_ℤ_trans (pos a) (pos b) (pos c) h k = ground arith
ltb_ℤ_trans (negsuc a) (negsuc b) (negsuc c) h k = ground arith
ltb_ℤ_trans _ _ _ h k = ground arith

insert_set_comm :
    (x y : SetScore) (l : List SetScore)
    → x.set_number ≢ y.set_number
    → insert_set x (insert_set y l) ≡ insert_set y (insert_set x l)
unfolding insert_set
insert_set_comm x y [] h = ground (arith, ltb_ℤ_total x.set_number y.set_number h)
insert_set_comm x y (z ∷ l) h = ground (
  arith,
  ltb_ℤ_total x.set_number y.set_number h,
  ltb_ℤ_trans z.set_number x.set_number y.set_number,
  ltb_ℤ_trans z.set_number y.set_number x.set_number,
  insert_set_comm x y l h,
)

abbrev numbers : List SetScore → List ℤ
numbers = map (λ st. st.set_number)

sort_sets-Permᴰ :
    {xs ys : List SetScore} → Permᴰ xs ys → Nodup (numbers xs) → sort_sets xs ≡ sort_sets ys
unfolding sort_sets
sort_sets-Permᴰ Permᴰ.nil d = refl
sort_sets-Permᴰ (Permᴰ.cons {a = x} {l₂ = ys} e p) d =
    rw (sort_sets-Permᴰ p (Nodup-cons.0 d).1) (ap (λ z. insert_set z (sort_sets ys)) e)
sort_sets-Permᴰ (Permᴰ.swap {a = x} {b = y} {l = l} e f) d =
    insert_set_comm x y (sort_sets l) (λ q. (Nodup-cons.0 d).0 (rw q mem-cons_self))
    ∙ ap₂ (λ u v. insert_set u (insert_set v (sort_sets l))) f e
sort_sets-Permᴰ (Permᴰ.trans p q) d =
    sort_sets-Permᴰ p d ∙ sort_sets-Permᴰ q (Perm.nodup (Perm.map (λ st. st.set_number) ∣ p ∣₁) d)

SetScores-set : IsSet (List SetScore)
SetScores-set = hlevel

-- Sets with different numbers are sorted to one list, however they are sent.
pub sort_sets-Perm :
    {xs ys : List SetScore} → Perm xs ys → Nodup (numbers xs) → sort_sets xs ≡ sort_sets ys
sort_sets-Perm p d = ∥∥₁_elim p (SetScores-set _ _) (λ q. sort_sets-Permᴰ q d)

-- The sets are numbered from `i + 1` on.
abbrev pub Numbered : ℕ → List SetScore → Type 0
Numbered i [] = Unit
Numbered i (st ∷ sets) = (st.set_number ≡ pos (i + 1)) × Numbered (i + 1) sets

-- `numbering` finds nothing exactly for such lists.
pub numbering-Numbered :
    (i : ℕ) (sets : List SetScore) → (numbering i sets ≡ none) ↔ Numbered i sets
unfolding numbering
numbering-Numbered i [] = (λ e. tt, λ u. refl)
numbering-Numbered i (st ∷ sets) = (
  λ e. ground (arith, eq_iff st.set_number (pos (i + 1)), (numbering-Numbered (i + 1) sets).0),
  λ h. ground (arith, eq_iff st.set_number (pos (i + 1)), (numbering-Numbered (i + 1) sets).1 h.1),
)

-- The numbers of such a list lie above `i`.
above : (i n : ℕ) (sets : List SetScore) → Numbered i sets → n ≤ i → ¬ Mem (pos n) (numbers sets)
above i n [] h le m = not-mem-nil m
above i n (st ∷ sets) h le m =
    Or.elim ⊥_prop (mem-cons.0 m) (λ e. absurd (ground (arith, h.0, e)))
      (above (i + 1) n sets h.1 (omega arith))

Numbered-Nodup : (i : ℕ) (sets : List SetScore) → Numbered i sets → Nodup (numbers sets)
Numbered-Nodup i [] h = Nodup-nil
Numbered-Nodup i (st ∷ sets) h =
    Nodup-cons.1
      (rw h.0 (above (i + 1) (i + 1) sets h.1 (omega arith)), Numbered-Nodup (i + 1) sets h.1)

insert_first :
    (i : ℕ) (st : SetScore) (sets : List SetScore)
    → st.set_number ≡ pos (i + 1)
    → Numbered (i + 1) sets
    → insert_set st sets ≡ st ∷ sets
unfolding insert_set
insert_first i st [] e h = refl
insert_first i st (x ∷ xs) e h = rw (e, h.0) (ground arith)

sort_sets-Numbered : (i : ℕ) (sets : List SetScore) → Numbered i sets → sort_sets sets ≡ sets
unfolding sort_sets
sort_sets-Numbered i [] h = refl
sort_sets-Numbered i (st ∷ sets) h =
    rw (sort_sets-Numbered (i + 1) sets h.1) (insert_first i st sets h.0 h.1)

insert_set-perm : (st : SetScore) (l : List SetScore) → Perm (insert_set st l) (st ∷ l)
unfolding insert_set
insert_set-perm st [] = Perm.refl (st ∷ [])
insert_set-perm st (x ∷ l) = elim (Bool-cases (ltb_ℤ x.set_number st.set_number)) [
  | inl later ↦ rw later (Perm.trans (Perm.cons x (insert_set-perm st l)) (Perm.swap st x l))
  | inr first ↦ rw first (Perm.refl (st ∷ x ∷ l))
]

pub sort_sets-perm : (sets : List SetScore) → Perm (sort_sets sets) sets
unfolding sort_sets
sort_sets-perm [] = Perm.refl []
sort_sets-perm (st ∷ sets) =
    Perm.trans (insert_set-perm st (sort_sets sets)) (Perm.cons st (sort_sets-perm sets))

-- A well-numbered order of the sets is the one that the code sorts them into.
pub sort_sets_unique :
    (sets ordered : List SetScore)
    → Perm ordered sets
    → Numbered 0 ordered
    → sort_sets sets ≡ ordered
sort_sets_unique sets ordered p h =
    sym (sort_sets-Perm p (Numbered-Nodup 0 ordered h)) ∙ sort_sets-Numbered 0 ordered h
