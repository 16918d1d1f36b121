-- ===== src/Draw/Bracket/Placement.antt =====
-- `placeEntries`: every entry gets one slot, and the other slots are byes.
use mathlib.Core.List.Perm
use mathlib.Core.List.{perm_middle}
use tourney_api.Prelude.{
  ℕ, zero, suc, ◌+◌, ◌≤◌, ◌<◌, ◌≡◌, ◌≢◌, refl, sym, ap, inl, inr, Option, none, some, List, [], ◌∷◌,
  ◌++◌, map, Perm, arith, ltb, ltb→lt, if◌then◌else◌, length, length-append, length-perm, ◌^◌, take,
  Bool-cases, Option-cases,
}
use tourney_api.Prelude.Decide.{ℕ-cases}
use tourney_api.Draw.{Entry}
use tourney_api.Draw.Bracket.{by_seed, unseeded, fill_slots, place_entries, seed_positions}
use tourney_api.Draw.Bracket.Seeds.{count, seed_positions-IsSeedOrder}

-- The entries that are placed.
abbrev pub present {ℓ} : {A : Type ℓ} → List (Option A) → List A
present [] = []
present (none ∷ xs) = present xs
present (some x ∷ xs) = x ∷ present xs

abbrev seeded : List Entry → List Entry
seeded [] = []
seeded (e ∷ es) = if ltb 0 e.seed then e ∷ seeded es else seeded es

-- The seeded entries that the order calls up.
abbrev hits : List Entry → List ℕ → List Entry
hits es order = present (map (λ r. by_seed r es) order)

abbrev misses : List Entry → List ℕ → ℕ
misses es [] = 0
misses es (r ∷ order) = elim (by_seed r es) [
  | some e ↦ misses es order
  | none ↦ suc (misses es order)
]

-- Seeds are distinct and within the bracket; 0 stands for no seed.
abbrev pub WellSeeded : ℕ → List Entry → Type 0
WellSeeded size [] = Unit
WellSeeded size (e ∷ es) =
    (0 < e.seed → (e.seed ≤ size) × (by_seed e.seed es ≡ none)) × WellSeeded size es

seeded-unseeded-perm : (es : List Entry) → Perm (seeded es ++ unseeded es) es
unfolding unseeded
seeded-unseeded-perm [] = Perm.refl []
seeded-unseeded-perm (e ∷ es) = elim (Bool-cases (ltb 0 e.seed)) [
  | inl s ↦ rw s (Perm.cons e (seeded-unseeded-perm es))
  | inr u ↦
      rw u
        (Perm.trans (perm_middle (seeded es) (unseeded es)) (Perm.cons e (seeded-unseeded-perm es)))
]

take-nil {ℓ} : {A : Type ℓ} (n : ℕ) → take {A = A} n [] ≡ []
take-nil zero = refl
take-nil (suc n) = refl

-- What is placed: the entries called up, and as many waiting ones as there are slots for them.
fill_slots-perm :
    (es : List Entry) (order : List ℕ) (waiting : List Entry)
    → Perm (present (fill_slots es order waiting)) (hits es order ++ take (misses es order) waiting)
unfolding fill_slots
fill_slots-perm es [] waiting = Perm.refl []
fill_slots-perm es (r ∷ order) [] = elim (Option-cases (by_seed r es)) [
  | inl e ↦
      rw (e, misses, fill_slots) (rw (take-nil (misses es order)) at (fill_slots-perm es order []))
  | inr (x, e) ↦ rw (e, misses, fill_slots) (Perm.cons x (fill_slots-perm es order []))
]
fill_slots-perm es (r ∷ order) (u ∷ us) = elim (Option-cases (by_seed r es)) [
  | inl e ↦
      rw (e, misses, fill_slots)
        (Perm.trans (Perm.cons u (fill_slots-perm es order us))
          (Perm.symm (perm_middle (hits es order) (take (misses es order) us))))
  | inr (x, e) ↦ rw (e, misses, fill_slots) (Perm.cons x (fill_slots-perm es order (u ∷ us)))
]

-- An entry with a seed that no later entry has is called up once, at its seed.
by_seed_hit :
    (e : Entry) (es : List Entry)
    → 0 < e.seed
    → by_seed e.seed es ≡ none
    → by_seed e.seed (e ∷ es) ≡ some e
unfolding by_seed
by_seed_hit e es p q = ground arith

by_seed_other :
    (e : Entry) (es : List Entry) (r : ℕ) → e.seed ≢ r → by_seed r (e ∷ es) ≡ by_seed r es
unfolding by_seed
by_seed_other e es r p = ground arith

with_hit :
    (o : Option Entry) (xs ys : List (Option Entry))
    → present xs ≡ present ys
    → present (o ∷ xs) ≡ present (o ∷ ys)
with_hit none xs ys q = q
with_hit (some x) xs ys q = ap (◌∷◌ x) q

by_seed_unseeded :
    (e : Entry) (es : List Entry) (r : ℕ) → e.seed ≡ 0 → by_seed r (e ∷ es) ≡ by_seed r es
unfolding by_seed
by_seed_unseeded e es r p = ground arith

hits_none :
    (e : Entry) (es : List Entry) (order : List ℕ)
    → count e.seed order ≡ 0
    → hits (e ∷ es) order ≡ hits es order
hits_none e es [] c = refl
hits_none e es (r ∷ order) c = elim (ℕ-cases r e.seed) [
  | inl same ↦ absurd (ground arith)
  | inr ne ↦
      let rest = hits_none e es order (ground arith) in
      rw (by_seed_other e es r (λ q. ne (sym q))) (with_hit (by_seed r es) _ _ rest)
]

hits_once :
    (e : Entry) (es : List Entry) (order : List ℕ)
    → 0 < e.seed
    → by_seed e.seed es ≡ none
    → count e.seed order ≡ 1
    → Perm (hits (e ∷ es) order) (e ∷ hits es order)
hits_once e es [] p q c = absurd (omega arith)
hits_once e es (r ∷ order) p q c = elim (ℕ-cases r e.seed) [
  | inl same ↦
      rw (same, by_seed_hit e es p q, q, hits_none e es order (ground arith))
        (Perm.refl (e ∷ hits es order))
  | inr ne ↦
      rw (by_seed_other e es r (λ q. ne (sym q)))
        (with_call (by_seed r es) _ _ (hits_once e es order p q (ground arith)))
]
  where
    with_call :
        (o : Option Entry) (xs ys : List (Option Entry))
        → Perm (present xs) (e ∷ present ys)
        → Perm (present (o ∷ xs)) (e ∷ present (o ∷ ys))
    with_call none xs ys p = p
    with_call (some x) xs ys p = Perm.trans (Perm.cons x p) (Perm.swap e x (present ys))

-- An entry with no seed is never called up.
unseeded_hits :
    (e : Entry) (es : List Entry) (order : List ℕ)
    → e.seed ≡ 0
    → hits (e ∷ es) order ≡ hits es order
unseeded_hits e es [] z = refl
unseeded_hits e es (r ∷ order) z =
    rw (by_seed_unseeded e es r z) (with_hit (by_seed r es) _ _ (unseeded_hits e es order z))

hits-nil : (order : List ℕ) → hits [] order ≡ []
unfolding by_seed
hits-nil [] = refl
hits-nil (r ∷ order) = hits-nil order

-- The entries called up by an order in which every seed stands once are the seeded ones.
hits-perm :
    (size : ℕ) (es : List Entry) (order : List ℕ)
    → WellSeeded size es
    → ((r : ℕ) → 1 ≤ r → r ≤ size → count r order ≡ 1)
    → Perm (hits es order) (seeded es)
hits-perm size [] order w once = rw (hits-nil order) (Perm.refl [])
hits-perm size (e ∷ es) order w once = elim (Bool-cases (ltb 0 e.seed)) [
  | inl s ↦
      let pos_seed = ltb→lt 0 e.seed s in
      let (le, fresh) = w.0 pos_seed in
      rw s (
        Perm.trans (hits_once e es order pos_seed fresh (once e.seed pos_seed le))
          (Perm.cons e (hits-perm size es order w.1 once)))
  | inr u ↦ rw u (rw (unseeded_hits e es order (ground arith)) (hits-perm size es order w.1 once))
]

-- Every rank is a hit or a miss.
length-hits-misses :
    (es : List Entry) (order : List ℕ) → length (hits es order) + misses es order ≡ length order
length-hits-misses es [] = omega arith
length-hits-misses es (r ∷ order) = elim (Option-cases (by_seed r es)) [
  | inl e ↦ rw (e, misses) (omega (arith, length-hits-misses es order))
  | inr (x, e) ↦ rw (e, misses) (omega (arith, length-hits-misses es order))
]

take_all {ℓ} : {A : Type ℓ} (n : ℕ) (xs : List A) → length xs ≤ n → take n xs ≡ xs
take_all n [] h = take-nil n
take_all zero (x ∷ xs) h = absurd (omega arith)
take_all (suc n) (x ∷ xs) h = ap (◌∷◌ x) (take_all n xs (omega arith))

-- In a bracket of `2 ^ (k + 1)` slots, with no more entries than slots and seeds that are distinct
-- and within the size, `placeEntries` gives every entry exactly one slot and leaves the rest byes.
pub place_entries-perm :
    (k : ℕ) (es : List Entry)
    → length es ≤ 2 ^ suc k
    → WellSeeded (2 ^ suc k) es
    → Perm (present (place_entries es (seed_positions (2 ^ suc k)))) es
unfolding place_entries
place_entries-perm k es fits w =
    let order = seed_positions (2 ^ suc k) in
    let v = seed_positions-IsSeedOrder k in
    let called = hits-perm (2 ^ suc k) es order w v.once in
    let enough : length (unseeded es) ≤ misses es order = omega (
      arith,
      length-perm called,
      length-perm (seeded-unseeded-perm es),
      length-append (seeded es) (unseeded es),
      length-hits-misses es order,
      v.size,
    ) in
    Perm.trans (fill_slots-perm es order (unseeded es)) (
      rw (take_all (misses es order) (unseeded es) enough)
        (Perm.trans (Perm.append_right (unseeded es) called) (seeded-unseeded-perm es)))
