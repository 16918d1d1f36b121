-- ===== src/Draw/Pairs/Valid.antt =====
-- `validatePairs` of internal/draw/service.go: which pairs it accepts.
use mathlib.Core.List.{Mem, Nodup, Nodup-nil, Nodup-cons, forall_mem-cons, not-mem-nil}
use tourney_api.Prelude.{
  ℕ, ◌≡◌, ◌≢◌, ◌↔◌, ◌⊎◌, inl, inr, refl, sym, ap, ◌∙◌, Bool, true, false, Option, none, some, List,
  [], ◌∷◌, arith,
}
use mathlib.Core.Path.{subst}
use tourney_api.Prelude.Decide.{ℕ-cases}
use tourney_api.Draw.Bracket.{Pair, clean_pairs}
use tourney_api.Draw.Fixtures.{Result, ok, err, invalid_pairs, ◌>>=◌}
use tourney_api.Draw.Pairs.{listed, use_id, check_pairs, some_filled, validate_pairs}

abbrev pub both : Option ℕ → Option ℕ → List ℕ → List ℕ
both (some x) (some y) rest = x ∷ y ∷ rest
both _ _ rest = rest

-- The participants of the pairs with both sides.
abbrev pub teams : List Pair → List ℕ
teams [] = []
teams (p ∷ pairs) = both p.a p.b (teams pairs)

abbrev pub Whole : Option ℕ → Option ℕ → Type 0
Whole none (some y) = ⊥
Whole (some x) none = ⊥
Whole _ _ = Unit

-- No pair has one side only.
abbrev pub AllWhole : List Pair → Type 0
AllWhole [] = Unit
AllWhole (p ∷ pairs) = Whole p.a p.b × AllWhole pairs

clean_pairs-both :
    (p : Pair) (pairs : List Pair) (x y : ℕ)
    → p.a ≡ some x
    → p.b ≡ some y
    → clean_pairs (p ∷ pairs) ≡ p ∷ clean_pairs pairs
unfolding clean_pairs
clean_pairs-both p pairs x y ea eb = ground (arith, ea, eb)

clean_pairs-none :
    (p : Pair) (pairs : List Pair)
    → p.a ≡ none
    → p.b ≡ none
    → clean_pairs (p ∷ pairs) ≡ clean_pairs pairs
unfolding clean_pairs
clean_pairs-none p pairs ea eb = ground (arith, ea, eb)

teams-both :
    (p : Pair) (pairs : List Pair) (a b : Option ℕ)
    → p.a ≡ a
    → p.b ≡ b
    → teams (p ∷ pairs) ≡ both a b (teams pairs)
teams-both p pairs a b ea eb =
    ap (λ x. both x p.b (teams pairs)) ea ∙ ap (λ y. both a y (teams pairs)) eb

module _ (valid : ℕ → Bool) where
  abbrev Fresh : List ℕ → List ℕ → Type 0
  Fresh seen [] = Unit
  Fresh seen (x ∷ xs) = (valid x ≡ true) × (listed x seen ≡ false) × Fresh (x ∷ seen) xs

  Fresh-Nodup :
      (xs seen : List ℕ)
      → Fresh seen xs
      → Nodup xs × ((y : ℕ) → Mem y xs → (valid y ≡ true) × (listed y seen ≡ false))
  Fresh-Nodup [] seen h = (Nodup-nil, λ y mem. absurd (not-mem-nil mem))
  Fresh-Nodup (x ∷ xs) seen (ok_x, new_x, h) =
      let (distinct, each) = Fresh-Nodup xs (x ∷ seen) h in
      (
        Nodup-cons.1
            (λ mem. let e = (each x mem).1 in let no_x : ⊥ = ground (arith, e) in no_x, distinct),
        (forall_mem-cons (λ y. hlevel)).1 (
          (ok_x, new_x),
          λ y mem. let (ok_y, new_y) = each y mem in (ok_y, ground (arith, new_y)),
        ),
      )

  Nodup-Fresh :
      (xs seen : List ℕ)
      → Nodup xs
      → ((y : ℕ) → Mem y xs → (valid y ≡ true) × (listed y seen ≡ false))
      → Fresh seen xs
  Nodup-Fresh [] seen distinct each = tt
  Nodup-Fresh (x ∷ xs) seen distinct each =
      let (new, rest) = Nodup-cons.0 distinct in
      let ((ok_x, new_x), others) = (forall_mem-cons (λ y. hlevel)).0 each in
      (
        ok_x,
        new_x,
        Nodup-Fresh xs (x ∷ seen) rest (λ y mem. elim (ℕ-cases x y) [
          | inl e ↦ absurd (new (subst (λ z. Mem z xs) (sym e) mem))
          | inr ne ↦ let (ok_y, new_y) = others y mem in (ok_y, ground (arith, new_y, ne))
        ]),
      )

  use_id-fresh :
      (seen : List ℕ) (x : ℕ)
      → valid x ≡ true
      → listed x seen ≡ false
      → use_id valid seen x ≡ ok (x ∷ seen)
  unfolding use_id
  use_id-fresh seen x v n = ground (arith, v, n)

  use_id-cases :
      (seen : List ℕ) (x : ℕ)
      → ((valid x ≡ true) × (listed x seen ≡ false)) ⊎ (use_id valid seen x ≡ err invalid_pairs)
  unfolding use_id
  use_id-cases seen x = ground arith

  -- The pairs after one with both sides.
  after_pair : List ℕ → Pair → ℕ → ℕ → List Pair → Result (List Pair)
  after_pair seen p x y pairs = do
    seen_a ← use_id valid seen x
    seen_b ← use_id valid seen_a y
    out ← check_pairs valid seen_b pairs
    ok (p ∷ out)

  after_pair_fresh :
      (seen : List ℕ) (p : Pair) (x y : ℕ) (pairs : List Pair)
      → (valid x ≡ true) × (listed x seen ≡ false)
      → (valid y ≡ true) × (listed y (x ∷ seen) ≡ false)
      → after_pair seen p x y pairs
        ≡ check_pairs valid (y ∷ x ∷ seen) pairs >>= (λ out. ok (p ∷ out))
  unfolding after_pair
  after_pair_fresh seen p x y pairs (vx, nx) (vy, ny) =
      rw (use_id-fresh seen x vx nx, use_id-fresh (x ∷ seen) y vy ny) refl

  ok-bind :
      (p : Pair) (r : Result (List Pair)) (out : List Pair)
      → r >>= (λ rest. ok (p ∷ rest)) ≡ ok out
      → (rest : List Pair) × (r ≡ ok rest) × (out ≡ p ∷ rest)
  ok-bind p (err e) out h = let no_result : ⊥ = ground (arith, h) in elim no_result [ ]
  ok-bind p (ok rest) out h = (rest, refl, ground (arith, h))

  not_refused : (r : Result (List Pair)) (out : List Pair) → r ≡ err invalid_pairs → r ≡ ok out → ⊥
  not_refused r out e h = let clash = sym e ∙ h in ground (arith, clash)

  after_pair-ok :
      (seen : List ℕ) (p : Pair) (x y : ℕ) (pairs out : List Pair)
      → after_pair seen p x y pairs ≡ ok out
      → (valid x ≡ true)
        × (listed x seen ≡ false)
        × (valid y ≡ true)
        × (listed y (x ∷ seen) ≡ false)
        × (rest : List Pair) × (check_pairs valid (y ∷ x ∷ seen) pairs ≡ ok rest)
        × (out ≡ p ∷ rest)
  unfolding after_pair
  after_pair-ok seen p x y pairs out h = elim (use_id-cases seen x) [
    | inr bad_x ↦ absurd (not_refused _ out (rw bad_x refl) h)
    | inl (vx, nx) ↦ elim (use_id-cases (x ∷ seen) y) [
      | inr bad_y ↦ absurd (not_refused _ out (rw (use_id-fresh seen x vx nx, bad_y) refl) h)
      | inl (vy, ny) ↦
          let (rest, ran, e) =
            ok-bind p (check_pairs valid (y ∷ x ∷ seen) pairs) out
              (sym (after_pair_fresh seen p x y pairs (vx, nx) (vy, ny)) ∙ h) in
          (vx, nx, vy, ny, rest, ran, e)
    ]
  ]

  pair_step : List ℕ → Pair → List Pair → Option ℕ → Option ℕ → Result (List Pair)
  pair_step seen p pairs a b = elim a [
    | none ↦ elim b [ none ↦ check_pairs valid seen pairs | some y ↦ err invalid_pairs ]
    | some x ↦ elim b [ none ↦ err invalid_pairs | some y ↦ after_pair seen p x y pairs ]
  ]

  check_pairs_step :
      (seen : List ℕ) (p : Pair) (pairs : List Pair) (a b : Option ℕ)
      → p.a ≡ a
      → p.b ≡ b
      → check_pairs valid seen (p ∷ pairs) ≡ pair_step seen p pairs a b
  unfolding check_pairs pair_step after_pair
  check_pairs_step seen p pairs a b ea eb =
      ap (λ x. pair_step seen p pairs x p.b) ea ∙ ap (λ y. pair_step seen p pairs a y) eb

  Accepted : List ℕ → List Pair → List Pair → Type 0
  Accepted seen pairs out = AllWhole pairs × Fresh seen (teams pairs) × (out ≡ clean_pairs pairs)

  step-ok :
      (seen : List ℕ) (p : Pair) (pairs out : List Pair) (a b : Option ℕ)
      → ((seen' : List ℕ) (out' : List Pair)
          → check_pairs valid seen' pairs ≡ ok out'
          → Accepted seen' pairs out')
      → p.a ≡ a
      → p.b ≡ b
      → pair_step seen p pairs a b ≡ ok out
      → Whole a b
        × AllWhole pairs
        × Fresh seen (both a b (teams pairs))
        × (out ≡ clean_pairs (p ∷ pairs))
  unfolding Accepted pair_step
  step-ok seen p pairs out none none rec ea eb h =
      let (whole, fresh, e) = rec seen out h in
      (tt, whole, fresh, e ∙ sym (clean_pairs-none p pairs ea eb))
  step-ok seen p pairs out none (some y) rec ea eb h = absurd (not_refused _ out refl h)
  step-ok seen p pairs out (some x) none rec ea eb h = absurd (not_refused _ out refl h)
  step-ok seen p pairs out (some x) (some y) rec ea eb h =
      let (vx, nx, vy, ny, rest, ran, e) = after_pair-ok seen p x y pairs out h in
      let (whole, fresh, cleaned) = rec (y ∷ x ∷ seen) rest ran in
      (
        tt,
        whole,
        (vx, nx, (vy, ny, fresh)),
        e ∙ ap (λ l. p ∷ l) cleaned ∙ sym (clean_pairs-both p pairs x y ea eb),
      )

  check_pairs-ok :
      (pairs : List Pair) (seen : List ℕ) (out : List Pair)
      → check_pairs valid seen pairs ≡ ok out
      → Accepted seen pairs out
  unfolding check_pairs Accepted clean_pairs
  check_pairs-ok [] seen out h = (tt, tt, ground (arith, h))
  check_pairs-ok (p ∷ pairs) seen out h =
      let (here, whole, fresh, e) =
        step-ok seen p pairs out p.a p.b (check_pairs-ok pairs) refl refl
          (sym (check_pairs_step seen p pairs p.a p.b refl refl) ∙ h) in
      ((here, whole), fresh, e)

  step-accepted :
      (seen : List ℕ) (p : Pair) (pairs : List Pair) (a b : Option ℕ)
      → ((seen' : List ℕ)
          → Fresh seen' (teams pairs)
          → check_pairs valid seen' pairs ≡ ok (clean_pairs pairs))
      → p.a ≡ a
      → p.b ≡ b
      → Whole a b
      → Fresh seen (both a b (teams pairs))
      → pair_step seen p pairs a b ≡ ok (clean_pairs (p ∷ pairs))
  unfolding pair_step
  step-accepted seen p pairs none none rec ea eb w fresh =
      rec seen fresh ∙ ap ok (sym (clean_pairs-none p pairs ea eb))
  step-accepted seen p pairs none (some y) rec ea eb w fresh = absurd w
  step-accepted seen p pairs (some x) none rec ea eb w fresh = absurd w
  step-accepted seen p pairs (some x) (some y) rec ea eb w (vx, nx, (vy, ny, fresh)) =
      after_pair_fresh seen p x y pairs (vx, nx) (vy, ny)
      ∙ ap (λ r. r >>= (λ out. ok (p ∷ out))) (rec (y ∷ x ∷ seen) fresh)
      ∙ ap ok (sym (clean_pairs-both p pairs x y ea eb))

  check_pairs-accepted :
      (pairs : List Pair) (seen : List ℕ)
      → AllWhole pairs
      → Fresh seen (teams pairs)
      → check_pairs valid seen pairs ≡ ok (clean_pairs pairs)
  unfolding check_pairs clean_pairs
  check_pairs-accepted [] seen whole fresh = refl
  check_pairs-accepted (p ∷ pairs) seen whole fresh =
      check_pairs_step seen p pairs p.a p.b refl refl
      ∙ step-accepted seen p pairs p.a p.b (λ seen' f. check_pairs-accepted pairs seen' whole.1 f)
          refl refl whole.0 fresh

  some_filled-ok : (out out' : List Pair) → some_filled out ≡ ok out' ↔ ((out' ≡ out) × (out ≢ []))
  some_filled-ok [] out' = (λ h. ground (arith, h), λ h. absurd (h.1 refl))
  some_filled-ok (p ∷ out) out' =
      (λ h. (ground (arith, h), λ e. ground (arith, e)), λ h. ap ok (sym h.0))

  ok-filled :
      (r : Result (List Pair)) (out : List Pair)
      → r >>= some_filled ≡ ok out
      → (all : List Pair) × (r ≡ ok all) × (some_filled all ≡ ok out)
  ok-filled (err e) out h = let no_result : ⊥ = ground (arith, h) in elim no_result [ ]
  ok-filled (ok all) out h = (all, refl, h)

  -- No row has one side only, every participant in the rows belongs to the event, none stands in
  -- them twice, and some row is filled.
  abbrev pub IsDraw : List Pair → Type 0
  IsDraw pairs =
      AllWhole pairs
      × Nodup (teams pairs)
      × ((id : ℕ) → Mem id (teams pairs) → valid id ≡ true)
      × (clean_pairs pairs ≢ [])

  -- `validatePairs` accepts the rows exactly when no row has one side only, every participant in
  -- them belongs to the event, none stands in them twice, and some row is filled; it returns the
  -- filled rows in their order.
  pub validate_pairs-IsDraw :
      (pairs out : List Pair)
      → validate_pairs valid pairs ≡ ok out ↔ (IsDraw pairs × (out ≡ clean_pairs pairs))
  unfolding validate_pairs Accepted
  validate_pairs-IsDraw pairs out = (accepted, accepts)
    where
      accepted : validate_pairs valid pairs ≡ ok out → IsDraw pairs × (out ≡ clean_pairs pairs)
      accepted h =
          let (all, ran, last) = ok-filled (check_pairs valid [] pairs) out h in
          let (whole, fresh, e) = check_pairs-ok pairs [] all ran in
          let (distinct, each) = Fresh-Nodup (teams pairs) [] fresh in
          let (same, filled) = (some_filled-ok all out).0 last in
          (
            (whole, distinct, λ id mem. (each id mem).0, λ none_left. filled (e ∙ none_left)),
            same ∙ e,
          )

      accepts : IsDraw pairs × (out ≡ clean_pairs pairs) → validate_pairs valid pairs ≡ ok out
      accepts ((whole, distinct, each, filled), e) =
          ap (λ r. r >>= some_filled)
            (check_pairs-accepted pairs [] whole
              (Nodup-Fresh (teams pairs) [] distinct (λ y mem. (each y mem, refl))))
          ∙ (some_filled-ok (clean_pairs pairs) out).1 (e, filled)
