-- ===== src/Schedule/Somes.antt =====
-- Tests of some row of a list, and rows that are filtered.
use tourney_api.Prelude.{◌≡◌, refl, Bool, true, false, not, ◌&&◌, ◌||◌, List, [], ◌∷◌, ◌++◌, arith}
use tourney_api.Schedule.Conflicts.{filter, some_of, is_nil}

module _ {ℓ} {A : Type ℓ} where
  pub some_of-filter :
      (p q : A → Bool) (xs : List A) → some_of p (filter q xs) ≡ some_of (λ x. q x && p x) xs
  unfolding some_of filter
  some_of-filter p q [] = refl
  some_of-filter p q (x ∷ xs) = let rest = some_of-filter p q xs in ground (arith, rest)

  pub is_nil-filter : (p : A → Bool) (xs : List A) → is_nil (filter p xs) ≡ not (some_of p xs)
  unfolding some_of filter is_nil
  is_nil-filter p [] = refl
  is_nil-filter p (x ∷ xs) = let rest = is_nil-filter p xs in ground (arith, rest)

  pub is_nil-append : (xs ys : List A) → is_nil (xs ++ ys) ≡ (is_nil xs && is_nil ys)
  unfolding is_nil
  is_nil-append [] ys = refl
  is_nil-append (x ∷ xs) ys = refl

  pub some_of_same :
      (p q : A → Bool) (xs : List A) → ((x : A) → p x ≡ q x) → some_of p xs ≡ some_of q xs
  unfolding some_of
  some_of_same p q [] h = refl
  some_of_same p q (x ∷ xs) h = let rest = some_of_same p q xs h in rw (h x, rest)

  pub some_of_or :
      (p q : A → Bool) (xs : List A) → some_of (λ x. p x || q x) xs ≡ (some_of p xs || some_of q xs)
  unfolding some_of
  some_of_or p q [] = refl
  some_of_or p q (x ∷ xs) = let rest = some_of_or p q xs in ground (arith, rest)

  pub some_of_none : (xs : List A) → some_of (λ x. false) xs ≡ false
  unfolding some_of
  some_of_none [] = refl
  some_of_none (x ∷ xs) = some_of_none xs

  -- A test that implies another.
  pub some_of_less :
      (p q : A → Bool) (xs : List A)
      → ((x : A) → p x ≡ true → q x ≡ true)
      → some_of q xs ≡ false
      → some_of p xs ≡ false
  unfolding some_of
  some_of_less p q [] h none_ = refl
  some_of_less p q (x ∷ xs) h none_ =
      let here = h x in
      let rest = some_of_less p q xs h (ground (arith, none_)) in ground (arith, here, rest, none_)
