-- ===== src/Draw/Bracket/Seeds.antt =====
-- `seedPositions`: each seed rank takes one slot, and the ranks of a first-round match add up to
-- one more than the size.
use tourney_api.Prelude.{
  ℕ, zero, suc, ◌+◌, ◌-◌, ◌*◌, ◌^◌, ◌≤◌, ◌<◌, ◌≡◌, refl, inl, inr, true, false, List, [], ◌∷◌,
  arith, ltb, ◌==◌, if◌then◌else◌, length, lt→ltb,
}
use tourney_api.Prelude.Decide.{lt-cases}
use tourney_api.Draw.Bracket.{double_seeds, grow_seeds, seed_positions}
use tourney_api.Draw.Bracket.Powers.{pow2_suc, pow2_lt, lt-pow2}

abbrev pub count : ℕ → List ℕ → ℕ
count r [] = 0
count r (x ∷ xs) = if x == r then suc (count r xs) else count r xs

abbrev pub AllWithin : ℕ → List ℕ → Type 0
AllWithin n [] = Unit
AllWithin n (x ∷ xs) = (1 ≤ x) × (x ≤ n) × AllWithin n xs

length-double_seeds : (t : ℕ) (xs : List ℕ) → length (double_seeds t xs) ≡ 2 * length xs
unfolding double_seeds
length-double_seeds t [] = refl
length-double_seeds t (x ∷ xs) = omega (arith, length-double_seeds t xs)

double_seeds-AllWithin :
    (n : ℕ) (xs : List ℕ) → AllWithin n xs → AllWithin (2 * n) (double_seeds (n * 2 + 1) xs)
unfolding double_seeds
double_seeds-AllWithin n [] h = tt
double_seeds-AllWithin n (x ∷ xs) (a, b, h) =
    (a, omega arith, (omega arith, omega arith, double_seeds-AllWithin n xs h))

count-double_seeds :
    (n r : ℕ) (xs : List ℕ)
    → AllWithin n xs
    → r ≤ 2 * n
    → count r (double_seeds (n * 2 + 1) xs) ≡ count r xs + count (n * 2 + 1 - r) xs
unfolding double_seeds
count-double_seeds n r [] h k = omega arith
count-double_seeds n r (x ∷ xs) (a, b, h) k = ground (arith, count-double_seeds n r xs h k)

count_above : (n r : ℕ) (xs : List ℕ) → AllWithin n xs → n < r → count r xs ≡ 0
count_above n r [] h k = refl
count_above n r (x ∷ xs) (a, b, h) k = ground (arith, count_above n r xs h k)

-- Slots 2i and 2i + 1 hold ranks that add up to `t`.
abbrev pub PairsSum : ℕ → List ℕ → Type 0
PairsSum t [] = Unit
PairsSum t (x ∷ []) = ⊥
PairsSum t (x ∷ y ∷ xs) = (x + y ≡ t) × PairsSum t xs

double_seeds-PairsSum :
    (n : ℕ) (xs : List ℕ) → AllWithin n xs → PairsSum (n * 2 + 1) (double_seeds (n * 2 + 1) xs)
unfolding double_seeds
double_seeds-PairsSum n [] h = tt
double_seeds-PairsSum n (x ∷ xs) (a, b, h) = (omega arith, double_seeds-PairsSum n xs h)

-- The seed order of a bracket of size `2 ^ k`.
pub record IsSeedOrder (k : ℕ) (xs : List ℕ) : Type 0 where
  pub size : length xs ≡ 2 ^ k
  pub within : AllWithin (2 ^ k) xs
  pub once : (r : ℕ) → 1 ≤ r → r ≤ 2 ^ k → count r xs ≡ 1
  pub pairs : PairsSum (2 ^ k + 1) xs

once_doubled :
    (n r : ℕ) (xs : List ℕ)
    → AllWithin n xs
    → ((r : ℕ) → 1 ≤ r → r ≤ n → count r xs ≡ 1)
    → 1 ≤ r
    → r ≤ 2 * n
    → count r (double_seeds (n * 2 + 1) xs) ≡ 1
once_doubled n r xs w once a b = elim (lt-cases n r) [
  | inl high ↦ omega (
    arith,
    count-double_seeds n r xs w b,
    count_above n r xs w high,
    once (n * 2 + 1 - r) (omega arith) (omega arith),
  )
  | inr low ↦ omega (
    arith,
    count-double_seeds n r xs w b,
    count_above n (n * 2 + 1 - r) xs w (omega arith),
    once r a low,
  )
]

double_seeds-IsSeedOrder :
    (k : ℕ) (xs : List ℕ)
    → IsSeedOrder k xs
    → IsSeedOrder (suc k) (double_seeds (length xs * 2 + 1) xs)
double_seeds-IsSeedOrder k xs v = rw v.size (record {
  size = omega (arith, length-double_seeds (2 ^ k * 2 + 1) xs, v.size, pow2_suc k);
  within = rw (pow2_suc k) (double_seeds-AllWithin (2 ^ k) xs v.within);
  once = λ r a b. once_doubled (2 ^ k) r xs v.within v.once a (omega (arith, pow2_suc k));
  pairs =
      let e : 2 ^ suc k + 1 ≡ 2 ^ k * 2 + 1 = omega (arith, pow2_suc k) in
      rw e (double_seeds-PairsSum (2 ^ k) xs v.within);
})

grow_seeds-IsSeedOrder :
    (fuel d j : ℕ) (xs : List ℕ)
    → IsSeedOrder j xs
    → d ≤ fuel
    → IsSeedOrder (j + d) (grow_seeds fuel (2 ^ (j + d)) xs)
unfolding grow_seeds
grow_seeds-IsSeedOrder zero d j xs v h = let e : j + d ≡ j = omega arith in rw e v
grow_seeds-IsSeedOrder (suc fuel) zero j xs v h =
    let e : j + 0 ≡ j = omega arith in
    let stop : ltb (length xs) (2 ^ j) ≡ false = ground (arith, v.size) in rw (e, stop) v
grow_seeds-IsSeedOrder (suc fuel) (suc d) j xs v h =
    let e : j + suc d ≡ suc j + d = omega arith in
    let more : ltb (length xs) (2 ^ (suc j + d)) ≡ true =
      lt→ltb _ _ (omega (arith, v.size, pow2_lt j d)) in
    rw (e, more)
      (grow_seeds-IsSeedOrder fuel d (suc j) _ (double_seeds-IsSeedOrder j xs v) (omega arith))

first_seeds : IsSeedOrder 1 (1 ∷ 2 ∷ [])
first_seeds = record {
  size = refl;
  within = omega arith;
  once = λ r a b. ground arith;
  pairs = omega arith;
}

-- For a bracket of `2 ^ (k + 1)` slots the order has one rank for each slot, every rank from 1 to
-- the size stands in it exactly once, and the ranks of a first-round match add up to the size plus
-- one: the best seed meets the last, the second the last but one.
pub seed_positions-IsSeedOrder : (k : ℕ) → IsSeedOrder (suc k) (seed_positions (2 ^ suc k))
unfolding seed_positions
seed_positions-IsSeedOrder k =
    let e : 1 + k ≡ suc k = omega arith in
    rw e at (
      grow_seeds-IsSeedOrder (2 ^ suc k) k 1 (1 ∷ 2 ∷ []) first_seeds
        (omega (arith, lt-pow2 (suc k))))
