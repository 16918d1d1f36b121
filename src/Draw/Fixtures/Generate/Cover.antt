-- ===== src/Draw/Fixtures/Generate/Cover.antt =====
-- The generator leaves no pair out, and run again it creates nothing.
use mathlib.Core.Path.{subst}
use tourney_api.Prelude.{
  ℕ, ◌+◌, ◌≡◌, ◌≢◌, ◌⊎◌, refl, sym, ap, ◌∙◌, inl, inr, true, ◌&&◌, ◌==◌, Option, Option-cases, none,
  some, List, [], ◌∷◌, arith, Bool-cases, length,
}
use tourney_api.Match.Scoring.{Status, bye}
use tourney_api.Draw.Fixtures.{
  counts_as_fixture, is_ungrouped, Fixture, Event, ok, authorize_event, pending_fixture,
  max_match_no,
}
use tourney_api.Draw.Fixtures.Generate.{
  PairKey, pair_key, has_key, fixture_key, existing_pairs, Progress, add_pair, add_pairs_with,
  add_missing, pids_of, generate, generate_round_robin_fixtures,
}

-- The generator's map holds the pair.
abbrev pub Keyed : List Fixture → ℕ → ℕ → Type 0
Keyed fs a b = has_key (pair_key a b) (existing_pairs fs) ≡ true

-- A predicate of every two participants, in the order of the list.
abbrev pub EachWith : (ℕ → Type 0) → List ℕ → Type 0
EachWith P [] = Unit
EachWith P (b ∷ bs) = P b × EachWith P bs

abbrev pub EachPair : (ℕ → ℕ → Type 0) → List ℕ → Type 0
EachPair R [] = Unit
EachPair R (a ∷ as') = EachWith (R a) as' × EachPair R as'

has_key_self : (k : PairKey) (ks : List PairKey) → has_key k (k ∷ ks) ≡ true
unfolding has_key
has_key_self k ks = ground arith

-- A further row takes no pair away.
keeps_pairs :
    (f : Fixture) (fs : List Fixture) (k : PairKey)
    → has_key k (existing_pairs fs) ≡ true
    → has_key k (existing_pairs (f ∷ fs)) ≡ true
unfolding existing_pairs has_key
keeps_pairs f fs k h = ground arith

-- The new row covers its pair.
covers_own : (id n a b : ℕ) (fs : List Fixture) → Keyed (pending_fixture id n a b ∷ fs) a b
unfolding existing_pairs fixture_key
covers_own id n a b fs = elim (Bool-cases (has_key (pair_key a b) (existing_pairs fs))) [
  | inl old ↦ rw old old
  | inr new ↦ rw new (has_key_self (pair_key a b) (existing_pairs fs))
]

Grows : Progress → Progress → Type 0
Grows g g' =
    (k : PairKey)
    → has_key k (existing_pairs g.fixtures) ≡ true
    → has_key k (existing_pairs g'.fixtures) ≡ true

-- Every pair that the map `have` holds is covered.
Knows : List PairKey → Progress → Type 0
Knows have g = (k : PairKey) → has_key k have ≡ true → has_key k (existing_pairs g.fixtures) ≡ true

add_pair-Grows : (have : List PairKey) (a b : ℕ) (g : Progress) → Grows g (add_pair have a b g)
unfolding Grows add_pair
add_pair-Grows have a b g k h = elim (Bool-cases (has_key (pair_key a b) have)) [
  | inl old ↦ rw old h
  | inr new ↦ rw new (keeps_pairs (pending_fixture g.next_id g.next_no a b) g.fixtures k h)
]

add_pair-Keyed :
    (have : List PairKey) (a b : ℕ) (g : Progress)
    → Knows have g
    → Keyed (add_pair have a b g).fixtures a b
unfolding Knows add_pair
add_pair-Keyed have a b g h = elim (Bool-cases (has_key (pair_key a b) have)) [
  | inl old ↦ rw old (h (pair_key a b) old)
  | inr new ↦ rw new (covers_own g.next_id g.next_no a b g.fixtures)
]

add_pairs_with-Grows :
    (have : List PairKey) (a : ℕ) (bs : List ℕ) (g : Progress)
    → Grows g (add_pairs_with have a bs g)
unfolding Grows add_pairs_with
add_pairs_with-Grows have a [] g k h = h
add_pairs_with-Grows have a (b ∷ bs) g k h =
    add_pairs_with-Grows have a bs (add_pair have a b g) k (add_pair-Grows have a b g k h)

add_missing-Grows :
    (have : List PairKey) (pids : List ℕ) (g : Progress) → Grows g (add_missing have pids g)
unfolding Grows add_missing
add_missing-Grows have [] g k h = h
add_missing-Grows have (a ∷ pids) g k h =
    add_missing-Grows have pids (add_pairs_with have a pids g) k
      (add_pairs_with-Grows have a pids g k h)

add_pairs_with-Keyed :
    (have : List PairKey) (a : ℕ) (bs : List ℕ) (g : Progress)
    → Knows have g
    → EachWith (Keyed (add_pairs_with have a bs g).fixtures a) bs
unfolding add_pairs_with Grows Knows
add_pairs_with-Keyed have a [] g h = tt
add_pairs_with-Keyed have a (b ∷ bs) g h =
    let g' = add_pair have a b g in
    (
      add_pairs_with-Grows have a bs g' (pair_key a b) (add_pair-Keyed have a b g h),
      add_pairs_with-Keyed have a bs g' (λ k e. add_pair-Grows have a b g k (h k e)),
    )

EachWith-map :
    (P Q : ℕ → Type 0) (bs : List ℕ) → ((b : ℕ) → P b → Q b) → EachWith P bs → EachWith Q bs
EachWith-map P Q [] f h = tt
EachWith-map P Q (b ∷ bs) f h = (f b h.0, EachWith-map P Q bs f h.1)

add_missing-Keyed :
    (have : List PairKey) (pids : List ℕ) (g : Progress)
    → Knows have g
    → EachPair (Keyed (add_missing have pids g).fixtures) pids
unfolding add_missing Grows Knows
add_missing-Keyed have [] g h = tt
add_missing-Keyed have (a ∷ pids) g h =
    let g' = add_pairs_with have a pids g in
    (
      EachWith-map _ _ pids (λ b c. add_missing-Grows have pids g' (pair_key a b) c)
          (add_pairs_with-Keyed have a pids g h),
      add_missing-Keyed have pids g' (λ k e. add_pairs_with-Grows have a pids g k (h k e)),
    )

-- Where `have` holds every pair, nothing is added.
add_pairs_with_idle :
    (have : List PairKey) (a : ℕ) (bs : List ℕ) (g : Progress)
    → EachWith (λ b. has_key (pair_key a b) have ≡ true) bs
    → add_pairs_with have a bs g ≡ g
unfolding add_pairs_with add_pair
add_pairs_with_idle have a [] g h = refl
add_pairs_with_idle have a (b ∷ bs) g h = rw h.0 (add_pairs_with_idle have a bs g h.1)

add_missing_idle :
    (have : List PairKey) (pids : List ℕ) (g : Progress)
    → EachPair (λ a b. has_key (pair_key a b) have ≡ true) pids
    → add_missing have pids g ≡ g
unfolding add_missing
add_missing_idle have [] g h = refl
add_missing_idle have (a ∷ pids) g h =
    rw (add_pairs_with_idle have a pids g h.0) (add_missing_idle have pids g h.1)

generate-Keyed : (e : Event) → EachPair (Keyed (generate e).fixtures) (pids_of e)
unfolding generate Knows
generate-Keyed e = add_missing-Keyed (existing_pairs e.fixtures) (pids_of e) _ (λ k h. h)

after_run : Event → Event
after_run e = record e { fixtures = (generate e).fixtures; next_id = (generate e).next_id }

generate-after_run :
    (e : Event)
    → generate (after_run e) ≡ record {
      fixtures = (generate e).fixtures;
      next_id = (generate e).next_id;
      next_no = max_match_no (generate e).fixtures + 1;
      created = 0;
    }
unfolding generate after_run
generate-after_run e =
    add_missing_idle (existing_pairs (generate e).fixtures) (pids_of e) _ (generate-Keyed e)

run_result :
    (e e' : Event) (org : Option ℕ) (created existing : ℕ)
    → generate_round_robin_fixtures (some e) org ≡ ok (e', created, existing)
    → e' ≡ after_run e
unfolding generate_round_robin_fixtures authorize_event after_run
run_result e e' org created existing h = ground arith

run_covers : (e : Event) → EachPair (Keyed (after_run e).fixtures) (pids_of e)
unfolding after_run
run_covers e = generate-Keyed e

run_again :
    (e e' : Event) (org : Option ℕ) (created existing : ℕ)
    → generate_round_robin_fixtures (some e) org ≡ ok (e', created, existing)
    → generate_round_robin_fixtures (some (after_run e)) org
      ≡ ok (after_run e, 0, length (existing_pairs (after_run e).fixtures))
unfolding generate_round_robin_fixtures authorize_event after_run
run_again e e' org created existing h = ground (arith, generate-after_run e)

-- A fixture of two participants, on either side, that stands in no group and is neither cancelled nor
-- a bye.
abbrev pub Pairs : ℕ → ℕ → Fixture → Type 0
Pairs a b f =
    (f.group_id ≡ none)
    × (f.status ≢ Status.cancelled)
    × (f.status ≢ bye)
    × (((f.slot1 ≡ some a) × (f.slot2 ≡ some b)) ⊎ ((f.slot1 ≡ some b) × (f.slot2 ≡ some a)))

abbrev pub SomeFixture : (Fixture → Type 0) → List Fixture → Type 0
SomeFixture P [] = ⊥
SomeFixture P (f ∷ fs) = P f ⊎ SomeFixture P fs

-- The two have a fixture that counts.
abbrev pub Covered : List Fixture → ℕ → ℕ → Type 0
Covered fs a b = SomeFixture (Pairs a b) fs

same_pair :
    (a b x y : ℕ)
    → ((pair_key x y).0 == (pair_key a b).0 && (pair_key x y).1 == (pair_key a b).1) ≡ true
    → ((x ≡ a) × (y ≡ b)) ⊎ ((x ≡ b) × (y ≡ a))
same_pair a b x y h = ground (arith, h)

fixture_key-Pairs :
    (a b : ℕ) (f : Fixture) (k : PairKey)
    → fixture_key f ≡ some k
    → (k.0 == (pair_key a b).0 && k.1 == (pair_key a b).1) ≡ true
    → Pairs a b f
unfolding fixture_key
fixture_key-Pairs a b f k h same = elim (Option-cases f.slot1) [
  | inl e ↦ let no_key : ⊥ = ground (arith, h, e) in elim no_key [ ]
  | inr (x, e) ↦ elim (Option-cases f.slot2) [
    | inl e' ↦ let no_key : ⊥ = ground (arith, h, e, e') in elim no_key [ ]
    | inr (y, e') ↦
        let counts : (is_ungrouped f.group_id && counts_as_fixture f.status) ≡ true =
          ground (arith, h, e, e') in
        let key : k ≡ pair_key x y = ground (arith, h, e, e', counts) in
        let two =
          same_pair a b x y
            (sym (ap (λ j. j.0 == (pair_key a b).0 && j.1 == (pair_key a b).1) key) ∙ same) in
        (
          ground (arith, counts),
          (λ c. ground (arith, counts, c)),
          (λ c. ground (arith, counts, c)),
          ground (arith, two, e, e'),
        )
  ]
]

has_key-Covered :
    (a b : ℕ) (fs : List Fixture)
    → has_key (pair_key a b) (existing_pairs fs) ≡ true
    → Covered fs a b
unfolding existing_pairs has_key
has_key-Covered a b [] h = let no_fixture : ⊥ = ground (arith, h) in elim no_fixture [ ]
has_key-Covered a b (f ∷ fs) h = elim (Option-cases (fixture_key f)) [
  | inl e ↦ inr (has_key-Covered a b fs (ground (arith, h, e)))
  | inr (k, e) ↦ elim (Bool-cases (k.0 == (pair_key a b).0 && k.1 == (pair_key a b).1)) [
    | inl same ↦ inl (fixture_key-Pairs a b f k e same)
    | inr other ↦ inr (has_key-Covered a b fs (ground (arith, h, e, other)))
  ]
]

EachPair-map :
    (R Q : ℕ → ℕ → Type 0) (as' : List ℕ)
    → ((a b : ℕ) → R a b → Q a b)
    → EachPair R as'
    → EachPair Q as'
EachPair-map R Q [] f h = tt
EachPair-map R Q (a ∷ as') f h =
    (EachWith-map (R a) (Q a) as' (f a) h.0, EachPair-map R Q as' f h.1)

-- A run of the generator that goes through leaves every two participants with a fixture of the two,
-- in either order, that is in no group and neither cancelled nor a bye, and a second run then changes
-- nothing and reports that it created none.
pub generate_round_robin_fixtures-Covered :
    (e e' : Event) (org : Option ℕ) (created existing : ℕ)
    → generate_round_robin_fixtures (some e) org ≡ ok (e', created, existing)
    → EachPair (Covered e'.fixtures) (pids_of e)
      × (generate_round_robin_fixtures (some e') org
          ≡ ok (e', 0, length (existing_pairs e'.fixtures)))
generate_round_robin_fixtures-Covered e e' org created existing h =
    let covered =
      EachPair-map (Keyed (after_run e).fixtures) (Covered (after_run e).fixtures) (pids_of e)
        (λ a b. has_key-Covered a b (after_run e).fixtures) (run_covers e) in
    subst
      (λ d.
        EachPair (Covered d.fixtures) (pids_of e)
        × (generate_round_robin_fixtures (some d) org
            ≡ ok (d, 0, length (existing_pairs d.fixtures))))
      (sym (run_result e e' org created existing h))
      (covered, run_again e e' org created existing h)
