-- ===== src/Draw/Fixtures/Duplicates.antt =====
-- When `AddManualMatch` lets a pairing through.
use tourney_api.Prelude.{
  ℕ, ◌+◌, ◌<◌, ◌≤◌, ◌≡◌, ◌≢◌, refl, inl, inr, Bool, true, false, Option, none, some, List, [], ◌∷◌,
  arith, ltb, if◌then◌else◌, Bool-cases,
}
use tourney_api.Match.Scoring.{Status}
use tourney_api.Draw.Fixtures.{
  Fixture, Event, DuplicateFixture, ok, authorize_event, is_unplayed, is_decided, classify_rows,
  duplicate_of, classify_duplicate, least, greatest, is_ungrouped, is_duplicate, insert_newest,
  find_duplicates, max_match_no, insert_fixture, record_rematch, pending_fixture, add_manual_match,
}

abbrev pub find_row : (Status → Bool) → List Fixture → Option Fixture
find_row p [] = none
find_row p (r ∷ rows) = if p r.status then some r else find_row p rows

abbrev pub or_else {ℓ} : {A : Type ℓ} → Option A → Option A → Option A
or_else (some a) b = some a
or_else none b = b

-- The decided rows that the loop reads are those before the first unplayed one, if there is one.
classify_rows_lem :
    (rows : List Fixture) (d : Option Fixture)
    → ((classify_rows rows d).0 ≡ find_row is_unplayed rows)
      × (find_row is_unplayed rows ≡ none
          → (classify_rows rows d).1 ≡ or_else d (find_row is_decided rows))
unfolding classify_rows
classify_rows_lem [] none = (refl, λ e. refl)
classify_rows_lem [] (some d) = (refl, λ e. refl)
classify_rows_lem (r ∷ rows) none =
    ground (arith, classify_rows_lem rows none, classify_rows_lem rows (some r))
classify_rows_lem (r ∷ rows) (some d) = ground (arith, classify_rows_lem rows (some d))

-- The three verdicts on a pairing, by the first unplayed and the first decided fixture it has.
abbrev pub verdict_on : Option Fixture → Option Fixture → Bool → Option DuplicateFixture × Bool
verdict_on (some r) d allow = (some (duplicate_of false r), false)
verdict_on none none allow = (none, false)
verdict_on none (some d) true = (none, true)
verdict_on none (some d) false = (some (duplicate_of true d), false)

-- `classifyDuplicate` blocks a pairing for good by its first unplayed fixture, wherever that
-- stands; without one a decided fixture makes the create a rematch if that is allowed, and
-- otherwise an error that a rematch would lift; without either the create goes through.
pub classify_duplicate_lem :
    (rows : List Fixture) (allow : Bool)
    → classify_duplicate rows allow
      ≡ verdict_on (find_row is_unplayed rows) (find_row is_decided rows) allow
unfolding classify_duplicate
classify_duplicate_lem rows allow = ground (arith, classify_rows_lem rows none)

abbrev pub All : (Fixture → Type 0) → List Fixture → Type 0
All P [] = Unit
All P (f ∷ fs) = P f × All P fs

-- Two unplayed ungrouped fixtures for one unordered pair.
abbrev pub Clash : Fixture → Fixture → Type 0
Clash f g =
    (is_ungrouped f.group_id ≡ true)
    × (is_ungrouped g.group_id ≡ true)
    × (is_unplayed f.status ≡ true)
    × (is_unplayed g.status ≡ true)
    × (least f.slot1 f.slot2 ≡ least g.slot1 g.slot2)
    × (greatest f.slot1 f.slot2 ≡ greatest g.slot1 g.slot2)

-- No pair has two unplayed fixtures.
abbrev pub NoClash : List Fixture → Type 0
NoClash [] = Unit
NoClash (f ∷ fs) = All (λ g. ¬ Clash f g) fs × NoClash fs

insert_newest-All :
    (P : Fixture → Type 0) (f : Fixture) (fs : List Fixture)
    → All P (insert_newest f fs)
    → P f × All P fs
unfolding insert_newest
insert_newest-All P f [] h = h
insert_newest-All P f (x ∷ xs) h = elim (Bool-cases (ltb f.match_no x.match_no)) [
  | inl later ↦
      let h' = rw later at h in let (a, b) = insert_newest-All P f xs h'.1 in (a, (h'.0, b))
  | inr first ↦ rw first at h
]

find_duplicates-All :
    (P : Fixture → Type 0) (a b : ℕ) (fs : List Fixture)
    → All P (find_duplicates a b fs)
    → All (λ f. is_duplicate a b f ≡ true → P f) fs
unfolding find_duplicates
find_duplicates-All P a b [] h = tt
find_duplicates-All P a b (f ∷ fs) h = elim (Bool-cases (is_duplicate a b f)) [
  | inl dup ↦
      let (x, y) = insert_newest-All P f (find_duplicates a b fs) (rw dup at h) in
      (λ e. x, find_duplicates-All P a b fs y)
  | inr other ↦ (λ e. cc, find_duplicates-All P a b fs (rw other at h))
]

find_row-none :
    (rows : List Fixture)
    → find_row is_unplayed rows ≡ none
    → All (λ f. is_unplayed f.status ≡ false) rows
find_row-none [] e = tt
find_row-none (r ∷ rows) e = (ground arith, find_row-none rows (ground arith))

Clash-is_duplicate :
    (id n a b : ℕ) (g : Fixture) → Clash (pending_fixture id n a b) g → is_duplicate a b g ≡ true
unfolding is_duplicate
Clash-is_duplicate id n a b g h = ground arith

fixtures-record_rematch :
    (actor target : ℕ) (dups : List Fixture) (e : Event)
    → (record_rematch actor target dups e).fixtures ≡ e.fixtures
unfolding record_rematch
fixtures-record_rematch actor target [] e = refl
fixtures-record_rematch actor target (d ∷ dups) e = refl

-- What a create that goes through has passed, and has written.
added :
    (e e' : Event) (org : Option ℕ) (actor a b id n : ℕ) (allow : Bool)
    → add_manual_match (some e) org actor a b allow ≡ ok (e', id, n)
    → (a ≢ b)
      × ((classify_duplicate (find_duplicates a b e.fixtures) allow).0 ≡ none)
      × (n ≡ max_match_no e.fixtures + 1)
      × (e'.fixtures ≡ pending_fixture e.next_id n a b ∷ e.fixtures)
unfolding add_manual_match authorize_event insert_fixture
added e e' org actor a b id n allow h = ground (
  arith,
  fixtures-record_rematch actor e.next_id (find_duplicates a b e.fixtures)
      (insert_fixture (max_match_no e.fixtures + 1) a b e),
)

let_through :
    (rows : List Fixture) (allow : Bool)
    → (classify_duplicate rows allow).0 ≡ none
    → find_row is_unplayed rows ≡ none
let_through rows allow h = ground (arith, classify_duplicate_lem rows allow)

pending_fixture-NoClash :
    (n id a b : ℕ) (fs : List Fixture)
    → All (λ f. is_duplicate a b f ≡ true → is_unplayed f.status ≡ false) fs
    → All (λ g. ¬ Clash (pending_fixture id n a b) g) fs
pending_fixture-NoClash n id a b [] h = tt
pending_fixture-NoClash n id a b (f ∷ fs) h =
    (λ c. cc (h.0 (Clash-is_duplicate id n a b f c)), pending_fixture-NoClash n id a b fs h.1)

below_max : (fs : List Fixture) (m : ℕ) → max_match_no fs ≤ m → All (λ f. f.match_no < m + 1) fs
unfolding max_match_no
below_max [] m h = tt
below_max (f ∷ fs) m h = (ground arith, below_max fs m (ground arith))

-- A create that goes through adds one pending fixture for the pair, numbered above every other
-- fixture of the event, and leaves no two unplayed fixtures for one unordered pair, if there were
-- none before; a rematch included.
pub add_manual_match-NoClash :
    (e e' : Event) (org : Option ℕ) (actor a b id n : ℕ) (allow_rematch : Bool)
    → add_manual_match (some e) org actor a b allow_rematch ≡ ok (e', id, n)
    → NoClash e.fixtures
    → (e'.fixtures ≡ pending_fixture e.next_id n a b ∷ e.fixtures)
      × All (λ f. f.match_no < n) e.fixtures
      × NoClash e'.fixtures
add_manual_match-NoClash e e' org actor a b id n allow h clear =
    let (ne, open_pair, number, rows) = added e e' org actor a b id n allow h in
    let dups = find_duplicates a b e.fixtures in
    let quiet =
      find_duplicates-All (λ f. is_unplayed f.status ≡ false) a b e.fixtures
        (find_row-none dups (let_through dups allow open_pair)) in
    (
      rows,
      rw number (below_max e.fixtures (max_match_no e.fixtures) (omega arith)),
      rw rows (pending_fixture-NoClash n e.next_id a b e.fixtures quiet, clear),
    )
