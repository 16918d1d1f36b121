-- ===== src/Draw/Fixtures/Generate.antt =====
-- `GenerateRoundRobinFixtures` of internal/draw/manual_setup.go.
pub mod Cover
mod Tests
use tourney_api.Prelude.{
  ℕ, suc, ◌+◌, Bool, true, false, not, ◌&&◌, ◌||◌, Option, none, some, List, [], ◌∷◌, map, ltb, leb,
  ◌==◌, if◌then◌else◌, length,
}
use tourney_api.Draw.Fixtures.{
  Participant, Fixture, Event, ok, Result, bad_request, unsupported_form, ◌>>=◌, ◌>>◌, require,
  is_round_robin, authorize_event, is_ungrouped, counts_as_fixture, max_match_no, pending_fixture,
}

-- `ORDER BY seed NULLS LAST, id`.
before : Participant → Participant → Bool
before p q = elim p.seed [
  | some s ↦ elim q.seed [ some t ↦ ltb s t || (s == t && ltb p.id q.id) | none ↦ true ]
  | none ↦ elim q.seed [ some t ↦ false | none ↦ ltb p.id q.id ]
]

insert_participant : Participant → List Participant → List Participant
insert_participant p [] = p ∷ []
insert_participant p (q ∷ qs) = if before q p then q ∷ insert_participant p qs else p ∷ q ∷ qs

pub sort_participants : List Participant → List Participant
sort_participants [] = []
sort_participants (p ∷ ps) = insert_participant p (sort_participants ps)

-- The normalized pair, `lo` and `hi`.
abbrev pub PairKey : Type 0
PairKey = ℕ × ℕ

abbrev pub pair_key : ℕ → ℕ → PairKey
pair_key a b = if ltb b a then (b, a) else (a, b)

pub has_key : PairKey → List PairKey → Bool
has_key k [] = false
has_key k (j ∷ keys) = (j.0 == k.0 && j.1 == k.1) || has_key k keys

-- The pair that a fixture satisfies, if it counts.
pub fixture_key : Fixture → Option PairKey
fixture_key f = elim f.slot1 [
  | none ↦ none
  | some a ↦ elim f.slot2 [
    | none ↦ none
    | some b ↦
        if is_ungrouped f.group_id && counts_as_fixture f.status then some (pair_key a b) else none
  ]
]

-- The map `have`: each pair once.
pub existing_pairs : List Fixture → List PairKey
existing_pairs [] = []
existing_pairs (f ∷ fixtures) =
    let rest = existing_pairs fixtures in
    elim (fixture_key f) [ none ↦ rest | some k ↦ if has_key k rest then rest else k ∷ rest ]

-- The rows and counters that the loops change.
pub record Progress : Type 0 where
  pub fixtures : List Fixture
  pub next_id : ℕ
  pub next_no : ℕ
  pub created : ℕ

pub add_pair : List PairKey → ℕ → ℕ → Progress → Progress
add_pair have a b g = if has_key (pair_key a b) have then g else record {
  fixtures = pending_fixture g.next_id g.next_no a b ∷ g.fixtures;
  next_id = suc g.next_id;
  next_no = suc g.next_no;
  created = suc g.created;
}

-- The inner loop, `j` from `i + 1` on.
pub add_pairs_with : List PairKey → ℕ → List ℕ → Progress → Progress
add_pairs_with have a [] g = g
add_pairs_with have a (b ∷ rest) g = add_pairs_with have a rest (add_pair have a b g)

pub add_missing : List PairKey → List ℕ → Progress → Progress
add_missing have [] g = g
add_missing have (a ∷ pids) g = add_missing have pids (add_pairs_with have a pids g)

abbrev pub pids_of : Event → List ℕ
pids_of e = map (λ p. p.id) (sort_participants e.participants)

-- The loops over an event's rows.
pub generate : Event → Progress
generate e = add_missing (existing_pairs e.fixtures) (pids_of e) (record {
  fixtures = e.fixtures;
  next_id = e.next_id;
  next_no = max_match_no e.fixtures + 1;
  created = 0;
})

-- The event after the call, and how many fixtures it created and found.
pub generate_round_robin_fixtures : Option Event → Option ℕ → Result (Event × ℕ × ℕ)
generate_round_robin_fixtures event org = do
  e ← authorize_event event org
  require (is_round_robin e.format) unsupported_form
  require (leb 2 (length (pids_of e))) bad_request
  let g = generate e
  ok (
    record e { fixtures = g.fixtures; next_id = g.next_id },
    g.created,
    length (existing_pairs e.fixtures),
  )
