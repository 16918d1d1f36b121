-- ===== src/Draw/Fixtures.antt =====
-- internal/draw/manual_setup.go: fixtures of a round-robin event that an organizer builds by hand.
-- One event is a record with its rows; the advisory lock makes each call a step of its own, and a
-- call that returns an error has rolled back. A uuid is a number, ordered as the database and its
-- text form order it.
pub mod Duplicates
pub mod Generate
use tourney_api.Prelude.{
  ℕ, suc, ◌+◌, ◌*◌, Bool, true, false, not, ◌&&◌, ◌||◌, Option, none, some, List, [], ◌∷◌, ◌++◌,
  map, ltb, ◌==◌, if◌then◌else◌, length,
}
use tourney_api.Match.Scoring.{Status, pending, scheduled, live, completed, bye}

pub data Format : Type 0 where
  single_elim round_robin group_knockout : Format

pub record Participant : Type 0 where
  pub id : ℕ
  pub seed : Option ℕ

-- A row of `matches` with its two rows of `match_participants`.
pub record Fixture : Type 0 where
  pub id : ℕ
  pub match_no : ℕ
  pub status : Status
  pub group_id : Option ℕ
  pub slot1 : Option ℕ
  pub slot2 : Option ℕ

-- The audit entry of a rematch: who, the new fixture, and the decided one that it re-runs.
pub record RematchEntry : Type 0 where
  pub actor : ℕ
  pub target : ℕ
  pub prior_match_id : ℕ
  pub prior_match_no : ℕ
  pub prior_status : Status

pub record Event : Type 0 where
  pub org_id : ℕ
  pub format : Format
  pub participants : List Participant
  pub fixtures : List Fixture
  pub next_id : ℕ
  pub audit : List RematchEntry

pub record DuplicateFixture : Type 0 where
  pub match_id : ℕ
  pub match_no : ℕ
  pub status : Status
  pub rematchable : Bool

pub data DrawError : Type 0 where
  not_found forbidden unsupported_form bad_request not_enough invalid_pairs : DrawError
  duplicate_fixture : DuplicateFixture → DrawError

-- What a call returns: an error and no change, or a value.
pub data Result {ℓ} (A : Type ℓ) : Type ℓ where
  err : DrawError → Result A
  ok : A → Result A

abbrev pub require : Bool → DrawError → Result (Unit {0})
require holds e = if holds then ok tt else err e

infixl 5 ◌>>=◌ ◌>>◌
abbrev pub ◌>>◌ {κ} : {B : Type κ} → Result (Unit {0}) → Result B → Result B
err e >> rest = err e
ok done >> rest = rest

abbrev pub ◌>>=◌ {ℓ κ} : {A : Type ℓ} {B : Type κ} → Result A → (A → Result B) → Result B
err e >>= rest = err e
ok value >>= rest = rest value

abbrev pub is_round_robin : Format → Bool
is_round_robin round_robin = true
is_round_robin _ = false

-- `orgID` is nil for a super admin.
abbrev pub may_act : Option ℕ → ℕ → Bool
may_act none owner = true
may_act (some org) owner = owner == org

pub authorize_event : Option Event → Option ℕ → Result Event
authorize_event none org = err not_found
authorize_event (some e) org = if may_act org e.org_id then ok e else err forbidden

abbrev pub is_unplayed : Status → Bool
is_unplayed pending = true
is_unplayed scheduled = true
is_unplayed live = true
is_unplayed _ = false

abbrev pub is_decided : Status → Bool
is_decided completed = true
is_decided Status.walkover = true
is_decided Status.retired = true
is_decided _ = false

-- The loop of `classifyDuplicate`; `decided` is the first decided row so far.
pub classify_rows : List Fixture → Option Fixture → Option Fixture × Option Fixture
classify_rows [] decided = (none, decided)
classify_rows (r ∷ rows) decided = elim (is_unplayed r.status) [
  | true ↦ (some r, decided)
  | false ↦
      classify_rows rows
        (elim decided [ some d ↦ some d | none ↦ if is_decided r.status then some r else none ])
]

abbrev pub duplicate_of : Bool → Fixture → DuplicateFixture
duplicate_of rematchable r = record {
  match_id = r.id;
  match_no = r.match_no;
  status = r.status;
  rematchable = rematchable;
}

-- The error of a create, if any, and whether it is a rematch.
pub classify_duplicate : List Fixture → Bool → Option DuplicateFixture × Bool
unfolding classify_rows
classify_duplicate rows allow_rematch =
    let (unplayed, decided) = classify_rows rows none in
    elim unplayed [
      | some r ↦ (some (duplicate_of false r), false)
      | none ↦ elim decided [
        | none ↦ (none, false)
        | some d ↦ if allow_rematch then (none, true) else (some (duplicate_of true d), false)
      ]
    ]

-- SQL's `least` and `greatest`, which pass over NULL.
pub least : Option ℕ → Option ℕ → Option ℕ
least none b = b
least (some a) none = some a
least (some a) (some b) = some (if ltb b a then b else a)

pub greatest : Option ℕ → Option ℕ → Option ℕ
greatest none b = b
greatest (some a) none = some a
greatest (some a) (some b) = some (if ltb a b then b else a)

abbrev pub same_id : Option ℕ → ℕ → Bool
same_id none n = false
same_id (some m) n = m == n

abbrev pub is_ungrouped : Option ℕ → Bool
is_ungrouped none = true
is_ungrouped (some g) = false

abbrev pub counts_as_fixture : Status → Bool
counts_as_fixture Status.cancelled = false
counts_as_fixture bye = false
counts_as_fixture _ = true

-- The `WHERE` of `findDuplicates`.
pub is_duplicate : ℕ → ℕ → Fixture → Bool
unfolding least greatest
is_duplicate a b f =
    is_ungrouped f.group_id
    && (counts_as_fixture f.status
        && (same_id (least f.slot1 f.slot2) (if ltb b a then b else a)
            && same_id (greatest f.slot1 f.slot2) (if ltb a b then b else a)))

-- `ORDER BY m.match_no DESC`.
pub insert_newest : Fixture → List Fixture → List Fixture
insert_newest f [] = f ∷ []
insert_newest f (x ∷ xs) = if ltb f.match_no x.match_no then x ∷ insert_newest f xs else f ∷ x ∷ xs

pub find_duplicates : ℕ → ℕ → List Fixture → List Fixture
find_duplicates a b [] = []
find_duplicates a b (f ∷ fixtures) =
    let rest = find_duplicates a b fixtures in
    if is_duplicate a b f then insert_newest f rest else rest

pub max_match_no : List Fixture → ℕ
max_match_no [] = 0
max_match_no (f ∷ fixtures) =
    let m = max_match_no fixtures in if ltb m f.match_no then f.match_no else m

pub valid_participant : List Participant → ℕ → Bool
valid_participant [] id = false
valid_participant (p ∷ ps) id = p.id == id || valid_participant ps id

abbrev pub pending_fixture : ℕ → ℕ → ℕ → ℕ → Fixture
pending_fixture id match_no a b = record {
  id = id;
  match_no = match_no;
  status = pending;
  group_id = none;
  slot1 = some a;
  slot2 = some b;
}

-- `INSERT INTO matches` and its two participants.
pub insert_fixture : ℕ → ℕ → ℕ → Event → Event
insert_fixture match_no a b e = record e {
  fixtures = pending_fixture e.next_id match_no a b ∷ e.fixtures;
  next_id = suc e.next_id;
}

-- `dups[0]`; the list is not empty where it is a rematch.
pub record_rematch : ℕ → ℕ → List Fixture → Event → Event
record_rematch actor target [] e = e
record_rematch actor target (prior ∷ dups) e = record e {
  audit =
      record {
        actor = actor;
        target = target;
        prior_match_id = prior.id;
        prior_match_no = prior.match_no;
        prior_status = prior.status;
      }
      ∷ e.audit;
}

abbrev pub refuse_duplicate : Option DuplicateFixture → Result (Unit {0})
refuse_duplicate none = ok tt
refuse_duplicate (some d) = err (duplicate_fixture d)

-- The event after the call, the new fixture's id and its number.
pub add_manual_match : Option Event → Option ℕ → ℕ → ℕ → ℕ → Bool → Result (Event × ℕ × ℕ)
add_manual_match event org actor a b allow_rematch = do
  e ← authorize_event event org
  require (is_round_robin e.format) unsupported_form
  require (not (a == b)) bad_request
  require (valid_participant e.participants a && valid_participant e.participants b) bad_request
  let dups = find_duplicates a b e.fixtures
  let verdict = classify_duplicate dups allow_rematch
  refuse_duplicate verdict.0
  let next_no = max_match_no e.fixtures + 1
  let e' = insert_fixture next_no a b e
  ok (if verdict.1 then record_rematch actor e.next_id dups e' else e', e.next_id, next_no)

pub find_fixture : ℕ → List Fixture → Option Fixture
find_fixture id [] = none
find_fixture id (f ∷ fixtures) = if f.id == id then some f else find_fixture id fixtures

pub delete_fixture : ℕ → List Fixture → List Fixture
delete_fixture id [] = []
delete_fixture id (f ∷ fixtures) =
    let rest = delete_fixture id fixtures in if f.id == id then rest else f ∷ rest

abbrev pub is_pending : Status → Bool
is_pending pending = true
is_pending _ = false

-- The match is looked up among the fixtures of its event.
pub delete_manual_match : Event → ℕ → Option ℕ → Result Event
delete_manual_match e id org = elim (find_fixture id e.fixtures) [
  | none ↦ err not_found
  | some f ↦ do
    require (may_act org e.org_id) forbidden
    require (is_round_robin e.format) unsupported_form
    require (is_pending f.status) bad_request
    ok (record e { fixtures = delete_fixture id e.fixtures })
]
