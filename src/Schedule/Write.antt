-- ===== src/Schedule/Write.antt =====
-- internal/schedule/repository.go: `WriteSlot` and `DeleteSlot`.
use tourney_api.Prelude.{
  true, ℕ, suc, Bool, false, not, ◌&&◌, Option, none, some, List, [], ◌∷◌, map, ltb, ◌==◌,
  if◌then◌else◌,
}
use tourney_api.Match.Scoring.{Status, pending, scheduled}
use tourney_api.Draw.Tables.{uuid_ptr_eq}
use tourney_api.Schedule.{
  CourtMatch, CourtSlot, Schedule, SlotEntry, Action, slot_create, slot_update, slot_delete, Reply,
  done, ◌>>=◌, ◌>>◌, check, the_row, state_conflict, bad_range, bad_reference, find_slot,
  find_court_match, find_court, find_tournament,
}
use tourney_api.Schedule.Conflicts.{
  SlotWrite, ranges_overlap, other_slot, some_of, validate_slot_write,
}

-- The rows that `schedule_slots_no_court_overlap` does not let stand beside a slot.
unfoldable pub excludes : CourtSlot → CourtSlot → Bool
excludes row s =
    s.court_id == row.court_id
    && (other_slot (some row.id) s
        && ranges_overlap row.starts_at row.ends_at s.starts_at s.ends_at)

abbrev pub is_there {ℓ} : {A : Type ℓ} → Option A → Bool
is_there none = false
is_there (some x) = true

-- No match is no reference.
unfoldable pub has_match_row : Schedule → Option ℕ → Bool
has_match_row db none = true
has_match_row db (some m) = is_there (find_court_match m db.matches)

unfoldable pub has_tournament : Schedule → Option ℕ → Bool
has_tournament db none = true
has_tournament db (some t) = is_there (find_tournament t db.tournaments)

-- The foreign keys of the columns that are written: the court, the match, and for a new row the
-- tournament.
unfoldable pub references : Schedule → Option ℕ → ℕ → Option ℕ → Bool
references db tournament court m =
    is_there (find_court court db.courts) && (has_match_row db m && has_tournament db tournament)

-- The constraints of `schedule_slots` on a row that is written, with `stateConflict`.
unfoldable pub constraints : Schedule → Option ℕ → CourtSlot → Reply (Unit {0})
constraints db tournament row = do
  check (ltb row.starts_at row.ends_at) bad_range
  check (not (some_of (excludes row) db.slots)) state_conflict
  check (references db tournament row.court_id row.match_id) bad_reference

unfoldable pub set_row : CourtSlot → List CourtSlot → List CourtSlot
set_row row = map (λ s. if s.id == row.id then row else s)

abbrev pub clear_status : Status → Status
clear_status scheduled = pending
clear_status s = s

abbrev pub stamp_status : Status → Status
stamp_status pending = scheduled
stamp_status s = s

unfoldable pub unstamp_row : ℕ → CourtMatch → CourtMatch
unstamp_row id m =
    if m.id == id
    then record m { status = clear_status m.status; scheduled_at = none; court_id = none }
    else m

abbrev pub unstamp_match : ℕ → List CourtMatch → List CourtMatch
unstamp_match id = map (unstamp_row id)

unfoldable pub stamp_row : ℕ → ℕ → ℕ → CourtMatch → CourtMatch
stamp_row id starts court m =
    if m.id == id
    then record m {
      status = stamp_status m.status;
      scheduled_at = some starts;
      court_id = some court;
    }
    else m

abbrev pub stamp_match : ℕ → ℕ → ℕ → List CourtMatch → List CourtMatch
stamp_match id starts court = map (stamp_row id starts court)

-- `prevMatch != nil && (w.matchID == nil || *prevMatch != *w.matchID)`.
unfoldable pub unstamp_previous : Option ℕ → Option ℕ → List CourtMatch → List CourtMatch
unstamp_previous none next matches = matches
unstamp_previous (some prev) next matches =
    if uuid_ptr_eq next (some prev) then matches else unstamp_match prev matches

unfoldable pub stamp_next : SlotWrite → List CourtMatch → List CourtMatch
stamp_next w matches = elim w.match_id [
  | none ↦ matches
  | some m ↦ stamp_match m w.starts_at w.court_id matches
]

abbrev pub written_row : ℕ → SlotWrite → CourtSlot
written_row id w = record {
  id = id;
  tournament_id = w.tournament_id;
  court_id = w.court_id;
  match_id = w.match_id;
  starts_at = w.starts_at;
  ends_at = w.ends_at;
}

abbrev pub slot_entry : SlotWrite → Action → ℕ → Option CourtSlot → CourtSlot → SlotEntry
slot_entry w action id before after = record {
  actor = w.actor;
  org_id = w.org_id;
  tournament_id = w.tournament_id;
  action = action;
  target = id;
  before = before;
  after = some after;
  rest_override = w.override_rest;
}

-- `slotID` nil: a new row, whose id the database draws.
unfoldable pub create_row : SlotWrite → Schedule → Reply (ℕ × Schedule)
create_row w db =
    let row = written_row db.next_id w in
    do
      validate_slot_write db w
      constraints db (some w.tournament_id) row
      done (
        db.next_id,
        record db {
          slots = row ∷ db.slots;
          matches = stamp_next w db.matches;
          next_id = suc db.next_id;
          audit = slot_entry w slot_create db.next_id none row ∷ db.audit;
        },
      )

-- The update leaves the tournament of the row.
unfoldable pub update_row : ℕ → SlotWrite → Schedule → Reply (ℕ × Schedule)
update_row id w db = do
  prev ← the_row (find_slot id db.slots)
  validate_slot_write db w
  let row = record (written_row id w) { tournament_id = prev.tournament_id }
  constraints db none row
  done (
    id,
    record db {
      slots = set_row row db.slots;
      matches = stamp_next w (unstamp_previous prev.match_id w.match_id db.matches);
      audit = slot_entry w slot_update id (some prev) row ∷ db.audit;
    },
  )

-- `WriteSlot`, with the id that `getSlot` then reads.
unfoldable pub write_slot : SlotWrite → Schedule → Reply (ℕ × Schedule)
write_slot w db = elim w.slot_id [ none ↦ create_row w db | some id ↦ update_row id w db ]

unfoldable pub remove_slot : ℕ → List CourtSlot → List CourtSlot
remove_slot id [] = []
remove_slot id (s ∷ slots) =
    let rest = remove_slot id slots in if s.id == id then rest else s ∷ rest

-- `NOT EXISTS (SELECT 1 FROM schedule_slots WHERE match_id = $1)`.
unfoldable pub is_referenced : ℕ → List CourtSlot → Bool
is_referenced m slots = some_of (λ s. uuid_ptr_eq s.match_id (some m)) slots

unfoldable pub unstamp_removed : Option ℕ → List CourtSlot → List CourtMatch → List CourtMatch
unstamp_removed none slots matches = matches
unstamp_removed (some m) slots matches =
    if is_referenced m slots then matches else unstamp_match m matches

-- `DeleteSlot`, with the tournament of the slot.
unfoldable pub delete_slot : ℕ → ℕ → ℕ → Schedule → Reply (ℕ × Schedule)
delete_slot id actor org db = do
  prev ← the_row (find_slot id db.slots)
  let slots = remove_slot id db.slots
  let entry : SlotEntry = record {
    actor = actor;
    org_id = org;
    tournament_id = prev.tournament_id;
    action = slot_delete;
    target = id;
    before = some prev;
    after = none;
    rest_override = false;
  }
  done (
    prev.tournament_id,
    record db {
      slots = slots;
      matches = unstamp_removed prev.match_id slots db.matches;
      audit = entry ∷ db.audit;
    },
  )
