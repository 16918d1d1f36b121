-- ===== src/Draw/Build.antt =====
-- internal/draw/service.go: `Build` and `persistWithGroups`, which store a draw in place of the
-- event's rows. The ids that the database draws are the next ones. `default_name` is the name of a
-- group that has none, "Group A" and so on.

pub mod Cleared
pub mod Wired
pub mod Waits
pub mod Named
pub mod Fed
pub mod Kept
mod Tests
use tourney_api.Prelude.{
  ℕ, zero, suc, ◌+◌, Bool, true, false, not, ◌&&◌, ◌||◌, Option, none, some, List, [], ◌∷◌, ◌++◌,
  map, ltb, ◌==◌, if◌then◌else◌, length, get_or, String,
}
use Prim.Native.String
use mathlib.Core.Option
use tourney_api.Match.Scoring.{Status, pending, bye}
use tourney_api.Draw.{Slot, Match}
use tourney_api.Draw.Bracket.{Pair, generate_from_pairs}
use tourney_api.Draw.Pairs.{validate_pairs}
use tourney_api.Draw.Fixtures.{
  Format, single_elim, Result, ok, err, DrawError, not_found, forbidden, unsupported_form,
  not_enough, bad_request, require, ◌>>=◌, ◌>>◌, may_act,
}
use tourney_api.Draw.Tables.{
  MatchRow, SlotRow, GroupRow, PlayerRow, EventRow, Tables, StageKind, group, knockout, Source,
  fixed, empty, match_winner, group_placement, find_match, find_event,
}
use tourney_api.Draw.Tables

abbrev pub is_empty_text : String → Bool
is_empty_text String.[] = true
is_empty_text (String.◌∷◌ c text) = false

-- One more than the highest group index, 0 where no match is of a group.
unfoldable pub group_count : List Match → ℕ
group_count [] = 0
group_count (m ∷ matches) =
    let rest = group_count matches in
    elim m.group_index [ none ↦ rest | some g ↦ if ltb rest (suc g) then suc g else rest ]

unfoldable pub keep_rows {ℓ} : {A : Type ℓ} → (A → Bool) → List A → List A
keep_rows p [] = []
keep_rows p (x ∷ xs) = let rest = keep_rows p xs in if p x then x ∷ rest else rest

abbrev pub is_of_event : ℕ → List MatchRow → SlotRow → Bool
is_of_event event matches s = elim (find_match s.match_id matches) [
  | none ↦ false
  | some m ↦ m.event_id == event
]

-- `DELETE FROM matches` and `DELETE FROM stages` of the event, with the slots and the groups that
-- go with them.
unfoldable pub clear_draw : ℕ → Tables → Tables
clear_draw event db = record db {
  matches = keep_rows (λ m. not (m.event_id == event)) db.matches;
  slots = keep_rows (λ s. not (is_of_event event db.matches s)) db.slots;
  groups = keep_rows (λ g. not (g.event_id == event)) db.groups;
}

abbrev pub name_or : String → String → String
name_or given default = if is_empty_text given then default else given

abbrev pub advance_or_two : ℕ → ℕ
advance_or_two given = if ltb 0 given then given else 2

-- The groups from index `g` on, `n` of them.
unfoldable pub new_groups : (ℕ → String) → List String → List ℕ → ℕ → ℕ → ℕ → ℕ → List GroupRow
new_groups default_name names advance event id g zero = []
new_groups default_name names advance event id g (suc n) =
    record {
      id = id;
      event_id = event;
      name = name_or (get_or names g "") (default_name g);
      advance_count = advance_or_two (get_or advance g 0);
    }
    ∷ new_groups default_name names advance event (suc id) (suc g) n

-- `groupIDs`.
unfoldable pub group_id_of : ℕ → ℕ → ℕ → Option ℕ
group_id_of first count g = if ltb g count then some (first + g) else none

abbrev pub stage_of : ℕ → Option ℕ → Option StageKind
stage_of zero g = none
stage_of (suc count) none = some knockout
stage_of (suc count) (some g) = some group

-- Pass 1, from index `i` on; `base` is the id of match 0.
unfoldable pub new_matches : ℕ → ℕ → ℕ → ℕ → ℕ → List Match → List MatchRow
new_matches event first count base i [] = []
new_matches event first count base i (m ∷ matches) =
    record {
      id = base + i;
      event_id = event;
      match_no = i + 1;
      stage = stage_of count m.group_index;
      group_id = elim m.group_index [ none ↦ none | some g ↦ group_id_of first count g ];
      status = if m.slot1.is_bye || m.slot2.is_bye then Status.bye else pending;
      winner_participant_id = none;
      next_match_id = elim m.next_match_idx [ none ↦ none | some j ↦ some (base + j) ];
      next_slot = elim m.next_match_idx [ none ↦ none | some j ↦ some m.next_slot ];
      started_at = none;
      completed_at = none;
      sets = [];
    }
    ∷ new_matches event first count base (suc i) matches

-- The source that `insertSlot` gives a slot; a group that is not there is an error.
unfoldable pub source_of : (ℕ → Option ℕ) → Slot → Option Source
source_of group_ids s = elim s.participant_id [
  | some p ↦ some fixed
  | none ↦
      if s.is_bye
      then some Source.bye
      else (if is_empty_text s.source_label
          then some empty
          else elim (group_ids s.source_group_idx) [
            | none ↦ none
            | some g ↦ some (group_placement g s.source_rank)
          ])
]

unfoldable pub insert_slot_row : (ℕ → Option ℕ) → ℕ → ℕ → Slot → Option SlotRow
insert_slot_row group_ids match slot s = elim (source_of group_ids s) [
  | none ↦ none
  | some source ↦ some (record {
    match_id = match;
    slot = slot;
    participant_id = s.participant_id;
    source = source;
    label = s.source_label;
  })
]

abbrev pub two_more :
    Option SlotRow → Option SlotRow → Option (List SlotRow) → Option (List SlotRow)
two_more (some s) (some t) (some rows) = some (s ∷ t ∷ rows)
two_more _ _ _ = none

-- Pass 2, from index `i` on.
unfoldable pub new_slots : (ℕ → Option ℕ) → ℕ → ℕ → List Match → Option (List SlotRow)
new_slots group_ids base i [] = some []
new_slots group_ids base i (m ∷ matches) =
    two_more (insert_slot_row group_ids (base + i) 1 m.slot1)
      (insert_slot_row group_ids (base + i) 2 m.slot2) (new_slots group_ids base (suc i) matches)

abbrev pub is_waiting : Source → Bool
is_waiting empty = true
is_waiting _ = false

unfoldable pub type_slot : ℕ → ℕ → ℕ → SlotRow → SlotRow
type_slot id next slot s =
    if s.match_id == next && (s.slot == slot && is_waiting s.source)
    then record s { source = match_winner id }
    else s

abbrev pub type_next : ℕ → ℕ → Option ℕ → ℕ → List SlotRow → List SlotRow
type_next base i none slot rows = rows
type_next base i (some j) slot rows = map (type_slot (base + i) (base + j) slot) rows

-- Pass 3, from index `i` on. The ids are new, so that only new slots can be meant.
unfoldable pub type_feeds : ℕ → ℕ → List Match → List SlotRow → List SlotRow
type_feeds base i [] rows = rows
type_feeds base i (m ∷ matches) rows =
    type_feeds base (suc i) matches (type_next base i m.next_match_idx m.next_slot rows)

-- A failed `persistWithGroups` is an error of the server, which no checked request leads to.
abbrev pub stored : ℕ → Option Tables → Result (Tables × ℕ)
stored n none = err bad_request
stored n (some db) = ok (db, n)

unfoldable pub set_manual : ℕ → Tables → Tables
set_manual event db = record db {
  events = map (λ e. if e.id == event then record e { manual_pairing = true } else e) db.events;
}

unfoldable pub is_entrant : ℕ → List PlayerRow → ℕ → Bool
is_entrant event [] id = false
is_entrant event (p ∷ players) id =
    (p.event_id == event && p.id == id) || is_entrant event players id

abbrev pub is_single_elim : Format → Bool
is_single_elim single_elim = true
is_single_elim _ = false

module _ (default_name : ℕ → String) where
  -- Nothing where a slot names a group that is not there: the transaction is rolled back.
  unfoldable pub persist_with_groups :
      ℕ → List Match → List String → List ℕ → Tables → Option Tables
  persist_with_groups event matches names advance db =
      let cleared = clear_draw event db in
      let count = group_count matches in
      let first = db.next_id in
      let base = first + count in
      elim (new_slots (group_id_of first count) base 0 matches) [
        | none ↦ none
        | some rows ↦ some (record cleared {
          groups = cleared.groups ++ new_groups default_name names advance event first 0 count;
          matches = cleared.matches ++ new_matches event first count base 0 matches;
          slots = cleared.slots ++ type_feeds base 0 matches rows;
          next_id = base + length matches;
        })
      ]

  unfoldable pub store_bracket : ℕ → List Match → Tables → Result (Tables × ℕ)
  store_bracket event [] db = err not_enough
  store_bracket event (m ∷ matches) db =
      stored (length (m ∷ matches))
        (Option.map (set_manual event) (persist_with_groups event (m ∷ matches) [] [] db))

  -- `Build`, with the number of matches.
  unfoldable pub build : ℕ → Option ℕ → List Pair → Tables → Result (Tables × ℕ)
  build event org pairs db = elim (find_event event db.events) [
    | none ↦ err not_found
    | some e ↦ do
      require (may_act org db.org_id) forbidden
      require (is_single_elim e.format) unsupported_form
      valid ← validate_pairs (is_entrant event db.players) pairs
      store_bracket event (generate_from_pairs valid) db
  ]
