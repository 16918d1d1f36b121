-- ===== src/Draw/Groups.antt =====
-- `ResolveGroups`, `MaybeResolveGroups` and `SetGroupAdvance` of internal/draw/service.go: the
-- finishers of the groups in the knockout.
pub mod Resolved
use tourney_api.Prelude.{
  ℕ, suc, Bool, true, false, not, ◌&&◌, ◌||◌, Option, none, some, List, [], ◌∷◌, map, ltb, ◌==◌,
  if◌then◌else◌,
}
use tourney_api.Match.Scoring.{Status, decided_status}
use tourney_api.Draw.Fixtures.{
  Result, ok, err, DrawError, not_found, forbidden, invalid_pairs, require, ◌>>=◌, ◌>>◌, may_act,
}
use tourney_api.Draw.Tables.{
  MatchRow, SlotRow, GroupRow, Tables, StageKind, group, knockout, Source, group_placement,
  find_match, find_event,
}
use tourney_api.Draw.Standings.{group_standings}
use tourney_api.Draw.Rebuild.{placed}

abbrev pub is_knockout : Option StageKind → Bool
is_knockout (some knockout) = true
is_knockout _ = false

abbrev pub is_group_stage : Option StageKind → Bool
is_group_stage (some group) = true
is_group_stage _ = false

-- The finisher that a knockout slot of the event waits for, if its group has that many.
pub finisher : ℕ → Tables → SlotRow → Option ℕ
finisher event db s = elim s.source [
  | group_placement g rank ↦ elim (find_match s.match_id db.matches) [
    | none ↦ none
    | some m ↦
        if m.event_id == event && is_knockout m.stage
        then placed rank (group_standings g db)
        else none
  ]
  | _ ↦ none
]

pub fill_slot : ℕ → Tables → SlotRow → SlotRow
fill_slot event db s = elim (finisher event db s) [
  | none ↦ s
  | some p ↦ record s { participant_id = some p }
]

pub count_filled : ℕ → Tables → List SlotRow → ℕ
count_filled event db [] = 0
count_filled event db (s ∷ slots) =
    let rest = count_filled event db slots in
    elim (finisher event db s) [ none ↦ rest | some p ↦ suc rest ]

-- The rows after the call, and how many slots it filled.
pub resolve_groups : ℕ → Option ℕ → Tables → Result (Tables × ℕ)
resolve_groups event org db = elim (find_event event db.events) [
  | none ↦ err not_found
  | some e ↦ do
    require (may_act org db.org_id) forbidden
    ok (record db { slots = map (fill_slot event db) db.slots }, count_filled event db db.slots)
]

pub remaining_in_stage : ℕ → List MatchRow → ℕ
remaining_in_stage event [] = 0
remaining_in_stage event (m ∷ matches) =
    let rest = remaining_in_stage event matches in
    if m.event_id == event && (is_group_stage m.stage && not (decided_status m.status))
    then suc rest
    else rest

abbrev pub resolved_or : Tables → Result (Tables × ℕ) → Tables × Bool
resolved_or db (ok r) = (r.0, true)
resolved_or db (err e) = (db, false)

-- The rows after the call, and whether it resolved the groups.
pub maybe_resolve_groups : ℕ → Tables → Tables × Bool
maybe_resolve_groups id db = elim (find_match id db.matches) [
  | none ↦ (db, false)
  | some m ↦ elim m.group_id [
    | none ↦ (db, false)
    | some g ↦
        if ltb 0 (remaining_in_stage m.event_id db.matches)
        then (db, false)
        else resolved_or db (resolve_groups m.event_id none db)
  ]
]

pub find_group : ℕ → List GroupRow → Option GroupRow
find_group id [] = none
find_group id (g ∷ groups) = if g.id == id then some g else find_group id groups

-- The rows after the call, the event and the new count.
pub set_group_advance : ℕ → Option ℕ → ℕ → Tables → Result (Tables × ℕ × ℕ)
set_group_advance id org advance db = do
  require (ltb 0 advance) invalid_pairs
  elim (find_group id db.groups) [
    | none ↦ err not_found
    | some g ↦ do
      require (may_act org db.org_id) forbidden
      ok (
        record db {
          groups =
              map (λ r. if r.id == id then record r { advance_count = advance } else r) db.groups;
        },
        g.event_id,
        advance,
      )
  ]
