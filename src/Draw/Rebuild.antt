-- ===== src/Draw/Rebuild.antt =====
-- The two-phase rewrite of downstream slots that a score correction makes: `SaveScore` of
-- internal/match/repository.go for the slots that a match's winner feeds, and
-- `RebuildGroupPlacements` of internal/draw/service.go for those that a group's finishers fill.
mod Tests
pub mod Writes
pub mod Placements
use tourney_api.Prelude.{
  ℕ, suc, ◌+◌, ◌-◌, Bool, true, false, not, ◌&&◌, ◌||◌, Option, none, some, List, [], ◌∷◌, map,
  ◌==◌, if◌then◌else◌, get_elem?,
}
use mathlib.Core.Option
use tourney_api.Match.Scoring.{SetScore, Status, pending, scheduled}
use tourney_api.Draw.Tables.{
  MatchRow, SlotRow, Tables, Source, group_placement, find_match, uuid_ptr_eq,
}
use tourney_api.Draw.Standings.{Standing, group_standings}

pub record LockedSlot : Type 0 where
  pub match_id : ℕ
  pub match_no : ℕ
  pub slot : ℕ
  pub status : Status

pub data Rebuilt : Type 0 where
  refused : LockedSlot → List LockedSlot → Rebuilt
  rebuilt : ℕ → List SlotRow → Rebuilt

abbrev pub has_scores : List SetScore → Bool
has_scores [] = false
has_scores (s ∷ sets) = true

-- A bye is decided by construction and never started.
abbrev pub may_change : Status → Bool
may_change pending = true
may_change scheduled = true
may_change Status.bye = true
may_change _ = false

unfoldable pub is_started : MatchRow → Bool
is_started m = not (may_change m.status) || has_scores m.sets

abbrev pub locked_slot : MatchRow → SlotRow → LockedSlot
locked_slot m s = record {
  match_id = m.id;
  match_no = m.match_no;
  slot = s.slot;
  status = m.status;
}

-- `want` is what the slots that it names should hold; the others are not consumers.
module _ (matches : List MatchRow) (want : SlotRow → Option (Option ℕ)) where
  -- The match of a consumer whose value would change, and the value.
  unfoldable pub affected : SlotRow → Option (MatchRow × Option ℕ)
  affected s = elim (want s) [
    | none ↦ none
    | some p ↦ elim (find_match s.match_id matches) [
      | none ↦ none
      | some m ↦ if uuid_ptr_eq s.participant_id p then none else some (m, p)
    ]
  ]

  unfoldable pub locked_slots : List SlotRow → List LockedSlot
  locked_slots [] = []
  locked_slots (s ∷ slots) =
      let rest = locked_slots slots in
      elim (affected s) [
        | none ↦ rest
        | some (m, p) ↦ if is_started m then locked_slot m s ∷ rest else rest
      ]

  unfoldable pub write_slot : SlotRow → SlotRow
  write_slot s = elim (affected s) [ none ↦ s | some (m, p) ↦ record s { participant_id = p } ]

  unfoldable pub count_changed : List SlotRow → ℕ
  count_changed [] = 0
  count_changed (s ∷ slots) =
      let rest = count_changed slots in elim (affected s) [ none ↦ rest | some a ↦ suc rest ]

  unfoldable pub rebuild : List SlotRow → Rebuilt
  rebuild slots = elim (locked_slots slots) [
    | [] ↦ rebuilt (count_changed slots) (map write_slot slots)
    | l ∷ locked ↦ refused l locked
  ]

-- The finisher of a rank, from 1; none beyond the field.
pub placed : ℕ → List Standing → Option ℕ
placed rank placements = Option.map (λ st. st.participant_id) (get_elem? placements (rank - 1))

-- What a slot that names the group should hold: nothing while the group is open.
pub wanted_placement : ℕ → Bool → List Standing → SlotRow → Option (Option ℕ)
wanted_placement group complete placements s = elim s.source [
  | group_placement g rank ↦
      if g == group then some (if complete then placed rank placements else none) else none
  | _ ↦ none
]

pub rebuild_group_placements : ℕ → Bool → Tables → Rebuilt
rebuild_group_placements group complete db =
    rebuild db.matches (wanted_placement group complete (group_standings group db)) db.slots
