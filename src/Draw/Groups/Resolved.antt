-- ===== src/Draw/Groups/Resolved.antt =====
-- `ResolveGroups` of internal/draw/service.go: what it leaves alone.
use tourney_api.Prelude.{
  ℕ, ◌≡◌, inl, inr, ◌⊎◌, false, Bool-cases, none, some, Option-cases, map, arith, ltb,
}
use tourney_api.Draw.Tables.{MatchRow, SlotRow, Tables, find_match, find_event}
use tourney_api.Draw.Rebuild.Placements.{is_placement}
use tourney_api.Draw.Groups.{
  finisher, fill_slot, resolve_groups, remaining_in_stage, maybe_resolve_groups,
}

-- A slot keeps its place and its source, and one of another source its participant.
pub fill_slot-source :
    (event : ℕ) (db : Tables) (s : SlotRow)
    → ((fill_slot event db s).source ≡ s.source) × ((fill_slot event db s).match_id ≡ s.match_id)
unfolding fill_slot
fill_slot-source event db s = ground arith

pub fill_slot_other :
    (event : ℕ) (db : Tables) (s : SlotRow)
    → is_placement s.source ≡ false
    → fill_slot event db s ≡ s
unfolding fill_slot finisher
fill_slot_other event db s h = ground (arith, h)

-- The rows of a resolution are the old ones with its slots filled, or the old ones.
pub maybe_resolve_groups_rows :
    (id : ℕ) (db : Tables)
    → ((maybe_resolve_groups id db).0 ≡ db)
      ⊎ ((event : ℕ) × ((maybe_resolve_groups id db).0
            ≡ record db { slots = map (fill_slot event db) db.slots }))
unfolding maybe_resolve_groups resolve_groups
maybe_resolve_groups_rows id db = elim (Option-cases (find_match id db.matches)) [
  | inl e ↦ inl (ground (arith, e))
  | inr (m, e) ↦ elim (Option-cases m.group_id) [
    | inl f ↦ inl (ground (arith, e, f))
    | inr (g, f) ↦ elim (Option-cases (find_event m.event_id db.events)) [
      | inl a ↦ inl (ground (arith, e, f, a))
      | inr (ev, a) ↦ elim (Bool-cases (ltb 0 (remaining_in_stage m.event_id db.matches))) [
        | inl more ↦ inl (ground (arith, e, f, more))
        | inr done ↦ inr (m.event_id, ground (arith, e, f, a, done))
      ]
    ]
  ]
]

pub maybe_resolve_groups_ungrouped :
    (id : ℕ) (db : Tables) (m : MatchRow)
    → find_match id db.matches ≡ some m
    → m.group_id ≡ none
    → (maybe_resolve_groups id db).0 ≡ db
unfolding maybe_resolve_groups
maybe_resolve_groups_ungrouped id db m row none_ = ground (arith, row, none_)
