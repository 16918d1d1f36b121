-- ===== src/Draw/Rebuild/Placements.antt =====
-- `RebuildGroupPlacements` of internal/draw/service.go: what the slots of a group's finishers hold.
use tourney_api.Prelude.{
  ℕ, ◌≡◌, ap, ◌∙◌, Bool, true, false, none, some, List, map, arith, get_elem?, get_elem?-map_at,
}
use tourney_api.Draw.Tables.{MatchRow, SlotRow, Tables, Source, group_placement, find_match}
use tourney_api.Draw.Standings.{Standing, group_standings}
use tourney_api.Draw.Rebuild.{
  rebuilt, is_started, write_slot, wanted_placement, rebuild_group_placements,
}
use tourney_api.Draw.Rebuild.Writes.{rebuild_rebuilt, write_slot_started}

abbrev pub is_placement : Source → Bool
is_placement (group_placement g r) = true
is_placement _ = false

pub wanted_placement_other :
    (g : ℕ) (complete : Bool) (ps : List Standing) (s : SlotRow) (src : Source)
    → s.source ≡ src
    → is_placement src ≡ false
    → wanted_placement g complete ps s ≡ none
unfolding wanted_placement
wanted_placement_other g complete ps s src e h = ground (arith, e, h)

pub rebuild_group_placements_slots :
    (g : ℕ) (complete : Bool) (db : Tables) (slots' : List SlotRow) (n : ℕ)
    → rebuild_group_placements g complete db ≡ rebuilt n slots'
    → slots'
      ≡ map (write_slot db.matches (wanted_placement g complete (group_standings g db))) db.slots
unfolding rebuild_group_placements
rebuild_group_placements_slots g complete db slots' n h =
    (rebuild_rebuilt db.matches (wanted_placement g complete (group_standings g db)) db.slots slots'
      n h).0

pub rebuild_group_placements_started :
    (g : ℕ) (complete : Bool) (db : Tables) (slots' : List SlotRow) (n i : ℕ) (s : SlotRow)
    (m : MatchRow)
    → rebuild_group_placements g complete db ≡ rebuilt n slots'
    → get_elem? db.slots i ≡ some s
    → find_match s.match_id db.matches ≡ some m
    → is_started m ≡ true
    → get_elem? slots' i ≡ some s
unfolding rebuild_group_placements
rebuild_group_placements_started g complete db slots' n i s m h at row started =
    let want = wanted_placement g complete (group_standings g db) in
    let (e, none_locked) = rebuild_rebuilt db.matches want db.slots slots' n h in
    ap (λ x. get_elem? x i) e
    ∙ get_elem?-map_at (write_slot db.matches want) db.slots i s at
    ∙ ap some (write_slot_started db.matches want s db.slots i m none_locked at row started)
