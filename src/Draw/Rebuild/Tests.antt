-- ===== src/Draw/Rebuild/Tests.antt =====
-- A group of two whose winner goes to a final, at which the rebuild of its placement is applied.
use tourney_api.Prelude.{ℕ, true, none, some, List, [], ◌∷◌}
use tourney_api.Prelude.Int.{pos}
use tourney_api.Match.Scoring.{completed, pending}
use tourney_api.Draw.Tables.{
  MatchRow, SlotRow, Tables, group, knockout, Source, fixed, group_placement,
}

abbrev group_match : MatchRow
group_match = record {
  id = 20;
  event_id = 1;
  match_no = 1;
  stage = some group;
  group_id = some 5;
  status = completed;
  winner_participant_id = some 8;
  next_match_id = none;
  next_slot = none;
  started_at = some 1;
  completed_at = some 2;
  sets =
      record {
        set_number = pos 1;
        p1_games = pos 4;
        p2_games = pos 6;
        p1_tiebreak = none;
        p2_tiebreak = none;
      }
      ∷ [];
}

abbrev final_match : MatchRow
final_match = record group_match {
  id = 21;
  stage = some knockout;
  group_id = none;
  status = pending;
  winner_participant_id = none;
  started_at = none;
  completed_at = none;
  sets = [];
}

abbrev slot_row : ℕ → ℕ → Source → SlotRow
slot_row m slot source = record {
  match_id = m;
  slot = slot;
  participant_id = none;
  source = source;
  label = "";
}

abbrev waiting : SlotRow
waiting = slot_row 21 1 (group_placement 5 1)

abbrev league : Tables
league = record {
  org_id = 1;
  published = true;
  events = [];
  players =
      record { id = 7; event_id = 1; display_name = 1; seed = none }
      ∷ record { id = 8; event_id = 1; display_name = 2; seed = none }
      ∷ [];
  groups = [];
  matches = group_match ∷ final_match ∷ [];
  slots =
      record (slot_row 20 1 fixed) { participant_id = some 7 }
      ∷ record (slot_row 20 2 fixed) { participant_id = some 8 }
      ∷ waiting
      ∷ [];
  next_id = 22;
  scores_audit = [];
}

placed_slots : List SlotRow
placed_slots =
    record (slot_row 20 1 fixed) { participant_id = some 7 }
    ∷ record (slot_row 20 2 fixed) { participant_id = some 8 }
    ∷ record waiting { participant_id = some 8 }
    ∷ []
