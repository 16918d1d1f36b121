-- ===== src/Draw/Knockout/Tests.antt =====
-- Tests of a stored group stage: two groups of two, one of each to advance.
use tourney_api.Prelude.{ℕ, ◌≡◌, refl, true, false, none, List, [], ◌∷◌, map, String}
use tourney_api.Prelude.Int.{ℤ}
use tourney_api.Match.Config.{absent}
use tourney_api.Draw.{Slot}
use tourney_api.Draw.Bracket.{
  wire_rounds, log2, halve_until, next_power_of_two, double_until, wire_round, wire_feeds,
  fed_matches, first_round,
}
use tourney_api.Draw.RoundRobin.{
  round_robin_match, round_matches, last_first, rotate, play_rounds, circle_of,
  generate_round_robin,
}
use tourney_api.Draw.Fixtures.{Result, group_knockout}
use tourney_api.Draw.Tables.{Tables, PlayerRow, find_event}
use tourney_api.Draw.Build.{
  is_entrant, persist_with_groups, group_count, new_slots, insert_slot_row, source_of, group_id_of,
}
use tourney_api.Draw.Build.Kept.{is_ok}
use tourney_api.Draw.Knockout.{
  GroupSpec, build_knockout_from_slots, place_name, placement_slot, further_slots, advancers_from,
  advancer_slots, group_matches, group_knockout_from_assignment, take_teams, check_groups,
  store_groups, set_groups,
}

abbrev entrant : ℕ → PlayerRow
entrant id = record { id = id; event_id = 3; display_name = id; seed = none }

abbrev group_tables : Tables
group_tables = record {
  org_id = 2;
  published = true;
  events =
      record {
        id = 3;
        format = group_knockout;
        is_public = true;
        manual_pairing = false;
        scoring = absent;
      }
      ∷ [];
  players = map entrant (21 ∷ 22 ∷ 23 ∷ 24 ∷ []);
  groups = [];
  matches = [];
  slots = [];
  next_id = 60;
  scores_audit = [];
}

abbrev spec_of : String → ℕ → List ℕ → GroupSpec
spec_of name advance ids = record { name = name; advance_count = ℤ.pos advance; team_ids = ids }

abbrev two_groups : List GroupSpec
two_groups = spec_of "North" 1 (21 ∷ 22 ∷ []) ∷ spec_of "South" 1 (23 ∷ 24 ∷ []) ∷ []

-- With counts 2 and 1, the runner-up of the second group has a place, and that of the first has none.
abbrev rank_of : Slot → ℕ × ℕ
rank_of s = (s.source_group_idx, s.source_rank)

uneven :
    map rank_of (advancer_slots (spec_of "N" 2 [] ∷ spec_of "S" 1 [] ∷ []))
    ≡ (0, 1) ∷ (1, 2) ∷ (1, 1) ∷ []
unfolding advancer_slots advancers_from placement_slot further_slots
uneven = refl

abbrev default_text : ℕ → String
default_text g = ""

abbrev grouped : Result (Tables × ℕ)
grouped = set_groups default_text 3 none two_groups group_tables

grouped_ok : is_ok grouped ≡ true
unfolding set_groups find_event is_entrant check_groups take_teams store_groups
    group_knockout_from_assignment group_matches generate_round_robin circle_of play_rounds rotate
    last_first round_matches round_robin_match build_knockout_from_slots advancer_slots
    advancers_from placement_slot further_slots place_name first_round wire_rounds log2 halve_until
    next_power_of_two double_until wire_round wire_feeds fed_matches persist_with_groups group_count
    new_slots insert_slot_row source_of group_id_of
grouped_ok = refl
