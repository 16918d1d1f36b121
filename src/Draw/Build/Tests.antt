-- ===== src/Draw/Build/Tests.antt =====
-- Tests of a stored bracket: two pairs, in place of an earlier draw, beside another event's draw.
use tourney_api.Prelude.{
  ℕ, ◌≡◌, refl, arith, true, false, none, some, Option, List, [], ◌∷◌, map, String,
}
use tourney_api.Match.Config.{absent}
use tourney_api.Draw.Bracket.{
  Pair, generate_from_pairs, clean_pairs, wire_fed_rounds, wire_rounds, log2, halve_until,
  next_power_of_two, double_until, wire_round, wire_feeds, pair_matches, fed_matches, pair_slot,
}
use tourney_api.Draw.Pairs.{validate_pairs, check_pairs, use_id}
use tourney_api.Draw.Fixtures.{Result, single_elim}
use tourney_api.Match.Scoring.{pending}
use tourney_api.Draw.Tables.{
  find_event, find_match, Tables, PlayerRow, MatchRow, SlotRow, Source, fixed, match_winner,
}
use tourney_api.Match.Save.Feeds.{FeedsHold}
use tourney_api.Draw.Build.{
  build, is_entrant, store_bracket, persist_with_groups, group_count, new_slots, insert_slot_row,
  source_of,
}
use tourney_api.Draw.Build.Cleared.{AllBelow, KeepsToItself}
use tourney_api.Draw.Build.Named.{WellNamed}
use tourney_api.Draw.Build.Kept.{is_ok, tables_of, matches_made, ok-is_ok, build-FeedsHold}

abbrev player : ℕ → PlayerRow
player id = record { id = id; event_id = 3; display_name = id; seed = none }

abbrev match_row : ℕ → ℕ → Option ℕ → Option ℕ → MatchRow
match_row id event winner next = record {
  id = id;
  event_id = event;
  match_no = id;
  stage = none;
  group_id = none;
  status = pending;
  winner_participant_id = winner;
  next_match_id = next;
  next_slot = elim next [ none ↦ none | some n ↦ some 1 ];
  started_at = none;
  completed_at = none;
  sets = [];
}

abbrev slot_row : ℕ → ℕ → Option ℕ → Source → SlotRow
slot_row match slot p source = record {
  match_id = match;
  slot = slot;
  participant_id = p;
  source = source;
  label = "";
}

abbrev old_tables : Tables
old_tables = record {
  org_id = 2;
  published = true;
  events =
      record {
        id = 3;
        format = single_elim;
        is_public = true;
        manual_pairing = false;
        scoring = absent;
      }
      ∷ [];
  players = map player (21 ∷ 22 ∷ 23 ∷ 24 ∷ []);
  groups = [];
  matches =
      match_row 40 4 (some 31) (some 41)
      ∷ match_row 41 4 none none
      ∷ match_row 50 3 (some 21) (some 51)
      ∷ match_row 51 3 none none
      ∷ [];
  slots =
      slot_row 40 1 (some 31) fixed
      ∷ slot_row 40 2 (some 32) fixed
      ∷ slot_row 41 1 (some 31) (match_winner 40)
      ∷ slot_row 50 1 (some 21) fixed
      ∷ slot_row 50 2 (some 24) fixed
      ∷ slot_row 51 1 (some 21) (match_winner 50)
      ∷ [];
  next_id = 60;
  scores_audit = [];
}

abbrev pairs : List Pair
pairs = record { a = some 21; b = some 22 } ∷ record { a = some 23; b = some 24 } ∷ []

abbrev no_name : ℕ → String
no_name g = ""

abbrev built : Result (Tables × ℕ)
built = build no_name 3 none pairs old_tables

built_ok : is_ok built ≡ true
unfolding build find_event validate_pairs check_pairs use_id is_entrant store_bracket
    generate_from_pairs clean_pairs wire_fed_rounds wire_rounds log2 halve_until next_power_of_two
    double_until wire_round wire_feeds pair_matches fed_matches pair_slot persist_with_groups
    group_count new_slots insert_slot_row source_of
built_ok = refl

old_tables-FeedsHold : FeedsHold old_tables
unfolding find_match
old_tables-FeedsHold =
    (refl, tt, (refl, tt, (refl, refl, (refl, tt, (refl, tt, (refl, refl, tt))))))

old_tables-KeepsToItself : KeepsToItself 3 old_tables.matches old_tables.slots
unfolding find_match
old_tables-KeepsToItself = (
  (λ away. tt),
  (
    (λ away. tt),
    ((λ away. refl), ((λ away. tt), ((λ away. tt), ((λ away. ground (arith, away)), tt)))),
  ),
)

old_tables-AllBelow : AllBelow old_tables.next_id old_tables.matches
old_tables-AllBelow = (omega arith, (omega arith, (omega arith, (omega arith, tt))))

build-FeedsHold_example :
    FeedsHold (tables_of built old_tables)
    × WellNamed 3 (tables_of built old_tables).matches (tables_of built old_tables).slots
build-FeedsHold_example =
    build-FeedsHold no_name 3 none pairs old_tables (tables_of built old_tables)
      (matches_made built) (ok-is_ok built old_tables built_ok) old_tables-FeedsHold
      old_tables-KeepsToItself old_tables-AllBelow
