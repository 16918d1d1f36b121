-- ===== src/Draw/Fixtures/Generate/Tests.antt =====
-- Events at which the theorems on fixtures are applied, and runs of the code.
use tourney_api.Prelude.{◌<◌, ◌≡◌, refl, true, none, some, [], ◌∷◌, length}
use tourney_api.Match.Scoring.{completed}
use tourney_api.Draw.Fixtures.{
  Fixture, Event, round_robin, ok, pending_fixture, authorize_event, add_manual_match,
  find_duplicates, is_duplicate, insert_newest, classify_duplicate, max_match_no, valid_participant,
  insert_fixture, record_rematch,
}
use tourney_api.Draw.Fixtures.Duplicates.{
  All, NoClash, verdict_on, classify_duplicate_lem, add_manual_match-NoClash,
}
use tourney_api.Draw.Fixtures.Generate.{
  generate, generate_round_robin_fixtures, pids_of, sort_participants, insert_participant, before,
  existing_pairs, fixture_key, has_key, add_missing, add_pairs_with, add_pair,
}
use tourney_api.Draw.Fixtures.Generate.Cover.{
  EachPair, Covered, generate_round_robin_fixtures-Covered,
}

abbrev played : Fixture
played = record (pending_fixture 0 1 7 5) { status = completed }

-- Participants 5, 6 and 7, of which 7 has played 5.
abbrev club : Event
club = record {
  org_id = 1;
  format = round_robin;
  participants =
      record { id = 6; seed = none }
      ∷ record { id = 7; seed = some 1 }
      ∷ record { id = 5; seed = none }
      ∷ [];
  fixtures = played ∷ [];
  next_id = 1;
  audit = [];
}

club_after : Event
unfolding generate add_missing add_pairs_with add_pair
club_after = record club { fixtures = (generate club).fixtures; next_id = (generate club).next_id }

generate_runs : generate_round_robin_fixtures (some club) none ≡ ok (club_after, 2, 1)
unfolding generate_round_robin_fixtures authorize_event club_after generate sort_participants
    insert_participant before existing_pairs fixture_key has_key add_missing add_pairs_with add_pair
    max_match_no
generate_runs = refl

generate_round_robin_fixtures-Covered_example :
    EachPair (Covered club_after.fixtures) (pids_of club)
    × (generate_round_robin_fixtures (some club_after) none
        ≡ ok (club_after, 0, length (existing_pairs club_after.fixtures)))
generate_round_robin_fixtures-Covered_example =
    generate_round_robin_fixtures-Covered club club_after none 2 1 generate_runs

classify_duplicate_lem_example :
    classify_duplicate (played ∷ pending_fixture 3 2 5 7 ∷ []) true
    ≡ verdict_on (some (pending_fixture 3 2 5 7)) (some played) true
classify_duplicate_lem_example = classify_duplicate_lem (played ∷ pending_fixture 3 2 5 7 ∷ []) true

-- A rematch of the played pair.
club_rematch : Event
unfolding insert_fixture record_rematch
club_rematch = record_rematch 9 1 (played ∷ []) (insert_fixture 2 5 7 club)

rematch_runs : add_manual_match (some club) (some 1) 9 5 7 true ≡ ok (club_rematch, 1, 2)
unfolding add_manual_match authorize_event find_duplicates is_duplicate insert_newest
    classify_duplicate max_match_no valid_participant insert_fixture record_rematch club_rematch
rematch_runs = refl

add_manual_match-NoClash_example :
    (club_rematch.fixtures ≡ pending_fixture 1 2 5 7 ∷ played ∷ [])
    × All (λ f. f.match_no < 2) (played ∷ [])
    × NoClash club_rematch.fixtures
add_manual_match-NoClash_example =
    add_manual_match-NoClash club club_rematch (some 1) 9 5 7 1 2 true rematch_runs (tt, tt)
