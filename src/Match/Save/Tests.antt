-- ===== src/Match/Save/Tests.antt =====
-- A draw of four with a result of each kind, at which the theorems on saved scores are applied.
use tourney_api.Prelude.{
  ℕ, ◌≡◌, refl, inl, true, Option, none, some, List, [], ◌∷◌, arith, get_elem?,
}
use tourney_api.Match.Scoring.{Status, scheduled, live, completed, pending, normal}
use tourney_api.Match.Scoring.Score.Tests.{three_sets}
use tourney_api.Match.Config.{absent}
use tourney_api.Draw.Fixtures.{single_elim}
use tourney_api.Draw.Tables.{
  MatchRow, SlotRow, EventRow, Tables, Source, fixed, match_winner, find_match, update_match,
}
use tourney_api.Draw.Rebuild.{
  LockedSlot, locked_slot, affected, locked_slots, write_slot, count_changed, rebuild, is_started,
}
use tourney_api.Draw.Rebuild.Writes.{In}
use tourney_api.Match.Save.{
  SaveInput, saved, downstream_locked, score_row, score_entry, wanted_winner, rebuild_winner_feeds,
  rebuild_placements, save_placements, save_feeds, save_score,
}
use tourney_api.Match.Save.Feeds.{FeedsHold, save_score-FeedsHold}
use tourney_api.Match.Save.Locks.{save_score_started, save_score-downstream_locked}

abbrev pub match_row : ℕ → Status → Option ℕ → Option ℕ → MatchRow
match_row id status winner next = record {
  id = id;
  event_id = 1;
  match_no = id;
  stage = none;
  group_id = none;
  status = status;
  winner_participant_id = winner;
  next_match_id = next;
  next_slot = none;
  started_at = none;
  completed_at = none;
  sets = [];
}

abbrev pub slot_row : ℕ → ℕ → Option ℕ → Source → SlotRow
slot_row m slot p source = record {
  match_id = m;
  slot = slot;
  participant_id = p;
  source = source;
  label = "";
}

abbrev pub cup : EventRow
cup = record {
  id = 1;
  format = single_elim;
  is_public = true;
  manual_pairing = true;
  scoring = absent;
}

-- Semifinals 10 and 11, of which 4 has won the second, and the final 12.
abbrev pub draw : Status → Option ℕ → Option ℕ → Status → Tables
draw first winner finalist final = record {
  org_id = 1;
  published = true;
  events = cup ∷ [];
  players = [];
  groups = [];
  matches =
      match_row 10 first winner (some 12)
      ∷ match_row 11 completed (some 4) (some 12)
      ∷ match_row 12 final none none
      ∷ [];
  slots =
      slot_row 10 1 (some 1) fixed
      ∷ slot_row 10 2 (some 2) fixed
      ∷ slot_row 11 1 (some 3) fixed
      ∷ slot_row 11 2 (some 4) fixed
      ∷ slot_row 12 1 finalist (match_winner 10)
      ∷ slot_row 12 2 (some 4) (match_winner 11)
      ∷ [];
  next_id = 13;
  scores_audit = [];
}

abbrev pub result : ℕ → ℕ → SaveInput
result m winner = record {
  match_id = m;
  sets = three_sets;
  status = completed;
  completion = normal;
  winner_id = some winner;
  actor = 9;
}

abbrev pub before : Tables
before = draw scheduled none none pending

unfoldable pub after : Tables
unfolding update_match score_row
after = record (draw scheduled none (some 1) pending) {
  matches = update_match 10 (score_row (result 10 1) 100) before.matches;
  scores_audit = score_entry (result 10 1) (match_row 10 scheduled none (some 12)) 1 0 ∷ [];
}

pub before-FeedsHold : FeedsHold before
unfolding find_match
before-FeedsHold = (refl, tt, (refl, tt, (refl, tt, (refl, tt, (refl, refl, (refl, refl, tt))))))

pub result_saves : save_score (result 10 1) 100 before ≡ saved after
unfolding save_score find_match update_match score_row save_feeds rebuild_winner_feeds rebuild
    locked_slots affected wanted_winner is_started write_slot count_changed save_placements
    rebuild_placements after
result_saves = refl

save_score-FeedsHold_example : FeedsHold after
save_score-FeedsHold_example =
    save_score-FeedsHold (result 10 1) 100 before after result_saves before-FeedsHold

-- The first semifinal is decided and the final is on.
abbrev under_way : Tables
under_way = draw completed (some 1) (some 1) live

save_score-downstream_locked_example :
    (l : LockedSlot) × (locked : List LockedSlot) × (save_score (result 10 2) 200 under_way
      ≡ downstream_locked l locked)
    × In
        (locked_slot (match_row 12 live none none) (slot_row 12 1 (some 1) (match_winner 10)))
        (l ∷ locked)
unfolding find_match is_started
save_score-downstream_locked_example =
    save_score-downstream_locked (result 10 2) 200 under_way 4
      (slot_row 12 1 (some 1) (match_winner 10)) (match_row 12 live none none)
      (match_row 10 completed (some 1) (some 12)) refl (λ e. ground (arith, e)) refl refl
      (λ e. ground (arith, e)) refl (omega arith) refl

-- The other semifinal's sets are corrected, its winner stays.
corrected : Tables
unfolding update_match score_row
corrected = record under_way {
  matches = update_match 11 (score_row (result 11 4) 300) under_way.matches;
  scores_audit = score_entry (result 11 4) (match_row 11 completed (some 4) (some 12)) 0 0 ∷ [];
}

correction_saves : save_score (result 11 4) 300 under_way ≡ saved corrected
unfolding save_score find_match update_match score_row save_feeds rebuild_winner_feeds
    save_placements rebuild_placements corrected
correction_saves = refl

save_score_started_example :
    get_elem? corrected.slots 4 ≡ some (slot_row 12 1 (some 1) (match_winner 10))
unfolding find_match
save_score_started_example =
    save_score_started (result 11 4) 300 under_way corrected 4
      (slot_row 12 1 (some 1) (match_winner 10)) (match_row 12 live none none) correction_saves refl
      refl (omega arith) (inl refl)
