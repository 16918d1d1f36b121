-- ===== src/Match/Submit/Tests.antt =====
-- A submission that goes through, at which the theorems on submissions are applied.
use tourney_api.Prelude.{ℕ, ◌≡◌, inl, refl, ap, ◌∙◌, true, none, some}
use tourney_api.Prelude.Int.{pos}
use tourney_api.Match.Scoring.{
  scheduled, completed, normal, status_for_completion, decided_status, default_scoring_config,
}
use tourney_api.Match.Scoring.Score.{accept, validate_score}
use tourney_api.Match.Scoring.Score.Tests.{three_sets, three_sets_run}
use tourney_api.Match.Scoring.Score.Accept.{NormalWin}
use tourney_api.Match.Config.{parse_scoring_config}
use tourney_api.Draw.Tables.{MatchRow, find_match, find_event, update_match}
use tourney_api.Draw.Tables.Lookups.{winner_of}
use tourney_api.Draw.Groups.Resolved.{maybe_resolve_groups_ungrouped}
use tourney_api.Match.Save.{score_row}
use tourney_api.Match.Save.Feeds.{FeedsHold}
use tourney_api.Match.Save.Tests.{
  cup, before, after, result, match_row, result_saves, before-FeedsHold,
}
use tourney_api.Match.Submit.{
  ScoreRequest, submitted, config_of, participant_for_slot, winner_for, after_save, submit_valid,
  submit_authorized, submit_score, get_public,
}
use tourney_api.Match.Submit.Public.{is_shown, broadcast-get_public}
use tourney_api.Match.Submit.Winner.{submit_score-FeedsHold, submit_score-NormalWin}

abbrev request : ScoreRequest
request = record { sets = three_sets; completion = normal; winner_slot = pos 0 }

cup_config : config_of cup ≡ default_scoring_config
unfolding config_of parse_scoring_config
cup_config = refl

accepted : validate_score (config_of cup) three_sets normal (pos 0) ≡ accept (pos 1) normal
accepted = ap (λ c. validate_score c three_sets normal (pos 0)) cup_config ∙ three_sets_run

after_row : MatchRow
unfolding score_row
after_row = score_row (result 10 1) 100 (match_row 10 scheduled none (some 12))

after_found : find_match 10 after.matches ≡ some after_row
unfolding find_match update_match after after_row score_row
after_found = refl

after_row_ungrouped : after_row.group_id ≡ none
unfolding after_row score_row
after_row_ungrouped = refl

valid_runs :
    submit_valid 10 9 request 100 true before (accept (pos 1) normal) ≡ submitted after true
unfolding submit_valid winner_for participant_for_slot after_save decided_status
    status_for_completion
valid_runs =
    ap (after_save 10 completed true) result_saves
    ∙ ap (λ d. submitted d true)
        (maybe_resolve_groups_ungrouped 10 after after_row after_found after_row_ungrouped)

submission_runs : submit_score 10 9 (some 1) request 100 before ≡ submitted after true
unfolding submit_score submit_authorized find_match find_event status_for_completion
submission_runs =
    rw (submit_authorized, accepted)
      (ap (submit_valid 10 9 request 100 true before) accepted ∙ valid_runs)

submit_score-FeedsHold_example : FeedsHold after
submit_score-FeedsHold_example =
    submit_score-FeedsHold 10 9 100 (some 1) request true before after submission_runs
      before-FeedsHold

submit_score-NormalWin_example :
    (w p : ℕ) × NormalWin (config_of cup) three_sets w
    × (participant_for_slot 10 w before.slots ≡ some p)
    × (winner_of 10 after.matches ≡ some p)
unfolding find_match find_event
submit_score-NormalWin_example =
    submit_score-NormalWin 10 9 100 (some 1) request true before after
      (match_row 10 scheduled none (some 12)) cup submission_runs refl refl refl

broadcast-get_public_example : true ≡ is_shown (get_public 10 before)
broadcast-get_public_example =
    broadcast-get_public 10 9 100 (some 1) request scheduled before after true (inl submission_runs)
