-- ===== src/Match/Scoring/Score/Tests.antt =====
-- Scores at which the theorems about internal/match are applied, and runs of the code.
use tourney_api.Prelude.{ℕ, ◌≡◌, refl, false, none, some, List, [], ◌∷◌, map}
use tourney_api.Prelude.Int.{pos}
use tourney_api.Match.Scoring.{SetScore, normal, status_for_completion, default_scoring_config}
use tourney_api.Match.Scoring.Set.{validate_set, validate_regular, validate_tiebreak}
use tourney_api.Match.Scoring.Set.Legal.{Wins, validate_set-Wins}
use tourney_api.Match.Scoring.Set.Sides.{swap_set}
use tourney_api.Match.Scoring.Score.{
  validate_score, validate_sets, accept, sets_to_win, sort_sets, insert_set, winner_violations,
  tally_sets, tally_set, is_decider, allow_partial, numbering, start, conclude, refuse_or,
}
use tourney_api.Match.Scoring.Score.Accept.{NormalWin, validate_score-NormalWin}
use tourney_api.Match.Scoring.Score.Sides.{swap_outcome, validate_score-swap}

abbrev pub games : ℕ → ℕ → ℕ → SetScore
games n a b = record {
  set_number = pos n;
  p1_games = pos a;
  p2_games = pos b;
  p1_tiebreak = none;
  p2_tiebreak = none;
}

abbrev pub tight_set : SetScore
tight_set = record (games 3 7 6) { p1_tiebreak = some (pos 8); p2_tiebreak = some (pos 6) }

-- 6-4, 3-6, 7-6 (8-6), sent out of order.
abbrev pub three_sets : List SetScore
three_sets = games 2 3 6 ∷ tight_set ∷ games 1 6 4 ∷ []

pub three_sets_run :
    validate_score default_scoring_config three_sets normal (pos 0) ≡ accept (pos 1) normal
unfolding validate_score default_scoring_config status_for_completion validate_sets sort_sets
    insert_set winner_violations tally_sets tally_set validate_set validate_regular
    validate_tiebreak sets_to_win is_decider allow_partial numbering start conclude refuse_or
three_sets_run = refl

validate_set-Wins_example : Wins false tight_set 1
unfolding validate_set validate_regular validate_tiebreak
validate_set-Wins_example = (validate_set-Wins tight_set false false 1).0 (refl, refl)

validate_score-NormalWin_example : (pos 0 ≡ pos 0) × NormalWin default_scoring_config three_sets 1
validate_score-NormalWin_example =
    (validate_score-NormalWin default_scoring_config three_sets (pos 0) 1).0 three_sets_run

validate_score-swap_example :
    validate_score default_scoring_config (map swap_set three_sets) normal (pos 0)
    ≡ swap_outcome (validate_score default_scoring_config three_sets normal (pos 0))
validate_score-swap_example = validate_score-swap default_scoring_config three_sets normal (pos 0)
