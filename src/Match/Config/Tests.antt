-- ===== src/Match/Config/Tests.antt =====
-- Configs at which the theorems on `ParseScoringConfig` are applied.
use tourney_api.Prelude.{◌≡◌, refl, inr, true, [], ◌∷◌}
use tourney_api.Prelude.Int.{pos}
use tourney_api.Match.Scoring.{ScoringConfig, match_tiebreak}
use tourney_api.Match.Config.{
  best_of, deciding_set, integer, deciding, ScoringDoc, members, parse_scoring_config,
}
use tourney_api.Match.Config.Legal.{
  IsLegal, to_doc, parse_scoring_config-IsLegal, parse_scoring_config-to_doc,
}

abbrev tiebreak_of_three : ScoringConfig
tiebreak_of_three = record { best_of = 3; deciding_set = match_tiebreak; golden_point = true }

parse_scoring_config-to_doc_example :
    parse_scoring_config (to_doc tiebreak_of_three) ≡ (tiebreak_of_three, [])
parse_scoring_config-to_doc_example = parse_scoring_config-to_doc tiebreak_of_three (inr refl, refl)

-- A match tiebreak for the only set.
abbrev contradiction : ScoringDoc
contradiction = members ((best_of, integer (pos 1)) ∷ (deciding_set, deciding match_tiebreak) ∷ [])

parse_scoring_config-IsLegal_example : IsLegal (parse_scoring_config contradiction).0
parse_scoring_config-IsLegal_example = parse_scoring_config-IsLegal contradiction
