-- ===== src/Match/Scoring.antt =====
-- internal/match/scoring.go: what a submitted score may look like. The message of a violation,
-- a text for display, is left out. A Go string that names one of a few values is a data type.
pub mod Set
pub mod Score
use tourney_api.Prelude.{ℕ, Bool, true, false, Option, none, some, String}
use tourney_api.Prelude.Int.{ℤ, pos}

pub data DecidingSet : Type 0 where
  full match_tiebreak : DecidingSet

pub record ScoringConfig : Type 0 where
  pub best_of : ℕ
  pub deciding_set : DecidingSet
  pub golden_point : Bool

unfoldable pub default_scoring_config : ScoringConfig
default_scoring_config = record { best_of = 3; deciding_set = full; golden_point = false }

pub record Violation : Type 0 where
  pub set : ℤ
  pub field : String
  pub rule : String

-- A violation that is not about one set.
abbrev pub violation : String → String → Violation
violation field rule = record { set = pos 0; field = field; rule = rule }

-- The wire values; `other` is any string but the five.
pub data Completion : Type 0 where
  incomplete normal walkover retired cancelled : Completion
  other : String → Completion

-- The `match_status` of the database, and `unset` for the empty string of a refused score.
pub data Status : Type 0 where
  unset pending scheduled live completed walkover retired cancelled bye : Status

unfoldable pub status_for_completion : Completion → Status
status_for_completion normal = completed
status_for_completion Completion.walkover = Status.walkover
status_for_completion Completion.retired = Status.retired
status_for_completion Completion.cancelled = Status.cancelled
status_for_completion incomplete = live
status_for_completion (other s) = live

unfoldable pub decided_status : Status → Bool
decided_status completed = true
decided_status Status.walkover = true
decided_status Status.retired = true
decided_status Status.cancelled = true
decided_status bye = true
decided_status _ = false

pub record SetScore : Type 0 where
  pub set_number : ℤ
  pub p1_games : ℤ
  pub p2_games : ℤ
  pub p1_tiebreak : Option ℤ
  pub p2_tiebreak : Option ℤ
