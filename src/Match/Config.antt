-- ===== src/Match/Config.antt =====
-- `ParseScoringConfig` of internal/match/scoring.go, on a document that `encoding/json` has
-- decoded: its keys in the order in which Go's map hands them out.
mod Tests
pub mod Legal
use tourney_api.Prelude.{
  ℕ, Bool, true, false, ◌&&◌, ◌||◌, Option, none, some, List, [], ◌∷◌, ◌++◌, ◌==◌, if◌then◌else◌,
  String,
}
use tourney_api.Prelude.Int.{ℤ, pos, negsuc}
use tourney_api.Match.Scoring.{
  ScoringConfig, DecidingSet, full, match_tiebreak, Violation, violation, default_scoring_config,
}

pub data ConfigKey : Type 0 where
  best_of deciding_set golden_point : ConfigKey
  unknown : String → ConfigKey

-- A value as the three keys tell it apart; `other` is any text but the two, a fraction, a list, an
-- object or an integer out of range.
pub data JsonValue : Type 0 where
  null other : JsonValue
  integer : ℤ → JsonValue
  boolean : Bool → JsonValue
  deciding : DecidingSet → JsonValue

-- No bytes, bytes that are no object, and the members of an object (none for `null`).
pub data ScoringDoc : Type 0 where
  absent not_an_object : ScoringDoc
  members : List (ConfigKey × JsonValue) → ScoringDoc

pub record Parsed : Type 0 where
  pub cfg : ScoringConfig
  pub violations : List Violation

abbrev pub complain : Violation → Parsed → Parsed
complain v p = record p { violations = p.violations ++ v ∷ [] }

pub parse_best_of : JsonValue → Parsed → Parsed
parse_best_of (integer (pos n)) p =
    if n == 1 || n == 3
    then record p { cfg = record p.cfg { best_of = n } }
    else complain (violation "best_of" "config.best_of") p
parse_best_of _ p = complain (violation "best_of" "config.best_of") p

pub parse_deciding_set : JsonValue → Parsed → Parsed
parse_deciding_set (deciding d) p = record p { cfg = record p.cfg { deciding_set = d } }
parse_deciding_set _ p = complain (violation "deciding_set" "config.deciding_set") p

-- A `null` decodes to `false` without an error.
pub parse_golden_point : JsonValue → Parsed → Parsed
parse_golden_point (boolean b) p = record p { cfg = record p.cfg { golden_point = b } }
parse_golden_point null p = record p { cfg = record p.cfg { golden_point = false } }
parse_golden_point _ p = complain (violation "golden_point" "config.golden_point") p

pub parse_member : ConfigKey → JsonValue → Parsed → Parsed
parse_member best_of val p = parse_best_of val p
parse_member deciding_set val p = parse_deciding_set val p
parse_member golden_point val p = parse_golden_point val p
parse_member (unknown key) val p = complain (violation key "config.unknown_key") p

pub parse_members : List (ConfigKey × JsonValue) → Parsed → Parsed
parse_members [] p = p
parse_members (m ∷ doc) p = parse_members doc (parse_member m.0 m.1 p)

abbrev pub is_match_tiebreak : DecidingSet → Bool
is_match_tiebreak full = false
is_match_tiebreak match_tiebreak = true

-- One set has no deciding match tiebreak.
pub check_parsed : Parsed → Parsed
check_parsed p =
    if p.cfg.best_of == 1 && is_match_tiebreak p.cfg.deciding_set
    then complain (violation "deciding_set" "config.match_tiebreak_best_of_1") p
    else p

pub default_on_violation : Parsed → ScoringConfig × List Violation
default_on_violation p = elim p.violations [
  | [] ↦ (p.cfg, [])
  | v ∷ vs ↦ (default_scoring_config, v ∷ vs)
]

unfoldable pub parse_scoring_config : ScoringDoc → ScoringConfig × List Violation
parse_scoring_config absent = (default_scoring_config, [])
parse_scoring_config not_an_object =
    (default_scoring_config, violation "" "config.invalid_json" ∷ [])
parse_scoring_config (members doc) =
    default_on_violation
      (check_parsed (parse_members doc (record { cfg = default_scoring_config; violations = [] })))
