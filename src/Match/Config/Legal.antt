-- ===== src/Match/Config/Legal.antt =====
-- `ParseScoringConfig`: what it returns is a config that the scoring rules know.
use tourney_api.Prelude.{
  ◌≡◌, refl, ◌⊎◌, inl, inr, false, Bool-cases, ◌&&◌, List, [], ◌∷◌, ◌++◌, arith, ◌==◌,
}
use tourney_api.Prelude.Int.{pos, negsuc}
use tourney_api.Match.Scoring.{ScoringConfig, Violation, default_scoring_config}
use tourney_api.Match.Config.{
  ConfigKey, best_of, deciding_set, golden_point, unknown, JsonValue, null, other, integer, boolean,
  deciding, ScoringDoc, absent, not_an_object, members, Parsed, parse_best_of, parse_deciding_set,
  parse_golden_point, parse_member, parse_members, check_parsed, default_on_violation,
  parse_scoring_config, is_match_tiebreak,
}

-- One set or three, and no match tiebreak in place of the only set.
abbrev pub IsLegal : ScoringConfig → Type 0
IsLegal cfg =
    ((cfg.best_of ≡ 1) ⊎ (cfg.best_of ≡ 3))
    × ((cfg.best_of == 1 && is_match_tiebreak cfg.deciding_set) ≡ false)

abbrev OneOrThree : Parsed → Type 0
OneOrThree p = (p.cfg.best_of ≡ 1) ⊎ (p.cfg.best_of ≡ 3)

parse_best_of-OneOrThree :
    (v : JsonValue) (p : Parsed) → OneOrThree p → OneOrThree (parse_best_of v p)
unfolding parse_best_of
parse_best_of-OneOrThree null p h = h
parse_best_of-OneOrThree other p h = h
parse_best_of-OneOrThree (integer (pos n)) p h = ground arith
parse_best_of-OneOrThree (integer (negsuc n)) p h = h
parse_best_of-OneOrThree (boolean b) p h = h
parse_best_of-OneOrThree (deciding d) p h = h

parse_deciding_set-OneOrThree :
    (v : JsonValue) (p : Parsed) → OneOrThree p → OneOrThree (parse_deciding_set v p)
unfolding parse_deciding_set
parse_deciding_set-OneOrThree (deciding d) p h = h
parse_deciding_set-OneOrThree _ p h = h

parse_golden_point-OneOrThree :
    (v : JsonValue) (p : Parsed) → OneOrThree p → OneOrThree (parse_golden_point v p)
unfolding parse_golden_point
parse_golden_point-OneOrThree (boolean b) p h = h
parse_golden_point-OneOrThree null p h = h
parse_golden_point-OneOrThree _ p h = h

parse_member-OneOrThree :
    (k : ConfigKey) (v : JsonValue) (p : Parsed) → OneOrThree p → OneOrThree (parse_member k v p)
unfolding parse_member
parse_member-OneOrThree best_of v p h = parse_best_of-OneOrThree v p h
parse_member-OneOrThree deciding_set v p h = parse_deciding_set-OneOrThree v p h
parse_member-OneOrThree golden_point v p h = parse_golden_point-OneOrThree v p h
parse_member-OneOrThree (unknown key) v p h = h

parse_members-OneOrThree :
    (doc : List (ConfigKey × JsonValue)) (p : Parsed)
    → OneOrThree p
    → OneOrThree (parse_members doc p)
unfolding parse_members
parse_members-OneOrThree [] p h = h
parse_members-OneOrThree (m ∷ doc) p h =
    parse_members-OneOrThree doc (parse_member m.0 m.1 p) (parse_member-OneOrThree m.0 m.1 p h)

complained-IsLegal :
    (cfg : ScoringConfig) (vs : List Violation) (v : Violation)
    → IsLegal (default_on_violation (record { cfg = cfg; violations = vs ++ v ∷ [] })).0
unfolding default_on_violation default_scoring_config
complained-IsLegal cfg [] v = (inr refl, refl)
complained-IsLegal cfg (w ∷ vs) v = (inr refl, refl)

kept-IsLegal :
    (cfg : ScoringConfig) (vs : List Violation)
    → IsLegal cfg
    → IsLegal (default_on_violation (record { cfg = cfg; violations = vs })).0
unfolding default_on_violation default_scoring_config
kept-IsLegal cfg [] h = h
kept-IsLegal cfg (v ∷ vs) h = (inr refl, refl)

checked-IsLegal : (p : Parsed) → OneOrThree p → IsLegal (default_on_violation (check_parsed p)).0
unfolding check_parsed
checked-IsLegal p h =
    elim (Bool-cases (p.cfg.best_of == 1 && is_match_tiebreak p.cfg.deciding_set)) [
      | inl bad ↦ rw bad (complained-IsLegal p.cfg p.violations _)
      | inr good ↦ rw good (kept-IsLegal p.cfg p.violations (h, good))
    ]

-- Whatever the stored document, the config that `ParseScoringConfig` returns is best of one or
-- three, and never a match tiebreak for the only set.
pub parse_scoring_config-IsLegal : (doc : ScoringDoc) → IsLegal (parse_scoring_config doc).0
unfolding parse_scoring_config default_scoring_config
parse_scoring_config-IsLegal absent = (inr refl, refl)
parse_scoring_config-IsLegal not_an_object = (inr refl, refl)
parse_scoring_config-IsLegal (members doc) =
    checked-IsLegal _ (parse_members-OneOrThree doc _ (inr refl))

-- The members of a config, as its field tags name them.
pub to_doc : ScoringConfig → ScoringDoc
to_doc cfg = members (
    (best_of, integer (pos cfg.best_of))
    ∷ (deciding_set, deciding cfg.deciding_set)
    ∷ (golden_point, boolean cfg.golden_point)
    ∷ [])

-- A legal config that is written out under its field tags is read back as it was, without a
-- violation.
pub parse_scoring_config-to_doc :
    (cfg : ScoringConfig) → IsLegal cfg → parse_scoring_config (to_doc cfg) ≡ (cfg, [])
unfolding parse_scoring_config to_doc parse_members parse_member parse_best_of parse_deciding_set
    parse_golden_point check_parsed default_on_violation
parse_scoring_config-to_doc cfg h = ground arith
