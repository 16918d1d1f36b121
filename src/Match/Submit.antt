-- ===== src/Match/Submit.antt =====
-- `SubmitScore` and `SetStatus` of internal/match/service.go, over the rows of one tournament. A
-- result says whether the public stream may hear of it.
mod Tests
pub mod Winner
pub mod Public
use tourney_api.Prelude.{
  ℕ, Bool, true, false, ◌&&◌, Option, none, some, List, [], ◌∷◌, ltb, ◌==◌, if◌then◌else◌,
}
use tourney_api.Prelude.Int.{ℤ, pos, pos_part, ◌==ℤ◌}
use tourney_api.Match.Scoring.{
  ScoringConfig, SetScore, Status, Completion, Violation, violation, default_scoring_config,
  decided_status,
}
use tourney_api.Match.Scoring.Score.{Outcome, validate_score}
use tourney_api.Match.Config.{parse_scoring_config}
use tourney_api.Match.Save.{SaveInput, Saved, saved, match_not_found, downstream_locked, save_score}
use tourney_api.Match.Save
use tourney_api.Draw.Fixtures.{may_act}
use tourney_api.Draw.Tables.{MatchRow, SlotRow, EventRow, Tables, find_match, find_event}
use tourney_api.Draw.Rebuild.{LockedSlot}
use tourney_api.Draw.Groups.{maybe_resolve_groups}

pub record ScoreRequest : Type 0 where
  pub sets : List SetScore
  pub completion : Completion
  pub winner_slot : ℤ

pub data SubmitError : Type 0 where
  not_found forbidden completed_immutable : SubmitError
  invalid_score : List Violation → SubmitError
  locked : LockedSlot → List LockedSlot → SubmitError

pub data Submitted : Type 0 where
  submitted : Tables → Bool → Submitted
  failed : SubmitError → Submitted

-- A stored config that is not legal counts as the default.
pub config_of : EventRow → ScoringConfig
config_of e =
    let (cfg, violations) = parse_scoring_config e.scoring in
    elim violations [ [] ↦ cfg | v ∷ vs ↦ default_scoring_config ]

pub participant_for_slot : ℕ → ℕ → List SlotRow → Option ℕ
participant_for_slot id slot [] = none
participant_for_slot id slot (s ∷ slots) =
    if s.match_id == id && s.slot == slot
    then s.participant_id
    else participant_for_slot id slot slots

-- The winner to record, if any, for a winner slot (0 for none); `none` where that slot is empty.
pub winner_for : ℤ → ℕ → List SlotRow → Option (Option ℕ)
winner_for w id slots =
    if w ==ℤ pos 0
    then some none
    else elim (participant_for_slot id (pos_part w) slots) [ none ↦ none | some p ↦ some (some p) ]

pub after_save : ℕ → Status → Bool → Saved → Submitted
after_save id status topic (saved db) =
    submitted (if decided_status status then (maybe_resolve_groups id db).0 else db) topic
after_save id status topic match_not_found = failed not_found
after_save id status topic (downstream_locked l ls) = failed (locked l ls)

pub submit_valid : ℕ → ℕ → ScoreRequest → ℕ → Bool → Tables → Outcome → Submitted
submit_valid id actor req now topic db out = elim (winner_for out.winner id db.slots) [
  | none ↦ failed (invalid_score (violation "winner_slot" "winner.slot_empty" ∷ []))
  | some winner ↦ after_save id out.status topic (
      save_score
        (record {
          match_id = id;
          sets = req.sets;
          status = out.status;
          completion = req.completion;
          winner_id = winner;
          actor = actor;
        })
        now db)
]

pub submit_authorized : ℕ → ℕ → ScoreRequest → ℕ → EventRow → Tables → Submitted
submit_authorized id actor req now e db =
    let out = validate_score (config_of e) req.sets req.completion req.winner_slot in
    elim out.violations [
      | v ∷ vs ↦ failed (invalid_score (v ∷ vs))
      | [] ↦ submit_valid id actor req now (db.published && e.is_public) db out
    ]

pub submit_score : ℕ → ℕ → Option ℕ → ScoreRequest → ℕ → Tables → Submitted
submit_score id actor org req now db = elim (find_match id db.matches) [
  | none ↦ failed not_found
  | some m ↦ elim (find_event m.event_id db.events) [
    | none ↦ failed not_found
    | some e ↦
        if may_act org db.org_id then submit_authorized id actor req now e db else failed forbidden
  ]
]

pub after_status : Bool → Saved → Submitted
after_status topic (saved db) = submitted db topic
after_status topic match_not_found = failed not_found
after_status topic (downstream_locked l ls) = failed (locked l ls)

-- A decided match is reopened by a score, not by its status.
pub set_status : ℕ → Option ℕ → Status → ℕ → Tables → Submitted
set_status id org status now db = elim (find_match id db.matches) [
  | none ↦ failed not_found
  | some m ↦ elim (find_event m.event_id db.events) [
    | none ↦ failed not_found
    | some e ↦
        if may_act org db.org_id
        then (if decided_status m.status
            then failed completed_immutable
            else after_status (db.published && e.is_public) (Save.set_status id status now db))
        else failed forbidden
  ]
]

-- What `Get` of internal/match/repository.go returns: the row and its slots in their order.
pub record MatchView : Type 0 where
  pub header : MatchRow
  pub participants : List SlotRow

pub insert_slot : SlotRow → List SlotRow → List SlotRow
insert_slot s [] = s ∷ []
insert_slot s (x ∷ slots) = if ltb x.slot s.slot then x ∷ insert_slot s slots else s ∷ x ∷ slots

pub slots_of : ℕ → List SlotRow → List SlotRow
slots_of id [] = []
slots_of id (s ∷ slots) =
    let rest = slots_of id slots in if s.match_id == id then insert_slot s rest else rest

pub get : ℕ → Tables → Option MatchView
get id db = elim (find_match id db.matches) [
  | none ↦ none
  | some m ↦ some (record { header = m; participants = slots_of id db.slots })
]

-- The anonymous read; a match that is not public is not found.
pub get_public : ℕ → Tables → Option MatchView
get_public id db = elim (find_match id db.matches) [
  | none ↦ none
  | some m ↦ elim (find_event m.event_id db.events) [
    | none ↦ none
    | some e ↦ if db.published && e.is_public then get id db else none
  ]
]
