-- ===== src/Draw/Tables.antt =====
-- The rows that draws and scores share: internal/db's `matches` with its `match_scores`,
-- `match_participants`, `groups` and `participants`, for the events of one tournament. A uuid is a
-- number, and a time a number of microseconds.
pub mod Lookups
use tourney_api.Prelude.{
  ℕ, ◌≡◌, Bool, true, false, not, ◌&&◌, ◌||◌, Option, none, some, List, [], ◌∷◌, map, ◌==◌,
  if◌then◌else◌, String, arith,
}
use tourney_api.Match.Scoring.{SetScore, Status, Completion}
use tourney_api.Match.Config.{ScoringDoc}
use tourney_api.Draw.Fixtures.{Format}

pub data StageKind : Type 0 where
  group knockout : StageKind

-- `source_type` with the columns that it uses.
pub data Source : Type 0 where
  fixed empty bye : Source
  match_winner : ℕ → Source
  group_placement : ℕ → ℕ → Source

pub record MatchRow : Type 0 where
  pub id : ℕ
  pub event_id : ℕ
  pub match_no : ℕ
  pub stage : Option StageKind
  pub group_id : Option ℕ
  pub status : Status
  pub winner_participant_id : Option ℕ
  pub next_match_id : Option ℕ
  pub next_slot : Option ℕ
  pub started_at : Option ℕ
  pub completed_at : Option ℕ
  pub sets : List SetScore

pub record SlotRow : Type 0 where
  pub match_id : ℕ
  pub slot : ℕ
  pub participant_id : Option ℕ
  pub source : Source
  pub label : String

pub record GroupRow : Type 0 where
  pub id : ℕ
  pub event_id : ℕ
  pub name : String
  pub advance_count : ℕ

-- A display name is its rank in the database's order of texts.
pub record PlayerRow : Type 0 where
  pub id : ℕ
  pub event_id : ℕ
  pub display_name : ℕ
  pub seed : Option ℕ

pub record ScoreState : Type 0 where
  pub status : Status
  pub winner : Option ℕ
  pub sets : List SetScore

-- The audit entry `match.score`.
pub record ScoreEntry : Type 0 where
  pub actor : ℕ
  pub target : ℕ
  pub before : ScoreState
  pub after : ScoreState
  pub completion : Completion
  pub downstream_rebuilt : ℕ
  pub placements_rebuilt : ℕ

pub record EventRow : Type 0 where
  pub id : ℕ
  pub format : Format
  pub is_public : Bool
  pub manual_pairing : Bool
  pub scoring : ScoringDoc

pub record Tables : Type 0 where
  pub org_id : ℕ
  pub published : Bool
  pub events : List EventRow
  pub players : List PlayerRow
  pub groups : List GroupRow
  pub matches : List MatchRow
  pub slots : List SlotRow
  pub next_id : ℕ
  pub scores_audit : List ScoreEntry

unfoldable pub find_match : ℕ → List MatchRow → Option MatchRow
find_match id [] = none
find_match id (m ∷ matches) = if m.id == id then some m else find_match id matches

-- `UPDATE matches SET … WHERE id = $1`.
unfoldable pub update_match : ℕ → (MatchRow → MatchRow) → List MatchRow → List MatchRow
update_match id f = map (λ m. if m.id == id then f m else m)

unfoldable pub find_event : ℕ → List EventRow → Option EventRow
find_event id [] = none
find_event id (e ∷ events) = if e.id == id then some e else find_event id events

-- `uuidPtrEq`.
abbrev pub uuid_ptr_eq : Option ℕ → Option ℕ → Bool
uuid_ptr_eq none none = true
uuid_ptr_eq none (some b) = false
uuid_ptr_eq (some a) none = false
uuid_ptr_eq (some a) (some b) = a == b

pub uuid_ptr_eq-eq : (a b : Option ℕ) → uuid_ptr_eq a b ≡ true → a ≡ b
uuid_ptr_eq-eq none none h = ground arith
uuid_ptr_eq-eq none (some b) h = ground arith
uuid_ptr_eq-eq (some a) none h = ground arith
uuid_ptr_eq-eq (some a) (some b) h = ground arith
