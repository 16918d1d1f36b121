-- ===== src/Schedule.antt =====
-- internal/schedule: the slots of the courts, as rows of `schedule_slots` with what the queries read
-- of the other tables. A uuid is a number; a time is a number of microseconds. A call is a step of
-- its own, which the advisory lock makes it within a tournament, and a refused call has rolled back.
-- The display label of a match is left out.
pub mod Conflicts
pub mod Write
pub mod Service
pub mod Lists
pub mod Somes
pub mod Accept
pub mod Apart
pub mod Busy
pub mod Kept
pub mod Calls
mod Tests
use tourney_api.Prelude.{
  ℕ, ◌*◌, Bool, true, false, Option, none, some, List, [], ◌∷◌, map, ◌==◌, if◌then◌else◌,
}
use tourney_api.Match.Scoring.{Status, decided_status}
use tourney_api.Auth.Email.{Bytes}

pub record TournamentRow : Type 0 where
  pub id : ℕ
  pub org_id : ℕ
  pub slug : Bytes
  pub published : Bool

pub record Venue : Type 0 where
  pub id : ℕ
  pub tournament_id : ℕ

-- A name is its rank in the database's order of texts.
pub record Court : Type 0 where
  pub id : ℕ
  pub venue_id : ℕ
  pub name : ℕ
  pub sort_order : ℕ

pub record Division : Type 0 where
  pub id : ℕ
  pub name : ℕ
  pub public_display_name : Option ℕ
  pub is_public : Bool

-- A row of `matches` with the participants of its rows of `match_participants`.
pub record CourtMatch : Type 0 where
  pub id : ℕ
  pub event_id : ℕ
  pub status : Status
  pub scheduled_at : Option ℕ
  pub court_id : Option ℕ
  pub participants : List (Option ℕ)

pub record CourtSlot : Type 0 where
  pub id : ℕ
  pub tournament_id : ℕ
  pub court_id : ℕ
  pub match_id : Option ℕ
  pub starts_at : ℕ
  pub ends_at : ℕ

pub data Action : Type 0 where
  slot_create slot_update slot_delete : Action

-- The audit entry of a change: the slot before it and after it, as the diff has them.
pub record SlotEntry : Type 0 where
  pub actor : ℕ
  pub org_id : ℕ
  pub tournament_id : ℕ
  pub action : Action
  pub target : ℕ
  pub before : Option CourtSlot
  pub after : Option CourtSlot
  pub rest_override : Bool

pub record Schedule : Type 0 where
  pub tournaments : List TournamentRow
  pub venues : List Venue
  pub courts : List Court
  pub events : List Division
  pub matches : List CourtMatch
  pub slots : List CourtSlot
  pub next_id : ℕ
  pub audit : List SlotEntry

pub data ConflictKind : Type 0 where
  court_overlap participant_overlap rest_buffer_kind : ConflictKind

pub record Conflict : Type 0 where
  pub kind : ConflictKind
  pub slot_id : ℕ
  pub court_id : ℕ
  pub court_name : Option ℕ
  pub match_id : Option ℕ
  pub starts_at : ℕ
  pub ends_at : ℕ

pub data ScheduleError : Type 0 where
  not_found forbidden state_conflict bad_range bad_reference invalid_request : ScheduleError
  conflict : (hard : List Conflict) (rest : List Conflict) → ScheduleError

-- What a call returns: an error and no change, or a value.
pub data Reply {ℓ} (A : Type ℓ) : Type ℓ where
  refused : ScheduleError → Reply A
  done : A → Reply A

infixl 5 ◌>>=◌ ◌>>◌
abbrev pub ◌>>=◌ {ℓ κ} : {A : Type ℓ} {B : Type κ} → Reply A → (A → Reply B) → Reply B
refused e >>= rest = refused e
done value >>= rest = rest value

abbrev pub ◌>>◌ {κ} : {B : Type κ} → Reply (Unit {0}) → Reply B → Reply B
refused e >> rest = refused e
done passed >> rest = rest

abbrev pub check : Bool → ScheduleError → Reply (Unit {0})
check holds e = if holds then done tt else refused e

-- What a query for one row returns, where no row is `ErrNotFound`.
abbrev pub the_row {ℓ} : {A : Type ℓ} → Option A → Reply A
the_row none = refused not_found
the_row (some row) = done row

unfoldable pub find_slot : ℕ → List CourtSlot → Option CourtSlot
find_slot id [] = none
find_slot id (s ∷ slots) = if s.id == id then some s else find_slot id slots

unfoldable pub find_court_match : ℕ → List CourtMatch → Option CourtMatch
find_court_match id [] = none
find_court_match id (m ∷ matches) = if m.id == id then some m else find_court_match id matches

unfoldable pub find_court : ℕ → List Court → Option Court
find_court id [] = none
find_court id (c ∷ courts) = if c.id == id then some c else find_court id courts

unfoldable pub find_tournament : ℕ → List TournamentRow → Option TournamentRow
find_tournament id [] = none
find_tournament id (t ∷ rows) = if t.id == id then some t else find_tournament id rows

-- Thirty minutes.
abbrev pub rest_buffer : ℕ
rest_buffer = 30 * 60 * 1000000
