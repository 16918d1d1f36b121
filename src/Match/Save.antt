-- ===== src/Match/Save.antt =====
-- `SaveScore` and `SetStatus` of internal/match/repository.go. `SaveScore` is one transaction: what
-- it refuses has changed nothing. `now` is the database's clock.
pub mod Tests
pub mod Runs
pub mod Feeds
pub mod Locks
use tourney_api.Prelude.{
  ℕ, suc, ◌+◌, Bool, true, false, not, ◌&&◌, ◌||◌, Option, none, some, List, [], ◌∷◌, map, ◌==◌,
  if◌then◌else◌,
}
use tourney_api.Match.Scoring.{SetScore, Status, live, completed, bye, Completion, decided_status}
use tourney_api.Draw.Tables.{
  MatchRow, SlotRow, Tables, Source, match_winner, ScoreState, ScoreEntry, find_match, update_match,
  uuid_ptr_eq,
}
use tourney_api.Draw.Rebuild.{
  LockedSlot, Rebuilt, refused, rebuilt, rebuild, rebuild_group_placements,
}

pub record SaveInput : Type 0 where
  pub match_id : ℕ
  pub sets : List SetScore
  pub status : Status
  pub completion : Completion
  pub winner_id : Option ℕ
  pub actor : ℕ

pub data Saved : Type 0 where
  saved : Tables → Saved
  match_not_found : Saved
  downstream_locked : LockedSlot → List LockedSlot → Saved

abbrev pub or_now : ℕ → Option ℕ → Option ℕ
or_now now none = some now
or_now now (some t) = some t

-- The `CASE` of `completed_at`.
abbrev pub is_final : Status → Bool
is_final completed = true
is_final Status.walkover = true
is_final Status.retired = true
is_final Status.cancelled = true
is_final _ = false

-- The match row after its sets are replaced and its result is written.
unfoldable pub score_row : SaveInput → ℕ → MatchRow → MatchRow
score_row inp now m = record m {
  sets = inp.sets;
  status = inp.status;
  winner_participant_id = inp.winner_id;
  started_at = or_now now m.started_at;
  completed_at = if is_final inp.status then or_now now m.completed_at else none;
}

-- A slot that the match's winner feeds should hold the winner.
pub wanted_winner : ℕ → Option ℕ → SlotRow → Option (Option ℕ)
wanted_winner id winner s = elim s.source [
  | match_winner m ↦ if m == id then some winner else none
  | _ ↦ none
]

pub rebuild_winner_feeds : SaveInput → Option ℕ → List MatchRow → List SlotRow → Rebuilt
rebuild_winner_feeds inp old_winner matches slots =
    if uuid_ptr_eq old_winner inp.winner_id
    then rebuilt 0 slots
    else rebuild matches (wanted_winner inp.match_id inp.winner_id) slots

-- The matches of a group that are still to be decided.
pub remaining_in_group : ℕ → List MatchRow → ℕ
remaining_in_group group [] = 0
remaining_in_group group (m ∷ matches) =
    let rest = remaining_in_group group matches in
    if uuid_ptr_eq m.group_id (some group) && not (decided_status m.status) then suc rest else rest

-- The placements of the group, if the match has one and enters or leaves a decided state.
pub rebuild_placements : SaveInput → MatchRow → Tables → Rebuilt
rebuild_placements inp old db = elim old.group_id [
  | none ↦ rebuilt 0 db.slots
  | some g ↦
      if decided_status old.status || decided_status inp.status
      then rebuild_group_placements g (remaining_in_group g db.matches == 0) db
      else rebuilt 0 db.slots
]

pub score_entry : SaveInput → MatchRow → ℕ → ℕ → ScoreEntry
score_entry inp old downstream placements = record {
  actor = inp.actor;
  target = inp.match_id;
  before = record { status = old.status; winner = old.winner_participant_id; sets = old.sets };
  after = record { status = inp.status; winner = inp.winner_id; sets = inp.sets };
  completion = inp.completion;
  downstream_rebuilt = downstream;
  placements_rebuilt = placements;
}

pub save_placements : SaveInput → MatchRow → Tables → ℕ → Rebuilt → Saved
save_placements inp old db downstream (refused l locked) = downstream_locked l locked
save_placements inp old db downstream (rebuilt n slots) =
    saved (record db {
      slots = slots;
      scores_audit = score_entry inp old downstream n ∷ db.scores_audit;
    })

pub save_feeds : SaveInput → MatchRow → Tables → Rebuilt → Saved
save_feeds inp old db (refused l locked) = downstream_locked l locked
save_feeds inp old db (rebuilt n slots) =
    let db' = record db { slots = slots } in
    save_placements inp old db' n (rebuild_placements inp old db')

pub save_score : SaveInput → ℕ → Tables → Saved
save_score inp now db = elim (find_match inp.match_id db.matches) [
  | none ↦ match_not_found
  | some old ↦
      let matches = update_match inp.match_id (score_row inp now) db.matches in
      save_feeds inp old (record db { matches = matches })
        (rebuild_winner_feeds inp old.winner_participant_id matches db.slots)
]

abbrev pub is_live : Status → Bool
is_live live = true
is_live _ = false

pub set_status : ℕ → Status → ℕ → Tables → Saved
set_status id status now db = elim (find_match id db.matches) [
  | none ↦ match_not_found
  | some m ↦ saved (record db {
    matches =
        update_match id
          (λ r. record r {
            status = status;
            started_at = if is_live status then or_now now r.started_at else r.started_at;
          })
          db.matches;
  })
]
