-- ===== src/Schedule/Service.antt =====
-- internal/schedule/service.go: the calls of an organizer. `orgID` is nil for a super admin.
-- `uuid.Parse` and `time.Parse` are the parameters `parse_uuid` and `parse_time`.
use tourney_api.Prelude.{ℕ, Bool, Option, none, some, [], ◌∷◌, ltb, if◌then◌else◌}
use tourney_api.Auth.Email.{Bytes}
use tourney_api.Draw.Fixtures.{may_act}
use tourney_api.Schedule.{
  TournamentRow, Schedule, Reply, refused, done, ◌>>=◌, ◌>>◌, check, the_row, forbidden,
  invalid_request, find_slot, find_tournament,
}
use tourney_api.Schedule.Conflicts.{SlotWrite}
use tourney_api.Schedule.Write.{write_slot, delete_slot}

pub record CreateSlotRequest : Type 0 where
  pub tournament_id : Bytes
  pub court_id : Bytes
  pub match_id : Option Bytes
  pub starts_at : Bytes
  pub ends_at : Bytes
  pub override_rest_buffer : Bool

pub record UpdateSlotRequest : Type 0 where
  pub court_id : Bytes
  pub match_id : Option Bytes
  pub starts_at : Bytes
  pub ends_at : Bytes
  pub override_rest_buffer : Bool

-- `TournamentOrg`, and what the callers do with it.
unfoldable pub authorize_tournament : ℕ → Option ℕ → Schedule → Reply ℕ
authorize_tournament id org db = do
  t ← the_row (find_tournament id db.tournaments)
  check (may_act org t.org_id) forbidden
  done t.org_id

-- `SlotTournamentOrg`, a join: a slot whose tournament has no row is not found.
unfoldable pub slot_tournament : ℕ → Schedule → Reply TournamentRow
slot_tournament id db = do
  s ← the_row (find_slot id db.slots)
  the_row (find_tournament s.tournament_id db.tournaments)

unfoldable pub broadcast_slug : ℕ → Schedule → Bytes
broadcast_slug id db = elim (find_tournament id db.tournaments) [
  | none ↦ []
  | some t ↦ if t.published then t.slug else []
]

pub record SlotFields : Type 0 where
  pub court : ℕ
  pub match : Option ℕ
  pub starts : ℕ
  pub ends : ℕ

abbrev pub parsed {ℓ} : {A : Type ℓ} → Option A → Reply A
parsed none = refused invalid_request
parsed (some a) = done a

module _ (parse_uuid : Bytes → Option ℕ) (parse_time : Bytes → Option ℕ) where
  -- A missing or an empty match id is none.
  unfoldable pub parse_match : Option Bytes → Reply (Option ℕ)
  parse_match none = done none
  parse_match (some []) = done none
  parse_match (some (c ∷ text)) = elim (parse_uuid (c ∷ text)) [
    | none ↦ refused invalid_request
    | some m ↦ done (some m)
  ]

  unfoldable pub parse_slot_fields : Bytes → Option Bytes → Bytes → Bytes → Reply SlotFields
  parse_slot_fields court_id match_id starts_at ends_at = do
    court ← parsed (parse_uuid court_id)
    match ← parse_match match_id
    starts ← parsed (parse_time starts_at)
    ends ← parsed (parse_time ends_at)
    check (ltb starts ends) invalid_request
    done (record { court = court; match = match; starts = starts; ends = ends })

  -- The id of the slot with the slug that the change is broadcast to.
  unfoldable pub create_slot :
      ℕ → Option ℕ → CreateSlotRequest → Schedule → Reply (ℕ × Bytes × Schedule)
  create_slot actor org req db = do
    tid ← parsed (parse_uuid req.tournament_id)
    owner ← authorize_tournament tid org db
    f ← parse_slot_fields req.court_id req.match_id req.starts_at req.ends_at
    let w : SlotWrite = record {
      slot_id = none;
      tournament_id = tid;
      court_id = f.court;
      match_id = f.match;
      starts_at = f.starts;
      ends_at = f.ends;
      override_rest = req.override_rest_buffer;
      actor = actor;
      org_id = owner;
    }
    written ← write_slot w db
    let (id, after) = written
    done (id, broadcast_slug tid after, after)

  unfoldable pub update_slot :
      ℕ → ℕ → Option ℕ → UpdateSlotRequest → Schedule → Reply (ℕ × Bytes × Schedule)
  update_slot id actor org req db = do
    t ← slot_tournament id db
    check (may_act org t.org_id) forbidden
    f ← parse_slot_fields req.court_id req.match_id req.starts_at req.ends_at
    let w : SlotWrite = record {
      slot_id = some id;
      tournament_id = t.id;
      court_id = f.court;
      match_id = f.match;
      starts_at = f.starts;
      ends_at = f.ends;
      override_rest = req.override_rest_buffer;
      actor = actor;
      org_id = t.org_id;
    }
    written ← write_slot w db
    let (slot, after) = written
    done (slot, broadcast_slug t.id after, after)

unfoldable pub cancel_slot : ℕ → ℕ → Option ℕ → Schedule → Reply (Bytes × Schedule)
cancel_slot id actor org db = do
  t ← slot_tournament id db
  check (may_act org t.org_id) forbidden
  removed ← delete_slot id actor t.org_id db
  let (tid, after) = removed
  done (broadcast_slug tid after, after)
