-- ===== src/Schedule/Calls.antt =====
-- internal/schedule/service.go: any calls of organizers, one after another.
use tourney_api.Prelude.{ℕ, ◌≡◌, Bool, sym, inl, inr, Option, Option-cases, List, [], ◌∷◌}
use mathlib.Core.Path.{subst}
use tourney_api.Auth.Email.{Bytes}
use tourney_api.Draw.Fixtures.{may_act}
use tourney_api.Schedule.{Schedule, CourtSlot, Reply, refused, done, ◌>>=◌, ◌>>◌, check, forbidden}
use tourney_api.Schedule.Conflicts.{SlotWrite}
use tourney_api.Schedule.Write.{write_slot, delete_slot}
use tourney_api.Schedule.Accept.{write_slot_new, write_slot_old}
use tourney_api.Schedule.Service.{
  CreateSlotRequest, UpdateSlotRequest, authorize_tournament, slot_tournament, parsed,
  parse_slot_fields, create_slot, update_slot, cancel_slot,
}
use tourney_api.Schedule.Lists.{create_court, insert_court, default_venue, first_venue}
use tourney_api.Schedule.Kept.{
  IsSound, Yields, Sound, some_of-suc, create_row-IsSound, update_row-IsSound, delete_slot-IsSound,
}

-- A call with the user that makes it and the organization that the user acts for.
pub data Call : Type 0 where
  book : ℕ → Option ℕ → CreateSlotRequest → Call
  move : (slot : ℕ) → ℕ → Option ℕ → UpdateSlotRequest → Call
  cancel : (slot : ℕ) → ℕ → Option ℕ → Call
  add_court : (tournament : ℕ) → Option ℕ → (name : ℕ) → (sort_order : ℕ) → Call

-- The rows after a call, which a refusal leaves.
abbrev pub after_call {ℓ} : {A : Type ℓ} → (A → Schedule) → Schedule → Reply A → Schedule
after_call f db (refused e) = db
after_call f db (done a) = f a

abbrev slot_written : ℕ × Bytes × Schedule → Schedule
slot_written result = let (id, slug, after) = result in after

module _ (parse_uuid : Bytes → Option ℕ) (parse_time : Bytes → Option ℕ) where
  unfoldable pub call : Call → Schedule → Schedule
  call (book actor org req) db =
      after_call slot_written db (create_slot parse_uuid parse_time actor org req db)
  call (move slot actor org req) db =
      after_call slot_written db (update_slot parse_uuid parse_time slot actor org req db)
  call (cancel slot actor org) db =
      after_call (λ result. let (slug, after) = result in after) db (cancel_slot slot actor org db)
  call (add_court tid org name sort_order) db =
      after_call (λ result. let (court, after) = result in after) db
        (create_court tid org name sort_order db)

  unfoldable pub calls : List Call → Schedule → Schedule
  calls [] db = db
  calls (c ∷ cs) db = calls cs (call c db)

Yields-bind :
    {A B : Type 0} (Q : A → Type 0) (P : B → Type 0) (first : Reply A) (next : A → Reply B)
    → Yields Q first
    → ((a : A) → Q a → Yields P (next a))
    → Yields P (first >>= next)
Yields-bind Q P (refused e) next h step = tt
Yields-bind Q P (done a) next h step = step a h

-- Any value does.
Yields-any :
    {A B : Type 0} (P : B → Type 0) (first : Reply A) (next : A → Reply B)
    → ((a : A) → Yields P (next a))
    → Yields P (first >>= next)
Yields-any P (refused e) next step = tt
Yields-any P (done a) next step = step a

Yields-check :
    {B : Type 0} (P : B → Type 0) (first : Reply (Unit {0})) (next : Reply B)
    → Yields P next
    → Yields P (first >> next)
Yields-check P (refused e) next h = tt
Yields-check P (done passed) next h = h

Yields-after_call :
    {A : Type 0} (P : Schedule → Type 0) (f : A → Schedule) (db : Schedule) (o : Reply A)
    → P db
    → Yields (λ a. P (f a)) o
    → P (after_call f db o)
Yields-after_call P f db (refused e) sound h = sound
Yields-after_call P f db (done a) sound h = h

module _ (excused : CourtSlot → CourtSlot → Bool)
    (symmetric : (a b : CourtSlot) → excused a b ≡ excused b a) (parse_uuid : Bytes → Option ℕ)
    (parse_time : Bytes → Option ℕ) where
  write_slot-IsSound :
      (w : SlotWrite) (db : Schedule)
      → IsSound excused db
      → Yields (Sound excused) (write_slot w db)
  write_slot-IsSound w db sound = elim (Option-cases w.slot_id) [
    | inl e ↦
        subst (Yields (Sound excused)) (sym (write_slot_new w db e))
          (create_row-IsSound excused symmetric w db e sound)
    | inr (id, e) ↦
        subst (Yields (Sound excused)) (sym (write_slot_old id w db e))
          (update_row-IsSound excused symmetric id w db e sound)
  ]

  default_venue-IsSound :
      (tid : ℕ) (db : Schedule)
      → IsSound excused db
      → (let (id, after) = default_venue tid db in IsSound excused after)
  unfolding default_venue
  default_venue-IsSound tid db (fresh, apart) = elim (Option-cases (first_venue tid db.venues)) [
    | inl e ↦ rw (default_venue, e) (some_of-suc db.next_id db.slots fresh, apart)
    | inr (id, e) ↦ rw (default_venue, e) (fresh, apart)
  ]

  create_court-IsSound :
      (tid : ℕ) (org : Option ℕ) (name sort_order : ℕ) (db : Schedule)
      → IsSound excused db
      → Yields
          (λ result. let (court, after) = result in IsSound excused after)
          (create_court tid org name sort_order db)
  unfolding create_court insert_court
  create_court-IsSound tid org name sort_order db sound =
      Yields-any _ (authorize_tournament tid org db) _ (λ owner.
        let (fresh, apart) = default_venue-IsSound tid db sound in
        let (venue, with_venue) = default_venue tid db in
        (some_of-suc with_venue.next_id with_venue.slots fresh, apart))

  create_slot-IsSound :
      (actor : ℕ) (org : Option ℕ) (req : CreateSlotRequest) (db : Schedule)
      → IsSound excused db
      → Yields
          (λ result. IsSound excused (slot_written result))
          (create_slot parse_uuid parse_time actor org req db)
  unfolding create_slot
  create_slot-IsSound actor org req db sound =
      Yields-any _ (parsed (parse_uuid req.tournament_id)) _ (λ tid.
        Yields-any _ (authorize_tournament tid org db) _ (λ owner.
          Yields-any _
            (parse_slot_fields parse_uuid parse_time req.court_id req.match_id req.starts_at
              req.ends_at)
            _
            (λ f.
              Yields-bind (Sound excused) _ (write_slot _ db) _ (write_slot-IsSound _ db sound)
                (λ written after_sound. after_sound))))

  update_slot-IsSound :
      (slot actor : ℕ) (org : Option ℕ) (req : UpdateSlotRequest) (db : Schedule)
      → IsSound excused db
      → Yields
          (λ result. IsSound excused (slot_written result))
          (update_slot parse_uuid parse_time slot actor org req db)
  unfolding update_slot
  update_slot-IsSound slot actor org req db sound = Yields-any _ (slot_tournament slot db) _ (λ t.
      Yields-check _ (check (may_act org t.org_id) forbidden) _ (
        Yields-any _
          (parse_slot_fields parse_uuid parse_time req.court_id req.match_id req.starts_at
            req.ends_at)
          _
          (λ f.
            Yields-bind (Sound excused) _ (write_slot _ db) _ (write_slot-IsSound _ db sound)
              (λ written after_sound. after_sound))))

  cancel_slot-IsSound :
      (slot actor : ℕ) (org : Option ℕ) (db : Schedule)
      → IsSound excused db
      → Yields
          (λ result. let (slug, after) = result in IsSound excused after)
          (cancel_slot slot actor org db)
  unfolding cancel_slot
  cancel_slot-IsSound slot actor org db sound = Yields-any _ (slot_tournament slot db) _ (λ t.
      Yields-check _ (check (may_act org t.org_id) forbidden) _ (
        Yields-bind (Sound excused) _ (delete_slot slot actor t.org_id db) _
          (delete_slot-IsSound excused symmetric slot actor t.org_id db sound)
          (λ removed after_sound. after_sound)))

  call-IsSound :
      (c : Call) (db : Schedule)
      → IsSound excused db
      → IsSound excused (call parse_uuid parse_time c db)
  unfolding call
  call-IsSound (book actor org req) db sound =
      Yields-after_call (IsSound excused) slot_written db
        (create_slot parse_uuid parse_time actor org req db) sound
        (create_slot-IsSound actor org req db sound)
  call-IsSound (move slot actor org req) db sound =
      Yields-after_call (IsSound excused) slot_written db
        (update_slot parse_uuid parse_time slot actor org req db) sound
        (update_slot-IsSound slot actor org req db sound)
  call-IsSound (cancel slot actor org) db sound =
      Yields-after_call (IsSound excused) _ db (cancel_slot slot actor org db) sound
        (cancel_slot-IsSound slot actor org db sound)
  call-IsSound (add_court tid org name sort_order) db sound =
      Yields-after_call (IsSound excused) _ db (create_court tid org name sort_order db) sound
        (create_court-IsSound tid org name sort_order db sound)

  -- Let some pairs of slots be excused, in either order: those, for example, that a change of a match
  -- has made meet. From a schedule in which the ids of the slots differ and are below the next one,
  -- and only excused pairs that meet in time are on one court or have a player of undecided matches in
  -- common, any calls that book, change and cancel slots and add courts lead to such schedules again,
  -- with the same pairs excused. The players and the statuses of the matches change through no other
  -- calls in between.
  pub calls-IsSound :
      (cs : List Call) (db : Schedule)
      → IsSound excused db
      → IsSound excused (calls parse_uuid parse_time cs db)
  unfolding calls
  calls-IsSound [] db sound = sound
  calls-IsSound (c ∷ cs) db sound =
      calls-IsSound cs (call parse_uuid parse_time c db) (call-IsSound c db sound)
