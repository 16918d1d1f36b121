-- ===== src/Schedule/Conflicts.antt =====
-- internal/schedule/repository.go: `validateSlotWrite`, the conflicts of a write.
use tourney_api.Prelude.{
  ℕ, ◌+◌, Bool, true, false, not, ◌&&◌, ◌||◌, Option, none, some, List, [], ◌∷◌, ◌++◌, map, ltb,
  leb, ◌==◌, if◌then◌else◌,
}
use tourney_api.Match.Scoring.{decided_status}
use tourney_api.Schedule.{
  Court, CourtMatch, CourtSlot, Schedule, Conflict, ConflictKind, court_overlap,
  participant_overlap, rest_buffer_kind, bad_range, conflict, Reply, ◌>>◌, check, find_court_match,
  find_court, rest_buffer,
}

-- `slotWrite`; `slot_id` is nil for a new slot.
pub record SlotWrite : Type 0 where
  pub slot_id : Option ℕ
  pub tournament_id : ℕ
  pub court_id : ℕ
  pub match_id : Option ℕ
  pub starts_at : ℕ
  pub ends_at : ℕ
  pub override_rest : Bool
  pub actor : ℕ
  pub org_id : ℕ

-- `tstzrange(a, b, '[)') && tstzrange(c, d, '[)')`: an empty range meets none.
unfoldable pub ranges_overlap : ℕ → ℕ → ℕ → ℕ → Bool
ranges_overlap a b c d = (ltb a b && ltb c d) && (ltb a d && ltb c b)

-- A range with `rest_buffer` before and after it against [c, d): what is taken from its start is
-- added to the other side.
unfoldable pub near : ℕ → ℕ → ℕ → ℕ → Bool
near a b c d =
    (ltb a (b + rest_buffer + rest_buffer) && ltb c d)
    && (ltb a (d + rest_buffer) && ltb c (b + rest_buffer))

-- `$1::uuid IS NULL OR s.id <> $1`.
unfoldable pub other_slot : Option ℕ → CourtSlot → Bool
other_slot none s = true
other_slot (some id) s = not (s.id == id)

unfoldable pub filter {ℓ} : {A : Type ℓ} → (A → Bool) → List A → List A
filter p [] = []
filter p (x ∷ xs) = let rest = filter p xs in if p x then x ∷ rest else rest

unfoldable pub some_of {ℓ} : {A : Type ℓ} → (A → Bool) → List A → Bool
some_of p [] = false
some_of p (x ∷ xs) = p x || some_of p xs

-- The participants that are not NULL.
unfoldable pub not_null : List (Option ℕ) → List ℕ
not_null [] = []
not_null (none ∷ ps) = not_null ps
not_null (some p ∷ ps) = p ∷ not_null ps

unfoldable pub match_players : ℕ → List CourtMatch → List ℕ
match_players id matches = elim (find_court_match id matches) [
  | none ↦ []
  | some m ↦ not_null m.participants
]

-- The participants that a slot keeps busy: those of its match, while that one is not decided.
unfoldable pub occupied : Option ℕ → List CourtMatch → List ℕ
occupied none matches = []
occupied (some id) matches = elim (find_court_match id matches) [
  | none ↦ []
  | some m ↦ if decided_status m.status then [] else not_null m.participants
]

unfoldable pub shares : List ℕ → List ℕ → Bool
shares xs ys = some_of (λ x. some_of (λ y. x == y) ys) xs

-- `ORDER BY s.starts_at`.
unfoldable pub insert_by_start : CourtSlot → List CourtSlot → List CourtSlot
insert_by_start s [] = s ∷ []
insert_by_start s (t ∷ slots) =
    let rest = insert_by_start s slots in
    if leb s.starts_at t.starts_at then s ∷ t ∷ slots else t ∷ rest

unfoldable pub by_start : List CourtSlot → List CourtSlot
by_start [] = []
by_start (s ∷ slots) = insert_by_start s (by_start slots)

abbrev pub name_of_court : List Court → ℕ → Option ℕ
name_of_court courts id = elim (find_court id courts) [ none ↦ none | some c ↦ some c.name ]

abbrev pub conflict_of : List Court → ConflictKind → CourtSlot → Conflict
conflict_of courts kind s = record {
  kind = kind;
  slot_id = s.id;
  court_id = s.court_id;
  court_name = name_of_court courts s.court_id;
  match_id = s.match_id;
  starts_at = s.starts_at;
  ends_at = s.ends_at;
}

unfoldable pub on_court : SlotWrite → CourtSlot → Bool
on_court w s =
    s.court_id == w.court_id
    && (other_slot w.slot_id s && ranges_overlap w.starts_at w.ends_at s.starts_at s.ends_at)

-- The second query: a slot of an undecided match with a participant of the written match.
unfoldable pub is_candidate : List CourtMatch → SlotWrite → ℕ → CourtSlot → Bool
is_candidate matches w m s =
    other_slot w.slot_id s
    && (shares (match_players m matches) (occupied s.match_id matches)
        && near w.starts_at w.ends_at s.starts_at s.ends_at)

unfoldable pub candidates : List CourtMatch → SlotWrite → List CourtSlot → List CourtSlot
candidates matches w slots = elim w.match_id [
  | none ↦ []
  | some m ↦ by_start (filter (is_candidate matches w m) slots)
]

-- `cf.StartsAt.Before(w.endsAt) && w.startsAt.Before(cf.EndsAt)`.
unfoldable pub overlaps : SlotWrite → CourtSlot → Bool
overlaps w s = ltb s.starts_at w.ends_at && ltb w.starts_at s.ends_at

unfoldable pub hard_conflicts : Schedule → SlotWrite → List Conflict
hard_conflicts db w =
    map (conflict_of db.courts court_overlap) (by_start (filter (on_court w) db.slots))
    ++ map (conflict_of db.courts participant_overlap)
        (filter (overlaps w) (candidates db.matches w db.slots))

unfoldable pub rest_conflicts : Schedule → SlotWrite → List Conflict
rest_conflicts db w =
    map (conflict_of db.courts rest_buffer_kind)
      (filter (λ s. not (overlaps w s)) (candidates db.matches w db.slots))

unfoldable pub is_nil {ℓ} : {A : Type ℓ} → List A → Bool
is_nil [] = true
is_nil (x ∷ xs) = false

-- `tstzrange` fails on bounds that are out of order.
unfoldable pub validate_slot_write : Schedule → SlotWrite → Reply (Unit {0})
validate_slot_write db w = do
  check (leb w.starts_at w.ends_at) bad_range
  let hard = hard_conflicts db w
  let rest = rest_conflicts db w
  check (is_nil hard && (is_nil rest || w.override_rest)) (conflict hard rest)
