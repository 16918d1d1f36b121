-- ===== src/Schedule/Lists.antt =====
-- internal/schedule: the courts, and the schedule that an organizer and a visitor read.
use tourney_api.Prelude.{
  ℕ, suc, Bool, true, false, not, ◌&&◌, ◌||◌, Option, none, some, List, [], ◌∷◌, map, ltb, leb,
  ◌==◌, if◌then◌else◌,
}
use tourney_api.Match.Scoring.{Status}
use tourney_api.Auth.Email.{Bytes, same_bytes}
use tourney_api.Schedule.{
  TournamentRow, Venue, Court, Division, CourtMatch, CourtSlot, Schedule, Reply, done, ◌>>=◌,
  the_row, find_court_match, find_court,
}
use tourney_api.Schedule.Conflicts.{filter, some_of, name_of_court}
use tourney_api.Schedule.Service.{authorize_tournament}

-- `SELECT id FROM venues … ORDER BY id LIMIT 1`.
unfoldable pub first_venue : ℕ → List Venue → Option ℕ
first_venue tid [] = none
first_venue tid (v ∷ venues) =
    let rest = first_venue tid venues in
    if v.tournament_id == tid
    then some (elim rest [ none ↦ v.id | some id ↦ if ltb id v.id then id else v.id ])
    else rest

unfoldable pub default_venue : ℕ → Schedule → ℕ × Schedule
default_venue tid db = elim (first_venue tid db.venues) [
  | some id ↦ (id, db)
  | none ↦
      let v : Venue = record { id = db.next_id; tournament_id = tid } in
      (db.next_id, record db { venues = v ∷ db.venues; next_id = suc db.next_id })
]

unfoldable pub insert_court : ℕ → ℕ → ℕ → Schedule → Court × Schedule
insert_court tid name sort_order db =
    let (venue, with_venue) = default_venue tid db in
    let c : Court = record {
      id = with_venue.next_id;
      venue_id = venue;
      name = name;
      sort_order = sort_order;
    } in
    (c, record with_venue { courts = c ∷ with_venue.courts; next_id = suc with_venue.next_id })

-- The name has been trimmed.
unfoldable pub create_court : ℕ → Option ℕ → ℕ → ℕ → Schedule → Reply (Court × Schedule)
create_court tid org name sort_order db = do
  owner ← authorize_tournament tid org db
  done (insert_court tid name sort_order db)

unfoldable pub has_venue : ℕ → ℕ → List Venue → Bool
has_venue tid venue venues = some_of (λ (v : Venue). v.id == venue && v.tournament_id == tid) venues

-- Rows in the order of a key, and of a second one where the first is the same.
abbrev pub comes_first : ℕ → ℕ → ℕ → ℕ → Bool
comes_first a1 a2 b1 b2 = ltb a1 b1 || (a1 == b1 && leb a2 b2)

unfoldable pub insert_by {ℓ} : {A : Type ℓ} → (A → ℕ) → (A → ℕ) → A → List A → List A
insert_by k1 k2 x [] = x ∷ []
insert_by k1 k2 x (y ∷ ys) =
    let rest = insert_by k1 k2 x ys in
    if comes_first (k1 x) (k2 x) (k1 y) (k2 y) then x ∷ y ∷ ys else y ∷ rest

unfoldable pub order_by {ℓ} : {A : Type ℓ} → (A → ℕ) → (A → ℕ) → List A → List A
order_by k1 k2 [] = []
order_by k1 k2 (x ∷ xs) = insert_by k1 k2 x (order_by k1 k2 xs)

unfoldable pub list_courts : ℕ → Option ℕ → Schedule → Reply (List Court)
list_courts tid org db = do
  owner ← authorize_tournament tid org db
  done (
      order_by (λ c. c.sort_order) (λ c. c.name)
        (filter (λ c. has_venue tid c.venue_id db.venues) db.courts))

-- `Slot`, without the label of the match.
pub record ListedSlot : Type 0 where
  pub slot : CourtSlot
  pub court_name : Option ℕ
  pub event_id : Option ℕ
  pub event_name : Option ℕ
  pub match_status : Option Status

unfoldable pub find_division : ℕ → List Division → Option Division
find_division id [] = none
find_division id (e ∷ events) = if e.id == id then some e else find_division id events

-- The two left joins of a slot.
unfoldable pub match_of : Schedule → CourtSlot → Option CourtMatch
match_of db s = elim s.match_id [ none ↦ none | some m ↦ find_court_match m db.matches ]

unfoldable pub event_of : Schedule → CourtSlot → Option Division
event_of db s = elim (match_of db s) [ none ↦ none | some m ↦ find_division m.event_id db.events ]

-- `s.match_id IS NOT NULL AND e.is_public = true`.
unfoldable pub is_public_slot : Schedule → CourtSlot → Bool
is_public_slot db s = elim s.match_id [
  | none ↦ false
  | some m ↦ elim (event_of db s) [ none ↦ false | some e ↦ e.is_public ]
]

abbrev pub sort_key : List Court → CourtSlot → ℕ
sort_key courts s = elim (find_court s.court_id courts) [ none ↦ 0 | some c ↦ c.sort_order ]

abbrev pub list_row : Schedule → CourtSlot → ListedSlot
list_row db s = record {
  slot = s;
  court_name = name_of_court db.courts s.court_id;
  event_id = elim (match_of db s) [ none ↦ none | some m ↦ some m.event_id ];
  event_name = elim (event_of db s) [
    | none ↦ none
    | some e ↦ elim e.public_display_name [ none ↦ some e.name | some n ↦ some n ]
  ];
  match_status = elim (match_of db s) [ none ↦ none | some m ↦ some m.status ];
}

-- The query of `listSlots`.
unfoldable pub read_slots : ℕ → Bool → Schedule → List ListedSlot
read_slots tid public_only db = map (list_row db) (
    order_by (λ s. s.starts_at) (sort_key db.courts)
      (filter
        (λ (s : CourtSlot). s.tournament_id == tid && (not public_only || is_public_slot db s))
        db.slots))

unfoldable pub list_slots : ℕ → Option ℕ → Schedule → Reply (List ListedSlot)
list_slots tid org db = do owner ← authorize_tournament tid org db; done (read_slots tid false db)

unfoldable pub published_by_slug : Bytes → List TournamentRow → Option TournamentRow
published_by_slug slug [] = none
published_by_slug slug (t ∷ rows) =
    if same_bytes t.slug slug && t.published then some t else published_by_slug slug rows

unfoldable pub list_public_slots : Bytes → Schedule → Reply (List ListedSlot)
list_public_slots slug db = do
  t ← the_row (published_by_slug slug db.tournaments)
  done (read_slots t.id true db)
