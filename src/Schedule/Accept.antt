-- ===== src/Schedule/Accept.antt =====
-- internal/schedule/repository.go: which writes of a slot are accepted.
use tourney_api.Prelude.{
  ℕ, ◌≡◌, refl, sym, ap, ◌∙◌, inl, inr, Bool, Bool-cases, true, false, not, ◌&&◌, ◌||◌, Option,
  Option-cases, none, some, List, [], ◌∷◌, map, ltb, ◌==◌, arith,
}
use tourney_api.Schedule.{
  CourtMatch, CourtSlot, Schedule, court_overlap, participant_overlap, rest_buffer_kind, Reply,
  refused, done, find_slot, ◌>>◌,
}
use tourney_api.Schedule.Conflicts.{
  SlotWrite, ranges_overlap, near, other_slot, filter, some_of, match_players, occupied, shares,
  insert_by_start, by_start, on_court, is_candidate, candidates, overlaps, hard_conflicts,
  rest_conflicts, is_nil, validate_slot_write, conflict_of,
}
use tourney_api.Schedule.Somes.{
  some_of-filter, is_nil-filter, is_nil-append, some_of_same, some_of_or, some_of_none,
  some_of_less,
}
use tourney_api.Schedule.Write.{
  excludes, references, constraints, written_row, create_row, update_row, write_slot,
}

abbrev pub is_done {ℓ} : {A : Type ℓ} → Reply A → Bool
is_done (refused e) = false
is_done (done a) = true

abbrev pub players_written : List CourtMatch → SlotWrite → List ℕ
players_written matches w = elim w.match_id [ none ↦ [] | some m ↦ match_players m matches ]

-- Another slot at the same time, on the court or of an undecided match with one of the players.
abbrev pub blocks : List CourtMatch → SlotWrite → CourtSlot → Bool
blocks matches w s =
    other_slot w.slot_id s
    && (ranges_overlap w.starts_at w.ends_at s.starts_at s.ends_at
        && (s.court_id == w.court_id
            || shares (players_written matches w) (occupied s.match_id matches)))

-- Another slot of an undecided match with one of the players, less than the buffer away.
abbrev pub crowds : List CourtMatch → SlotWrite → CourtSlot → Bool
crowds matches w s =
    other_slot w.slot_id s
    && (near w.starts_at w.ends_at s.starts_at s.ends_at
        && (not (ranges_overlap w.starts_at w.ends_at s.starts_at s.ends_at)
            && shares (players_written matches w) (occupied s.match_id matches)))

abbrev pub is_known : Schedule → Option ℕ → Bool
is_known db none = true
is_known db (some id) = elim (find_slot id db.slots) [ none ↦ false | some s ↦ true ]

is_nil-map : {A B : Type 0} (f : A → B) (xs : List A) → is_nil (map f xs) ≡ is_nil xs
unfolding is_nil
is_nil-map f [] = refl
is_nil-map f (x ∷ xs) = refl

some_of-insert_by_start :
    (p : CourtSlot → Bool) (s : CourtSlot) (slots : List CourtSlot)
    → some_of p (insert_by_start s slots) ≡ (p s || some_of p slots)
unfolding some_of insert_by_start
some_of-insert_by_start p s [] = refl
some_of-insert_by_start p s (t ∷ slots) =
    let rest = some_of-insert_by_start p s slots in ground (arith, rest)

some_of-by_start :
    (p : CourtSlot → Bool) (slots : List CourtSlot) → some_of p (by_start slots) ≡ some_of p slots
unfolding some_of by_start
some_of-by_start p [] = refl
some_of-by_start p (s ∷ slots) =
    some_of-insert_by_start p s (by_start slots) ∙ ap (λ b. p s || b) (some_of-by_start p slots)

is_nil-insert_by_start :
    (s : CourtSlot) (slots : List CourtSlot) → is_nil (insert_by_start s slots) ≡ false
unfolding is_nil insert_by_start
is_nil-insert_by_start s [] = refl
is_nil-insert_by_start s (t ∷ slots) = ground arith

is_nil-by_start : (slots : List CourtSlot) → is_nil (by_start slots) ≡ is_nil slots
unfolding is_nil by_start
is_nil-by_start [] = refl
is_nil-by_start (s ∷ slots) = is_nil-insert_by_start s (by_start slots)

abbrev candidate : List CourtMatch → SlotWrite → CourtSlot → Bool
candidate matches w s = elim w.match_id [ none ↦ false | some m ↦ is_candidate matches w m s ]

some_of-candidates :
    (p : CourtSlot → Bool) (matches : List CourtMatch) (w : SlotWrite) (slots : List CourtSlot)
    → some_of p (candidates matches w slots) ≡ some_of (λ s. candidate matches w s && p s) slots
unfolding candidates some_of is_candidate
some_of-candidates p matches w slots = elim (Option-cases w.match_id) [
  | inl e ↦ rw e (sym (some_of_none slots))
  | inr (m, e) ↦ rw e (
      some_of-by_start p (filter (is_candidate matches w m) slots)
      ∙ some_of-filter p (is_candidate matches w m) slots)
]

-- The court and the participants that the two queries find busy are the slots that block.
blocks_hard :
    (matches : List CourtMatch) (w : SlotWrite) (s : CourtSlot)
    → ltb w.starts_at w.ends_at ≡ true
    → (on_court w s || (candidate matches w s && overlaps w s)) ≡ blocks matches w s
unfolding on_court is_candidate overlaps ranges_overlap near shares some_of
blocks_hard matches w s h = elim (Option-cases w.match_id) [
  | inl e ↦ rw e (ground (arith, h))
  | inr (m, e) ↦ rw e (ground (arith, h))
]

crowds_rest :
    (matches : List CourtMatch) (w : SlotWrite) (s : CourtSlot)
    → ltb w.starts_at w.ends_at ≡ true
    → (candidate matches w s && not (overlaps w s)) ≡ crowds matches w s
unfolding is_candidate overlaps ranges_overlap near shares some_of
crowds_rest matches w s h = elim (Option-cases w.match_id) [
  | inl e ↦ rw e (ground (arith, h))
  | inr (m, e) ↦ rw e (ground (arith, h))
]

pub hard_conflicts-blocks :
    (db : Schedule) (w : SlotWrite)
    → ltb w.starts_at w.ends_at ≡ true
    → is_nil (hard_conflicts db w) ≡ not (some_of (blocks db.matches w) db.slots)
unfolding hard_conflicts
hard_conflicts-blocks db w h =
    let courts = filter (on_court w) db.slots in
    let cands = candidates db.matches w db.slots in
    let busy : CourtSlot → Bool = λ s. candidate db.matches w s && overlaps w s in
    let court_part =
      is_nil-map (conflict_of db.courts court_overlap) (by_start courts)
      ∙ is_nil-by_start courts
      ∙ is_nil-filter (on_court w) db.slots in
    let player_part =
      is_nil-map (conflict_of db.courts participant_overlap) (filter (overlaps w) cands)
      ∙ is_nil-filter (overlaps w) cands
      ∙ ap not (some_of-candidates (overlaps w) db.matches w db.slots) in
    let both = some_of_or (on_court w) busy db.slots in
    let same =
      some_of_same (λ s. on_court w s || busy s) (blocks db.matches w) db.slots
        (λ s. blocks_hard db.matches w s h) in
    is_nil-append (map (conflict_of db.courts court_overlap) (by_start courts))
      (map (conflict_of db.courts participant_overlap) (filter (overlaps w) cands))
    ∙ ground (arith, court_part, player_part, both, same)

pub rest_conflicts-crowds :
    (db : Schedule) (w : SlotWrite)
    → ltb w.starts_at w.ends_at ≡ true
    → is_nil (rest_conflicts db w) ≡ not (some_of (crowds db.matches w) db.slots)
unfolding rest_conflicts
rest_conflicts-crowds db w h =
    let cands = candidates db.matches w db.slots in
    let apart : CourtSlot → Bool = λ s. not (overlaps w s) in
    is_nil-map (conflict_of db.courts rest_buffer_kind) (filter apart cands)
    ∙ is_nil-filter apart cands
    ∙ ap not (
        some_of-candidates apart db.matches w db.slots
        ∙ some_of_same (λ s. candidate db.matches w s && apart s) (crowds db.matches w) db.slots
            (λ s. crowds_rest db.matches w s h))

-- The constraint on the courts refuses no row that the checks have passed.
excludes_blocked :
    (matches : List CourtMatch) (w : SlotWrite) (row s : CourtSlot)
    → row.court_id ≡ w.court_id
    → row.starts_at ≡ w.starts_at
    → row.ends_at ≡ w.ends_at
    → (other_slot (some row.id) s ≡ true → other_slot w.slot_id s ≡ true)
    → excludes row s ≡ true
    → blocks matches w s ≡ true
unfolding excludes
excludes_blocked matches w row s court starts ends other h =
    rw⁻¹ (court, starts, ends) (ground (arith, other, h))

validated :
    (db : Schedule) (w : SlotWrite)
    → ltb w.starts_at w.ends_at ≡ true
    → is_done (validate_slot_write db w) ≡ (
        not (some_of (blocks db.matches w) db.slots)
        && (w.override_rest || not (some_of (crowds db.matches w) db.slots)))
unfolding validate_slot_write
validated db w h =
    let hard = hard_conflicts-blocks db w h in
    let rest = rest_conflicts-crowds db w h in ground (arith, h, hard, rest)

is_done_both :
    {B : Type 0} (first second : Reply (Unit {0})) (x : B)
    → is_done (first >> (second >> done x)) ≡ (is_done first && is_done second)
is_done_both (refused e) second x = refl
is_done_both (done passed) (refused e) x = refl
is_done_both (done passed) (done held) x = refl

-- The tournament that a write stores: an update leaves the row's.
abbrev pub stored_tournament : SlotWrite → Option ℕ → Option ℕ
stored_tournament w none = some w.tournament_id
stored_tournament w (some id) = none

abbrev pub written_tournament : SlotWrite → Option ℕ
written_tournament w = stored_tournament w w.slot_id

abbrev pub acceptable : Schedule → SlotWrite → Bool
acceptable db w =
    ltb w.starts_at w.ends_at
    && (not (some_of (blocks db.matches w) db.slots)
        && ((w.override_rest || not (some_of (crowds db.matches w) db.slots))
            && references db (written_tournament w) w.court_id w.match_id))

-- The constraints on a row, after the checks on the write that it comes from.
pub constrained :
    (db : Schedule) (w : SlotWrite) (row : CourtSlot) (tournament : Option ℕ)
    → row.court_id ≡ w.court_id
    → row.match_id ≡ w.match_id
    → row.starts_at ≡ w.starts_at
    → row.ends_at ≡ w.ends_at
    → tournament ≡ written_tournament w
    → ((s : CourtSlot) → other_slot (some row.id) s ≡ true → other_slot w.slot_id s ≡ true)
    → (is_done (validate_slot_write db w) && is_done (constraints db tournament row))
      ≡ acceptable db w
unfolding constraints
constrained db w row tournament court match starts ends stored other =
    let keys : references db tournament row.court_id row.match_id
        ≡ references db (written_tournament w) w.court_id w.match_id =
      ap (λ t. references db t row.court_id row.match_id) stored
      ∙ ap (λ c. references db (written_tournament w) c row.match_id) court
      ∙ ap (references db (written_tournament w) w.court_id) match in
    elim (Bool-cases (ltb w.starts_at w.ends_at)) [
      | inr empty ↦ rw (starts, ends, empty) (ground arith)
      | inl h ↦
          let pass = validated db w h in
          elim (Bool-cases (some_of (blocks db.matches w) db.slots)) [
            | inl busy ↦ ground (arith, pass, busy)
            | inr free ↦
                let clear =
                  some_of_less (excludes row) (blocks db.matches w) db.slots
                    (λ s. excludes_blocked db.matches w row s court starts ends (other s)) free in
                rw (starts, ends, h) (ground (arith, pass, free, clear, keys))
          ]
    ]

create_row_accepts :
    (w : SlotWrite) (db : Schedule) → w.slot_id ≡ none → is_done (create_row w db) ≡ acceptable db w
unfolding create_row other_slot
create_row_accepts w db new =
    let row = written_row db.next_id w in
    let stored : some w.tournament_id ≡ written_tournament w = sym (ap (stored_tournament w) new) in
    let pass =
      constrained db w row (some w.tournament_id) refl refl refl refl stored
        (λ s other. ap (λ o. other_slot o s) new) in
    is_done_both (validate_slot_write db w) (constraints db (some w.tournament_id) row) _ ∙ pass

update_row_accepts :
    (id : ℕ) (w : SlotWrite) (db : Schedule)
    → w.slot_id ≡ some id
    → is_done (update_row id w db) ≡ (is_known db (some id) && acceptable db w)
unfolding update_row other_slot
update_row_accepts id w db old = elim (Option-cases (find_slot id db.slots)) [
  | inl e ↦ rw (is_known, e) refl
  | inr (prev, e) ↦
      let row : CourtSlot = record (written_row id w) { tournament_id = prev.tournament_id } in
      let stored : none ≡ written_tournament w = sym (ap (stored_tournament w) old) in
      let pass =
        constrained db w row none refl refl refl refl stored
          (λ s other. ap (λ o. other_slot o s) old ∙ other) in
      rw (is_known, e) (is_done_both (validate_slot_write db w) (constraints db none row) _ ∙ pass)
]

pub write_slot_new :
    (w : SlotWrite) (db : Schedule) → w.slot_id ≡ none → write_slot w db ≡ create_row w db
unfolding write_slot
write_slot_new w db e =
    ap
      (λ o. elim o as (λ x. Reply (ℕ × Schedule)) [
        | none ↦ create_row w db
        | some id ↦ update_row id w db
      ])
      e

pub write_slot_old :
    (id : ℕ) (w : SlotWrite) (db : Schedule)
    → w.slot_id ≡ some id
    → write_slot w db ≡ update_row id w db
unfolding write_slot
write_slot_old id w db e =
    ap
      (λ o. elim o as (λ x. Reply (ℕ × Schedule)) [
        | none ↦ create_row w db
        | some id ↦ update_row id w db
      ])
      e

-- A write is accepted exactly when the slot that it names, if any, is there, so are its court, its
-- match if it has one and for a new slot its tournament, it ends after it starts, no other slot at that time is on its court or has, for an undecided match, one of its
-- players, and no such match of them is within the buffer, unless the organizer overrides that.
pub write_slot_accepts :
    (w : SlotWrite) (db : Schedule)
    → is_done (write_slot w db) ≡ (is_known db w.slot_id && acceptable db w)
write_slot_accepts w db = elim (Option-cases w.slot_id) [
  | inl e ↦
      ap is_done (write_slot_new w db e)
      ∙ create_row_accepts w db e
      ∙ ap (λ o. is_known db o && acceptable db w) (sym e)
  | inr (id, e) ↦
      ap is_done (write_slot_old id w db e)
      ∙ update_row_accepts id w db e
      ∙ ap (λ o. is_known db o && acceptable db w) (sym e)
]
