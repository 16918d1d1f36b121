-- ===== src/Draw/Build/Wired.antt =====
-- internal/draw/service.go: pass 3 of a stored draw gives each slot that a match feeds its source.
use tourney_api.Prelude.{
  ℕ, suc, ◌+◌, ◌≡◌, refl, ap, sym, ◌∙◌, inl, inr, Bool, true, false, Bool-cases, ◌&&◌, ◌||◌, Option,
  none, some, if◌then◌else◌, List, [], ◌∷◌, ◌==◌, arith,
}
use mathlib.Core.Path.{subst}
use tourney_api.Draw.{Match}
use tourney_api.Draw.Tables.{
  MatchRow, SlotRow, Source, fixed, empty, match_winner, group_placement, uuid_ptr_eq,
}
use tourney_api.Match.Scoring.{Status, pending}
use tourney_api.Draw.Build.{
  stage_of, group_id_of, new_matches, type_next, type_slot, type_feeds, is_waiting,
}

-- The match is one of the event whose winner goes to the slot.
abbrev pub goes_to : ℕ → MatchRow → SlotRow → Bool
goes_to event m s =
    m.event_id == event
    && (uuid_ptr_eq m.next_match_id (some s.match_id) && uuid_ptr_eq m.next_slot (some s.slot))

abbrev pub any_goes_to : ℕ → List MatchRow → SlotRow → Bool
any_goes_to event [] s = false
any_goes_to event (m ∷ matches) s = goes_to event m s || any_goes_to event matches s

abbrev pub this_goes_to : ℕ → ℕ → List MatchRow → SlotRow → Bool
this_goes_to event k [] s = false
this_goes_to event k (m ∷ matches) s =
    (m.id == k && goes_to event m s) || this_goes_to event k matches s

-- What a slot's source says of the matches whose winners go there: the one that it names does, and
-- none does where the slot is empty.
abbrev pub Names : ℕ → List MatchRow → SlotRow → Source → Type 0
Names event matches s empty = any_goes_to event matches s ≡ false
Names event matches s (match_winner k) = this_goes_to event k matches s ≡ true
Names event matches s _ = Unit

abbrev pub AllNamed : ℕ → List MatchRow → List SlotRow → Type 0
AllNamed event matches [] = Unit
AllNamed event matches (s ∷ slots) = Names event matches s s.source × AllNamed event matches slots

-- Before pass 3 no slot has a match as its source.
abbrev pub NotWon : Source → Type 0
NotWon (match_winner k) = ⊥
NotWon _ = Unit

abbrev pub NoneWon : List SlotRow → Type 0
NoneWon [] = Unit
NoneWon (s ∷ slots) = NotWon s.source × NoneWon slots

-- What pass 3 makes of one slot.
abbrev type_one : ℕ → ℕ → Option ℕ → ℕ → SlotRow → SlotRow
type_one base i none slot s = s
type_one base i (some j) slot s = type_slot (base + i) (base + j) slot s

unfoldable wired : ℕ → ℕ → List Match → SlotRow → SlotRow
wired base i [] s = s
wired base i (m ∷ ms) s = wired base (suc i) ms (type_one base i m.next_match_idx m.next_slot s)

type_next-nil : (base i : ℕ) (o : Option ℕ) (slot : ℕ) → type_next base i o slot [] ≡ []
type_next-nil base i none slot = refl
type_next-nil base i (some j) slot = refl

type_feeds-nil : (base i : ℕ) (ms : List Match) → type_feeds base i ms [] ≡ []
unfolding type_feeds
type_feeds-nil base i [] = refl
type_feeds-nil base i (m ∷ ms) =
    rw (type_next-nil base i m.next_match_idx m.next_slot) (type_feeds-nil base (suc i) ms)

type_next-cons :
    (base i : ℕ) (o : Option ℕ) (slot : ℕ) (s : SlotRow) (rows : List SlotRow)
    → type_next base i o slot (s ∷ rows) ≡ type_one base i o slot s ∷ type_next base i o slot rows
type_next-cons base i none slot s rows = refl
type_next-cons base i (some j) slot s rows = refl

type_feeds-cons :
    (base i : ℕ) (ms : List Match) (s : SlotRow) (rows : List SlotRow)
    → type_feeds base i ms (s ∷ rows) ≡ wired base i ms s ∷ type_feeds base i ms rows
unfolding type_feeds wired
type_feeds-cons base i [] s rows = refl
type_feeds-cons base i (m ∷ ms) s rows =
    rw (type_next-cons base i m.next_match_idx m.next_slot s rows) (
      type_feeds-cons base (suc i) ms (type_one base i m.next_match_idx m.next_slot s)
        (type_next base i m.next_match_idx m.next_slot rows))

-- A slot that is not empty stays as it is, and no slot goes to another place.
type_one_settled :
    (base i : ℕ) (o : Option ℕ) (slot : ℕ) (s : SlotRow)
    → is_waiting s.source ≡ false
    → type_one base i o slot s ≡ s
unfolding type_slot
type_one_settled base i none slot s h = refl
type_one_settled base i (some j) slot s h = ground (arith, h)

wired_settled :
    (base i : ℕ) (ms : List Match) (s : SlotRow)
    → is_waiting s.source ≡ false
    → wired base i ms s ≡ s
unfolding wired
wired_settled base i [] s h = refl
wired_settled base i (m ∷ ms) s h =
    rw (type_one_settled base i m.next_match_idx m.next_slot s h)
      (wired_settled base (suc i) ms s h)

type_one-place :
    (base i : ℕ) (o : Option ℕ) (slot : ℕ) (s : SlotRow)
    → ((type_one base i o slot s).match_id ≡ s.match_id)
      × ((type_one base i o slot s).slot ≡ s.slot)
unfolding type_slot
type_one-place base i none slot s = (refl, refl)
type_one-place base i (some j) slot s = ground arith

wired-place :
    (base i : ℕ) (ms : List Match) (s : SlotRow)
    → ((wired base i ms s).match_id ≡ s.match_id) × ((wired base i ms s).slot ≡ s.slot)
unfolding wired
wired-place base i [] s = (refl, refl)
wired-place base i (m ∷ ms) s =
    let (match, slot) = type_one-place base i m.next_match_idx m.next_slot s in
    let (match', slot') =
      wired-place base (suc i) ms (type_one base i m.next_match_idx m.next_slot s) in
    (match' ∙ match, slot' ∙ slot)

settled_named :
    (event : ℕ) (matches : List MatchRow) (s : SlotRow) (source : Source)
    → NotWon source
    → is_waiting source ≡ false
    → Names event matches s source
settled_named event matches s fixed won h = tt
settled_named event matches s Source.bye won h = tt
settled_named event matches s (group_placement g rank) won h = tt
settled_named event matches s (match_winner k) won h = elim won [ ]
settled_named event matches s empty won h =
    let no_source : ⊥ = ground (arith, h) in elim no_source [ ]

pub Names-cons :
    (event : ℕ) (m : MatchRow) (matches : List MatchRow) (s : SlotRow) (source : Source)
    → goes_to event m s ≡ false
    → Names event matches s source
    → Names event (m ∷ matches) s source
Names-cons event m matches s empty away h = rw away h
Names-cons event m matches s (match_winner k) away h = rw (away, h) (ground arith)
Names-cons event m matches s fixed away h = tt
Names-cons event m matches s Source.bye away h = tt
Names-cons event m matches s (group_placement g rank) away h = tt

module _ (event first count base : ℕ) where
  abbrev rows_of : ℕ → List Match → List MatchRow
  rows_of i ms = new_matches event first count base i ms

  abbrev target_of : Option ℕ → Option ℕ
  target_of o = elim o [ none ↦ none | some j ↦ some (base + j) ]

  abbrev target_slot : Option ℕ → ℕ → Option ℕ
  target_slot o slot = elim o [ none ↦ none | some j ↦ some slot ]

  wired-step :
      (i : ℕ) (o : Option ℕ) (slot : ℕ) (row : MatchRow) (matches : List MatchRow) (ms : List Match)
      (s : SlotRow)
      → row.id ≡ base + i
      → row.event_id ≡ event
      → row.next_match_id ≡ target_of o
      → row.next_slot ≡ target_slot o slot
      → is_waiting s.source ≡ true
      → Names event matches (wired base (suc i) ms s) (wired base (suc i) ms s).source
      → Names event
          (row ∷ matches)
          (wired base (suc i) ms (type_one base i o slot s))
          (wired base (suc i) ms (type_one base i o slot s)).source
  unfolding type_slot
  wired-step i none slot row matches ms s h he hm hs waiting rest =
      Names-cons event row matches (wired base (suc i) ms s) (wired base (suc i) ms s).source
        (rw hm (ground arith)) rest
  wired-step i (some j) slot row matches ms s h he hm hs waiting rest =
      elim (Bool-cases (s.match_id == (base + j) && s.slot == slot)) [
        | inl here ↦
            let s' : SlotRow = record s { source = match_winner (base + i) } in
            let typed : type_one base i (some j) slot s ≡ s' = ground (arith, here, waiting) in
            let stays : wired base (suc i) ms (type_one base i (some j) slot s) ≡ s' =
              ap (wired base (suc i) ms) typed ∙ wired_settled base (suc i) ms s' refl in
            let named : Names event (row ∷ matches) s' (match_winner (base + i)) =
              rw (h, he, hm, hs) (ground (arith, here)) in
            subst (λ (x : SlotRow). Names event (row ∷ matches) x x.source) (sym stays) named
        | inr away ↦
            let same : type_one base i (some j) slot s ≡ s = ground (arith, away) in
            let (match, place) = wired-place base (suc i) ms s in
            let elsewhere : goes_to event row (wired base (suc i) ms s) ≡ false =
              rw (hm, hs, match, place) (ground (arith, away)) in
            subst
              (λ (x : SlotRow).
                Names event (row ∷ matches) (wired base (suc i) ms x)
                  (wired base (suc i) ms x).source)
              (sym same)
              (Names-cons event row matches (wired base (suc i) ms s)
                (wired base (suc i) ms s).source elsewhere rest)
      ]

  Names-nil : (s : SlotRow) (source : Source) → NotWon source → Names event [] s source
  Names-nil s fixed won = tt
  Names-nil s empty won = refl
  Names-nil s Source.bye won = tt
  Names-nil s (group_placement g rank) won = tt
  Names-nil s (match_winner k) won = elim won [ ]

  wired-Names :
      (i : ℕ) (ms : List Match) (s : SlotRow)
      → NotWon s.source
      → Names event (rows_of i ms) (wired base i ms s) (wired base i ms s).source
  unfolding wired new_matches
  wired-Names i [] s won = Names-nil s s.source won
  wired-Names i (m ∷ ms) s won = elim (Bool-cases (is_waiting s.source)) [
    | inr e ↦
        subst (λ (x : SlotRow). Names event (rows_of i (m ∷ ms)) x x.source)
          (sym (wired_settled base i (m ∷ ms) s e))
          (settled_named event (rows_of i (m ∷ ms)) s s.source won e)
    | inl waiting ↦
        let row : MatchRow = record {
          id = base + i;
          event_id = event;
          match_no = i + 1;
          stage = stage_of count m.group_index;
          group_id = elim m.group_index [ none ↦ none | some g ↦ group_id_of first count g ];
          status = if m.slot1.is_bye || m.slot2.is_bye then Status.bye else pending;
          winner_participant_id = none;
          next_match_id = target_of m.next_match_idx;
          next_slot = target_slot m.next_match_idx m.next_slot;
          started_at = none;
          completed_at = none;
          sets = [];
        } in
        wired-step i m.next_match_idx m.next_slot row (rows_of (suc i) ms) ms s refl refl refl refl
          waiting (wired-Names (suc i) ms s won)
  ]

  pub type_feeds-AllNamed :
      (ms : List Match) (rows : List SlotRow)
      → NoneWon rows
      → AllNamed event (rows_of 0 ms) (type_feeds base 0 ms rows)
  type_feeds-AllNamed ms [] won = rw (type_feeds-nil base 0 ms) tt
  type_feeds-AllNamed ms (s ∷ rows) (here, won) =
      rw (type_feeds-cons base 0 ms s rows)
        (wired-Names 0 ms s here, type_feeds-AllNamed ms rows won)
