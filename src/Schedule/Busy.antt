-- ===== src/Schedule/Busy.antt =====
-- internal/schedule: when two slots clash, and what leaves the players of a slot as busy as before.
use tourney_api.Prelude.{
  ℕ, ◌≡◌, ◌⊎◌, refl, sym, ap, ◌∙◌, inl, inr, Bool, Bool-cases, true, false, not, ◌&&◌, ◌||◌, Option,
  Option-cases, none, some, List, [], ◌∷◌, map, ◌==◌, arith,
}
use mathlib.Core.Option
use tourney_api.Draw.Tables.{uuid_ptr_eq}
use tourney_api.Match.Scoring.{Status, decided_status}
use tourney_api.Schedule.{CourtMatch, CourtSlot, find_court_match}
use tourney_api.Schedule.Conflicts.{
  SlotWrite, ranges_overlap, other_slot, some_of, match_players, occupied, shares,
}
use tourney_api.Schedule.Accept.{blocks, players_written}
use tourney_api.Schedule.Somes.{some_of_same, some_of_or, some_of_none, some_of_less}
use tourney_api.Schedule.Apart.{Apart, meets, Apart-same}
use tourney_api.Schedule.Write.{
  clear_status, stamp_status, unstamp_row, stamp_row, unstamp_previous, stamp_next, unstamp_removed,
  is_referenced,
}

-- Two slots that meet in time, on one court or with a player of undecided matches in common.
abbrev pub clash : List CourtMatch → CourtSlot → CourtSlot → Bool
clash matches a b =
    a.id == b.id
    || (ranges_overlap a.starts_at a.ends_at b.starts_at b.ends_at
        && (a.court_id == b.court_id
            || shares (occupied a.match_id matches) (occupied b.match_id matches)))

module _ {A : Type 0} {B : Type 0} where
  some_of_swap :
      (r : A → B → Bool) (xs : List A) (ys : List B)
      → some_of (λ x. some_of (λ y. r x y) ys) xs ≡ some_of (λ y. some_of (λ x. r x y) xs) ys
  unfolding some_of
  some_of_swap r [] ys = sym (some_of_none ys)
  some_of_swap r (x ∷ xs) ys =
      ap (λ b. some_of (λ y. r x y) ys || b) (some_of_swap r xs ys)
      ∙ sym (some_of_or (λ y. r x y) (λ y. some_of (λ x. r x y) xs) ys)

shares_sym : (xs ys : List ℕ) → shares xs ys ≡ shares ys xs
unfolding shares
shares_sym xs ys =
    some_of_swap (λ x y. x == y) xs ys
    ∙ some_of_same (λ y. some_of (λ x. x == y) xs) (λ y. some_of (λ x. y == x) xs) ys
        (λ y. some_of_same (λ x. x == y) (λ x. y == x) xs (λ x. ground arith))

pub clash_sym :
    (matches : List CourtMatch) (a b : CourtSlot) → clash matches a b ≡ clash matches b a
unfolding ranges_overlap
clash_sym matches a b =
    let same = shares_sym (occupied a.match_id matches) (occupied b.match_id matches) in
    ground (arith, same)

pub clash_id :
    (matches : List CourtMatch) (a b : CourtSlot) → (a.id == b.id) ≡ true → clash matches a b ≡ true
clash_id matches a b h = rw h refl

-- The players that a slot keeps busy are nobody, or those of its match.
occupied-cases :
    (m : ℕ) (matches : List CourtMatch)
    → (occupied (some m) matches ≡ []) ⊎ (occupied (some m) matches ≡ match_players m matches)
unfolding occupied match_players
occupied-cases m matches = elim (Option-cases (find_court_match m matches)) [
  | inl missing ↦ inl (rw (occupied, missing) refl)
  | inr (row, found) ↦ elim (Bool-cases (decided_status row.status)) [
    | inl over ↦ inl (rw (occupied, found, over) refl)
    | inr open_ ↦ inr (rw (occupied, match_players, found, open_) refl)
  ]
]

shares-occupied :
    (matches : List CourtMatch) (m : Option ℕ) (w : SlotWrite) (ys : List ℕ)
    → w.match_id ≡ m
    → shares (occupied m matches) ys ≡ true
    → shares (players_written matches w) ys ≡ true
unfolding shares some_of occupied
shares-occupied matches none w ys e h = let no_player : ⊥ = ground (arith, h) in elim no_player [ ]
shares-occupied matches (some m) w ys e h =
    ap (λ o. shares (elim o as (λ x. List ℕ) [ none ↦ [] | some m ↦ match_players m matches ]) ys) e
    ∙ (elim (occupied-cases m matches) [
      | inl nobody ↦
          let clash = sym (ap (λ xs. shares xs ys) nobody) ∙ h in
          let no_player : ⊥ = ground (arith, clash) in elim no_player [ ]
      | inr all_ ↦ sym (ap (λ xs. shares xs ys) all_) ∙ h
    ])

-- A slot that a written row clashes with is one that blocks the write.
clash-blocks :
    (matches : List CourtMatch) (w : SlotWrite) (row s : CourtSlot)
    → row.court_id ≡ w.court_id
    → row.match_id ≡ w.match_id
    → row.starts_at ≡ w.starts_at
    → row.ends_at ≡ w.ends_at
    → other_slot w.slot_id s ≡ true
    → (row.id == s.id) ≡ false
    → clash matches row s ≡ true
    → blocks matches w s ≡ true
unfolding ranges_overlap
clash-blocks matches w row s court match starts ends other apart h =
    let players =
      shares-occupied matches row.match_id w (occupied s.match_id matches) (sym match) in
    rw⁻¹ (starts, ends, court) (ground (arith, other, apart, h, players, starts, ends, court))

-- A written row that the write's conflicts leave free clashes with no other slot.
pub free-meets :
    (matches : List CourtMatch) (w : SlotWrite) (row : CourtSlot) (slots : List CourtSlot)
    → row.court_id ≡ w.court_id
    → row.match_id ≡ w.match_id
    → row.starts_at ≡ w.starts_at
    → row.ends_at ≡ w.ends_at
    → ((s : CourtSlot) → other_slot (some row.id) s ≡ true → other_slot w.slot_id s ≡ true)
    → some_of (blocks matches w) slots ≡ false
    → some_of (meets (clash matches) row) slots ≡ false
unfolding other_slot
free-meets matches w row slots court match starts ends other free =
    some_of_less (meets (clash matches) row) (blocks matches w) slots
      (λ s h.
        clash-blocks matches w row s court match starts ends (other s (ground (arith, h)))
          (ground (arith, h)) (ground (arith, h)))
      free

-- The changes of a match that leave its id, its players, and whether it is decided.
abbrev Restamps : (CourtMatch → CourtMatch) → Type 0
Restamps f =
    (m : CourtMatch)
    → ((f m).id ≡ m.id)
      × (decided_status (f m).status ≡ decided_status m.status)
      × ((f m).participants ≡ m.participants)

cleared : (s : Status) → decided_status (clear_status s) ≡ decided_status s
unfolding decided_status
cleared s = ground arith

stamped : (s : Status) → decided_status (stamp_status s) ≡ decided_status s
unfolding decided_status
stamped s = ground arith

unstamp_row-Restamps : (id : ℕ) → Restamps (unstamp_row id)
unfolding unstamp_row
unstamp_row-Restamps id m = elim (Bool-cases (m.id == id)) [
  | inl e ↦ rw e (refl, cleared m.status, refl)
  | inr e ↦ rw e (refl, refl, refl)
]

stamp_row-Restamps : (id starts court : ℕ) → Restamps (stamp_row id starts court)
unfolding stamp_row
stamp_row-Restamps id starts court m = elim (Bool-cases (m.id == id)) [
  | inl e ↦ rw e (refl, stamped m.status, refl)
  | inr e ↦ rw e (refl, refl, refl)
]

find_court_match-map :
    (f : CourtMatch → CourtMatch) (id : ℕ) (matches : List CourtMatch)
    → Restamps f
    → find_court_match id (map f matches) ≡ Option.map f (find_court_match id matches)
unfolding find_court_match
find_court_match-map f id [] keeps = refl
find_court_match-map f id (m ∷ matches) keeps =
    let (same, decided, players) = keeps m in
    let rest = find_court_match-map f id matches keeps in
    elim (Bool-cases (m.id == id)) [
      | inl e ↦
          let here : ((f m).id == id) ≡ true = ap (λ i. i == id) same ∙ e in
          rw (find_court_match, here, e) refl
      | inr e ↦
          let elsewhere : ((f m).id == id) ≡ false = ap (λ i. i == id) same ∙ e in
          rw (find_court_match, elsewhere, e) rest
    ]

occupied-map :
    (f : CourtMatch → CourtMatch) (id : ℕ) (matches : List CourtMatch)
    → Restamps f
    → occupied (some id) (map f matches) ≡ occupied (some id) matches
unfolding occupied
occupied-map f id matches keeps =
    let moved = find_court_match-map f id matches keeps in
    elim (Option-cases (find_court_match id matches)) [
      | inl e ↦ rw (occupied, moved, e) refl
      | inr (m, e) ↦
          let (same, decided, players) = keeps m in rw (occupied, moved, e, decided, players) refl
    ]

-- The players that a slot keeps busy are the same ones after a change of the matches.
abbrev pub SameBusy : List CourtMatch → List CourtMatch → Type 0
SameBusy before after = (m : Option ℕ) → occupied m after ≡ occupied m before

map-SameBusy :
    (f : CourtMatch → CourtMatch) (matches : List CourtMatch)
    → Restamps f
    → SameBusy matches (map f matches)
unfolding occupied
map-SameBusy f matches keeps none = refl
map-SameBusy f matches keeps (some m) = occupied-map f m matches keeps

pub stamp_next-SameBusy :
    (w : SlotWrite) (matches : List CourtMatch) → SameBusy matches (stamp_next w matches)
unfolding stamp_next
stamp_next-SameBusy w matches m = elim (Option-cases w.match_id) [
  | inl e ↦ rw e refl
  | inr (id, e) ↦ rw e (
      map-SameBusy (stamp_row id w.starts_at w.court_id) matches
        (stamp_row-Restamps id w.starts_at w.court_id) m)
]

pub unstamp_previous-SameBusy :
    (prev next : Option ℕ) (matches : List CourtMatch)
    → SameBusy matches (unstamp_previous prev next matches)
unfolding unstamp_previous
unstamp_previous-SameBusy none next matches m = refl
unstamp_previous-SameBusy (some prev) next matches m =
    elim (Bool-cases (uuid_ptr_eq next (some prev))) [
      | inl e ↦ rw e refl
      | inr e ↦ rw e (map-SameBusy (unstamp_row prev) matches (unstamp_row-Restamps prev) m)
    ]

pub unstamp_removed-SameBusy :
    (prev : Option ℕ) (slots : List CourtSlot) (matches : List CourtMatch)
    → SameBusy matches (unstamp_removed prev slots matches)
unfolding unstamp_removed
unstamp_removed-SameBusy none slots matches m = refl
unstamp_removed-SameBusy (some prev) slots matches m =
    elim (Bool-cases (is_referenced prev slots)) [
      | inl e ↦ rw e refl
      | inr e ↦ rw e (map-SameBusy (unstamp_row prev) matches (unstamp_row-Restamps prev) m)
    ]

pub Apart-SameBusy :
    (before after : List CourtMatch) (slots : List CourtSlot)
    → SameBusy before after
    → Apart (clash before) slots
    → Apart (clash after) slots
Apart-SameBusy before after slots same =
    Apart-same (clash before) (clash after) slots (λ a b h.
      let first = same a.match_id in let second = same b.match_id in rw⁻¹ (first, second) h)

-- A clash of two slots that are not excused.
abbrev pub new_clash :
    (CourtSlot → CourtSlot → Bool) → List CourtMatch → CourtSlot → CourtSlot → Bool
new_clash excused matches a b = a.id == b.id || (clash matches a b && not (excused a b))

module _ (excused : CourtSlot → CourtSlot → Bool)
    (symmetric : (a b : CourtSlot) → excused a b ≡ excused b a) where
  pub new_clash_sym :
      (matches : List CourtMatch) (a b : CourtSlot)
      → new_clash excused matches a b ≡ new_clash excused matches b a
  new_clash_sym matches a b = rw (clash_sym matches a b, symmetric a b) (ground arith)

  pub new_clash_id :
      (matches : List CourtMatch) (a b : CourtSlot)
      → (a.id == b.id) ≡ true
      → new_clash excused matches a b ≡ true
  new_clash_id matches a b h = rw h refl

  pub new_clash-meets :
      (matches : List CourtMatch) (row : CourtSlot) (slots : List CourtSlot)
      → some_of (meets (clash matches) row) slots ≡ false
      → some_of (meets (new_clash excused matches) row) slots ≡ false
  unfolding other_slot
  new_clash-meets matches row slots =
      some_of_less (meets (new_clash excused matches) row) (meets (clash matches) row) slots
        (λ s h. ground (arith, h))

  pub new_clash-SameBusy :
      (before after : List CourtMatch) (slots : List CourtSlot)
      → SameBusy before after
      → Apart (new_clash excused before) slots
      → Apart (new_clash excused after) slots
  new_clash-SameBusy before after slots same =
      Apart-same (new_clash excused before) (new_clash excused after) slots (λ a b h.
        let first = same a.match_id in let second = same b.match_id in rw⁻¹ (first, second) h)
