-- ===== src/Draw/Build/Waits.antt =====
-- internal/draw/service.go: the slots of a draw that has just been stored wait for their matches.
use tourney_api.Prelude.{
  ℕ, suc, ◌+◌, ◌≤◌, ◌<◌, ◌≡◌, refl, ap, ◌∙◌, inl, inr, Bool-cases, true, ◌&&◌, Option, Option-cases,
  none, some, List, [], ◌∷◌, map, ◌==◌, length, arith,
}
use mathlib.Core.Path.{subst}
use tourney_api.Draw.{Slot, Match}
use tourney_api.Draw.Tables.{MatchRow, SlotRow, Source, fixed, empty, match_winner, group_placement}
use tourney_api.Draw.Tables.Lookups.{has_match}
use tourney_api.Draw.Build.{
  source_of, insert_slot_row, two_more, new_slots, type_next, type_slot, type_feeds, is_waiting,
}

-- Who may stand in a slot of a new draw.
abbrev pub Waits : ℕ → Source → Option ℕ → Type 0
Waits base empty p = p ≡ none
Waits base (match_winner k) p = (p ≡ none) × (base ≤ k)
Waits base _ p = Unit

abbrev pub AllNew : ℕ → List MatchRow → List SlotRow → Type 0
AllNew base matches [] = Unit
AllNew base matches (s ∷ slots) =
    (has_match s.match_id matches ≡ true)
    × Waits base s.source s.participant_id
    × AllNew base matches slots

source_of-Waits :
    (group_ids : ℕ → Option ℕ) (base : ℕ) (s : Slot) (source : Source)
    → source_of group_ids s ≡ some source
    → Waits base source s.participant_id
unfolding source_of
source_of-Waits group_ids base s fixed h = tt
source_of-Waits group_ids base s Source.bye h = tt
source_of-Waits group_ids base s (group_placement g rank) h = tt
source_of-Waits group_ids base s empty h = elim (Option-cases s.participant_id) [
  | inl e ↦ e
  | inr (p, e) ↦ let no_source : ⊥ = ground (arith, h, e) in elim no_source [ ]
]
source_of-Waits group_ids base s (match_winner k) h =
    let no_source : ⊥ = ground (arith, h) in elim no_source [ ]

waiting-none :
    (base : ℕ) (source : Source) (p : Option ℕ)
    → Waits base source p
    → is_waiting source ≡ true
    → p ≡ none
waiting-none base empty p waits h = waits
waiting-none base (match_winner k) p waits h = waits.0
waiting-none base fixed p waits h = let no_source : ⊥ = ground (arith, h) in elim no_source [ ]
waiting-none base Source.bye p waits h = let no_source : ⊥ = ground (arith, h) in elim no_source [ ]
waiting-none base (group_placement g rank) p waits h =
    let no_source : ⊥ = ground (arith, h) in elim no_source [ ]

insert_slot_row-Waits :
    (group_ids : ℕ → Option ℕ) (base match slot : ℕ) (s : Slot) (row : SlotRow)
    → insert_slot_row group_ids match slot s ≡ some row
    → (row.match_id ≡ match) × Waits base row.source row.participant_id
unfolding insert_slot_row
insert_slot_row-Waits group_ids base match slot s row h =
    elim (Option-cases (source_of group_ids s)) [
      | inl e ↦ let no_row : ⊥ = ground (arith, h, e) in elim no_row [ ]
      | inr (source, e) ↦
          let made : SlotRow = record {
            match_id = match;
            slot = slot;
            participant_id = s.participant_id;
            source = source;
            label = s.source_label;
          } in
          let same : made ≡ row = ground (arith, h, e) in
          subst (λ (r : SlotRow). (r.match_id ≡ match) × Waits base r.source r.participant_id) same
            (refl, source_of-Waits group_ids base s source e)
    ]

pub two_more-some :
    (a b : Option SlotRow) (c : Option (List SlotRow)) (rows : List SlotRow)
    → two_more a b c ≡ some rows
    → (s : SlotRow) × (t : SlotRow) × (rest : List SlotRow) × (a ≡ some s)
      × (b ≡ some t)
      × (c ≡ some rest)
      × (s ∷ t ∷ rest ≡ rows)
two_more-some (some s) (some t) (some rest) rows h =
    (s, t, rest, refl, refl, refl, ground (arith, h))
two_more-some none b c rows h = let no_rows : ⊥ = ground (arith, h) in elim no_rows [ ]
two_more-some (some s) none c rows h = let no_rows : ⊥ = ground (arith, h) in elim no_rows [ ]
two_more-some (some s) (some t) none rows h =
    let no_rows : ⊥ = ground (arith, h) in elim no_rows [ ]

module _ (base : ℕ) (matches : List MatchRow) where
  type_slot-AllNew :
      (id next slot : ℕ) (rows : List SlotRow)
      → base ≤ id
      → AllNew base matches rows
      → AllNew base matches (map (type_slot id next slot) rows)
  unfolding type_slot
  type_slot-AllNew id next slot [] h new = tt
  type_slot-AllNew id next slot (s ∷ rows) h (here, waits, rest) =
      let tail = type_slot-AllNew id next slot rows h rest in
      elim (Bool-cases (s.match_id == next && (s.slot == slot && is_waiting s.source))) [
        | inr e ↦ rw e (here, waits, tail)
        | inl e ↦
            rw e (
              here,
              (waiting-none base s.source s.participant_id waits (ground (arith, e)), h),
              tail,
            )
      ]

  type_next-AllNew :
      (i : ℕ) (next : Option ℕ) (slot : ℕ) (rows : List SlotRow)
      → AllNew base matches rows
      → AllNew base matches (type_next base i next slot rows)
  type_next-AllNew i none slot rows new = new
  type_next-AllNew i (some j) slot rows new =
      type_slot-AllNew (base + i) (base + j) slot rows (omega arith) new

  pub type_feeds-AllNew :
      (i : ℕ) (ms : List Match) (rows : List SlotRow)
      → AllNew base matches rows
      → AllNew base matches (type_feeds base i ms rows)
  unfolding type_feeds
  type_feeds-AllNew i [] rows new = new
  type_feeds-AllNew i (m ∷ ms) rows new =
      type_feeds-AllNew (suc i) ms (type_next base i m.next_match_idx m.next_slot rows)
        (type_next-AllNew i m.next_match_idx m.next_slot rows new)

  pub new_slots-AllNew :
      (group_ids : ℕ → Option ℕ) (i : ℕ) (ms : List Match) (rows : List SlotRow)
      → ((j : ℕ) → i ≤ j → j < i + length ms → has_match (base + j) matches ≡ true)
      → new_slots group_ids base i ms ≡ some rows
      → AllNew base matches rows
  unfolding new_slots insert_slot_row
  new_slots-AllNew group_ids i [] rows there h =
      let none_made : [] ≡ rows = ground (arith, h) in subst (AllNew base matches) none_made tt
  new_slots-AllNew group_ids i (m ∷ ms) rows there h =
      let (s, t, rest, one, two, more, same) =
        two_more-some (insert_slot_row group_ids (base + i) 1 m.slot1)
          (insert_slot_row group_ids (base + i) 2 m.slot2) (new_slots group_ids base (suc i) ms)
          rows h in
      let (at1, waits1) = insert_slot_row-Waits group_ids base (base + i) 1 m.slot1 s one in
      let (at2, waits2) = insert_slot_row-Waits group_ids base (base + i) 2 m.slot2 t two in
      let here = there i (omega arith) (omega arith) in
      let tail =
        new_slots-AllNew group_ids (suc i) ms rest
          (λ j low high. there j (omega (arith, low)) (omega (arith, high))) more in
      subst (AllNew base matches) same (
        ap (λ id. has_match id matches) at1 ∙ here,
        waits1,
        (ap (λ id. has_match id matches) at2 ∙ here, waits2, tail),
      )
