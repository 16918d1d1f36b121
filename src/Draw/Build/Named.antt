-- ===== src/Draw/Build/Named.antt =====
-- internal/draw/service.go: in a stored draw the slots and the matches that feed them agree.
use tourney_api.Prelude.{
  ℕ, suc, ◌+◌, ◌≡◌, refl, ap, sym, ◌∙◌, inl, inr, true, false, Bool-cases, Option, Option-cases,
  some, List, [], ◌∷◌, ◌++◌, ◌==◌, String, arith,
}
use mathlib.Core.Path.{subst}
use tourney_api.Draw.{Slot, Match}
use tourney_api.Draw.Tables.{
  MatchRow, SlotRow, Tables, Source, fixed, empty, match_winner, group_placement, find_match,
}
use tourney_api.Match.Save.Feeds.{AllFed, FeedsHold}
use tourney_api.Draw.Build.Cleared.{is_row_of, others}
use tourney_api.Draw.Build.Fed.{row_winner-append}
use tourney_api.Draw.Build.Waits.{two_more-some}
use tourney_api.Draw.Build.Wired.{Names, Names-cons, AllNamed, NotWon, NoneWon, type_feeds-AllNamed}
use tourney_api.Draw.Build.{
  clear_draw, keep_rows, group_count, group_id_of, new_matches, source_of, insert_slot_row,
  new_slots, type_feeds, persist_with_groups,
}

-- Each slot of the event's matches has a source that says truly which of the event's matches goes
-- there, if one does.
abbrev pub WellNamed : ℕ → List MatchRow → List SlotRow → Type 0
WellNamed event matches [] = Unit
WellNamed event matches (s ∷ slots) =
    (is_row_of event (find_match s.match_id matches) ≡ true → Names event matches s s.source)
    × WellNamed event matches slots

abbrev AllOther : ℕ → List MatchRow → Type 0
AllOther event [] = Unit
AllOther event (m ∷ matches) = ((m.event_id == event) ≡ false) × AllOther event matches

AllOther-others : (event : ℕ) (matches : List MatchRow) → AllOther event (others event matches)
unfolding keep_rows
AllOther-others event [] = tt
AllOther-others event (m ∷ matches) =
    let rest = AllOther-others event matches in
    elim (Bool-cases (m.event_id == event)) [ inl e ↦ rw e rest | inr e ↦ rw e (e, rest) ]

is_row_of_other :
    (event k : ℕ) (matches : List MatchRow)
    → AllOther event matches
    → is_row_of event (find_match k matches) ≡ false
unfolding find_match
is_row_of_other event k [] other = refl
is_row_of_other event k (m ∷ matches) (away, other) = elim (Bool-cases (m.id == k)) [
  | inl e ↦ rw e away
  | inr e ↦ rw e (is_row_of_other event k matches other)
]

Names-append :
    (event : ℕ) (old new : List MatchRow) (s : SlotRow) (source : Source)
    → AllOther event old
    → Names event new s source
    → Names event (old ++ new) s source
Names-append event [] new s source other h = h
Names-append event (m ∷ old) new s source (away, other) h =
    Names-cons event m (old ++ new) s source (rw away refl)
      (Names-append event old new s source other h)

WellNamed-new :
    (event : ℕ) (old new : List MatchRow) (rows : List SlotRow)
    → AllOther event old
    → AllNamed event new rows
    → WellNamed event (old ++ new) rows
WellNamed-new event old new [] other h = tt
WellNamed-new event old new (s ∷ rows) other (here, rest) = (
  (λ own. Names-append event old new s s.source other here),
  WellNamed-new event old new rows other rest,
)

WellNamed-kept :
    (event : ℕ) (old new : List MatchRow) (kept rows : List SlotRow)
    → AllOther event old
    → AllFed old kept
    → WellNamed event (old ++ new) rows
    → WellNamed event (old ++ new) (kept ++ rows)
WellNamed-kept event old new [] rows other fed h = h
WellNamed-kept event old new (s ∷ kept) rows other (here, fed, rest) h =
    let same = (row_winner-append s.match_id old new).0 here in
    let away = ap (is_row_of event) same ∙ is_row_of_other event s.match_id old other in
    (
      (λ own. let not_both : ⊥ = ground (arith, own, away) in elim not_both [ ]),
      WellNamed-kept event old new kept rows other rest h,
    )

source_of-NotWon :
    (group_ids : ℕ → Option ℕ) (s : Slot) (source : Source)
    → source_of group_ids s ≡ some source
    → NotWon source
unfolding source_of
source_of-NotWon group_ids s fixed h = tt
source_of-NotWon group_ids s empty h = tt
source_of-NotWon group_ids s Source.bye h = tt
source_of-NotWon group_ids s (group_placement g rank) h = tt
source_of-NotWon group_ids s (match_winner k) h = ground (arith, h)

insert_slot_row-NotWon :
    (group_ids : ℕ → Option ℕ) (match slot : ℕ) (s : Slot) (row : SlotRow)
    → insert_slot_row group_ids match slot s ≡ some row
    → NotWon row.source
unfolding insert_slot_row
insert_slot_row-NotWon group_ids match slot s row h = elim (Option-cases (source_of group_ids s)) [
  | inl e ↦ let no_row : ⊥ = ground (arith, h, e) in elim no_row [ ]
  | inr (source, e) ↦
      let same : source ≡ row.source = ground (arith, h, e) in
      subst NotWon same (source_of-NotWon group_ids s source e)
]

new_slots-NoneWon :
    (group_ids : ℕ → Option ℕ) (base i : ℕ) (ms : List Match) (rows : List SlotRow)
    → new_slots group_ids base i ms ≡ some rows
    → NoneWon rows
unfolding new_slots
new_slots-NoneWon group_ids base i [] rows h =
    let none_made : [] ≡ rows = ground (arith, h) in subst NoneWon none_made tt
new_slots-NoneWon group_ids base i (m ∷ ms) rows h =
    let (s, t, rest, one, two, more, same) =
      two_more-some (insert_slot_row group_ids (base + i) 1 m.slot1)
        (insert_slot_row group_ids (base + i) 2 m.slot2) (new_slots group_ids base (suc i) ms) rows
        h in
    subst NoneWon same (
      insert_slot_row-NotWon group_ids (base + i) 1 m.slot1 s one,
      (
        insert_slot_row-NotWon group_ids (base + i) 2 m.slot2 t two,
        new_slots-NoneWon group_ids base (suc i) ms rest more,
      ),
    )

module _ (default_name : ℕ → String) where
  pub persist_with_groups-WellNamed :
      (event : ℕ) (ms : List Match) (names : List String) (advance : List ℕ) (db db' : Tables)
      → persist_with_groups default_name event ms names advance db ≡ some db'
      → FeedsHold (clear_draw event db)
      → WellNamed event db'.matches db'.slots
  unfolding persist_with_groups clear_draw
  persist_with_groups-WellNamed event ms names advance db db' h fed =
      let count = group_count ms in
      let first = db.next_id in
      let base = first + count in
      let cleared = clear_draw event db in
      let new = new_matches event first count base 0 ms in
      elim (Option-cases (new_slots (group_id_of first count) base 0 ms)) [
        | inl e ↦ let no_tables : ⊥ = ground (arith, h, e) in elim no_tables [ ]
        | inr (rows, e) ↦
            let typed = type_feeds base 0 ms rows in
            let other = AllOther-others event db.matches in
            let named =
              type_feeds-AllNamed event first count base ms rows
                (new_slots-NoneWon (group_id_of first count) base 0 ms rows e) in
            let matches : cleared.matches ++ new ≡ db'.matches = ground (arith, h, e) in
            let slots : cleared.slots ++ typed ≡ db'.slots = ground (arith, h, e) in
            rw (sym matches, sym slots)
              (WellNamed-kept event cleared.matches new cleared.slots typed other fed
                (WellNamed-new event cleared.matches new typed other named))
      ]
