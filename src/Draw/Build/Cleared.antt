-- ===== src/Draw/Build/Cleared.antt =====
-- internal/draw/service.go: what is left of the matches and slots when an event's draw is deleted.
use tourney_api.Prelude.{
  ℕ, ◌<◌, ◌≡◌, refl, ap, sym, ◌∙◌, inl, inr, Bool, false, not, Bool-cases, Option, none, some, List,
  [], ◌∷◌, ◌==◌,
}
use tourney_api.Draw.Tables.{
  MatchRow, SlotRow, Source, fixed, empty, match_winner, group_placement, find_match,
}
use tourney_api.Draw.Tables.Lookups.{row_winner, is_found}
use tourney_api.Match.Save.Feeds.{Fed, AllFed}
use tourney_api.Draw.Build.{keep_rows, is_of_event}

-- Every id of a match is below a number.
abbrev pub AllBelow : ℕ → List MatchRow → Type 0
AllBelow n [] = Unit
AllBelow n (m ∷ matches) = (m.id < n) × AllBelow n matches

abbrev pub is_row_of : ℕ → Option MatchRow → Bool
is_row_of event none = false
is_row_of event (some m) = m.event_id == event

-- A slot that no match of the event feeds.
abbrev pub FedElsewhere : ℕ → List MatchRow → Source → Type 0
FedElsewhere event matches (match_winner k) = is_row_of event (find_match k matches) ≡ false
FedElsewhere event matches _ = Unit

-- No match of the event feeds a slot of another event.
abbrev pub KeepsToItself : ℕ → List MatchRow → List SlotRow → Type 0
KeepsToItself event matches [] = Unit
KeepsToItself event matches (s ∷ slots) =
    (is_row_of event (find_match s.match_id matches) ≡ false → FedElsewhere event matches s.source)
    × KeepsToItself event matches slots

module _ (event : ℕ) where
  abbrev pub others : List MatchRow → List MatchRow
  others matches = keep_rows (λ m. not (m.event_id == event)) matches

  find_match-others :
      (k : ℕ) (matches : List MatchRow)
      → is_row_of event (find_match k matches) ≡ false
      → find_match k (others matches) ≡ find_match k matches
  unfolding find_match keep_rows
  find_match-others k [] h = refl
  find_match-others k (m ∷ matches) h = elim (Bool-cases (m.id == k)) [
    | inl e ↦ let away : (m.event_id == event) ≡ false = rw e at h in rw away (rw e refl)
    | inr e ↦ elim (Bool-cases (m.event_id == event)) [
      | inl own ↦ rw (own, e) (find_match-others k matches (rw e at h))
      | inr other ↦ rw (other, e) (find_match-others k matches (rw e at h))
    ]
  ]

  pub AllBelow-others :
      (n : ℕ) (matches : List MatchRow) → AllBelow n matches → AllBelow n (others matches)
  unfolding keep_rows
  AllBelow-others n [] below = tt
  AllBelow-others n (m ∷ matches) (low, below) =
      let rest = AllBelow-others n matches below in
      elim (Bool-cases (m.event_id == event)) [ inl e ↦ rw e rest | inr e ↦ rw e (low, rest) ]

  Fed-others :
      (matches : List MatchRow) (source : Source) (p : Option ℕ)
      → FedElsewhere event matches source
      → Fed matches source p
      → Fed (others matches) source p
  Fed-others matches fixed p away h = tt
  Fed-others matches empty p away h = tt
  Fed-others matches Source.bye p away h = tt
  Fed-others matches (group_placement g rank) p away h = tt
  Fed-others matches (match_winner k) p away h =
      h ∙ sym (ap row_winner (find_match-others k matches away))

  same_row :
      (o : Option MatchRow)
      → elim o [ none ↦ false | some m ↦ m.event_id == event ] ≡ is_row_of event o
  same_row none = refl
  same_row (some m) = refl

  is_of_event_row :
      (matches : List MatchRow) (s : SlotRow)
      → is_of_event event matches s ≡ is_row_of event (find_match s.match_id matches)
  is_of_event_row matches s = same_row (find_match s.match_id matches)

  pub AllFed-others :
      (matches : List MatchRow) (slots : List SlotRow)
      → AllFed matches slots
      → KeepsToItself event matches slots
      → AllFed (others matches) (keep_rows (λ s. not (is_of_event event matches s)) slots)
  unfolding keep_rows
  AllFed-others matches [] h apart = tt
  AllFed-others matches (s ∷ slots) (here, fed, rest) (own, apart) =
      let tail = AllFed-others matches slots rest apart in
      let which = is_of_event_row matches s in
      elim (Bool-cases (is_of_event event matches s)) [
        | inl e ↦ rw e tail
        | inr e ↦
            let away = sym which ∙ e in
            rw e (
              ap is_found (find_match-others s.match_id matches away) ∙ here,
              Fed-others matches s.source s.participant_id (own away) fed,
              tail,
            )
      ]
