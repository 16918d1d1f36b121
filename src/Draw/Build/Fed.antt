-- ===== src/Draw/Build/Fed.antt =====
-- internal/draw/service.go: in a draw that has just been stored, nobody stands where a match's winner
-- goes.
use tourney_api.Prelude.{
  ℕ, suc, ◌+◌, ◌≤◌, ◌<◌, ◌≡◌, ◌≢◌, refl, ap, sym, ◌∙◌, inl, inr, Bool-cases, true, false, Option,
  Option-cases, none, some, List, [], ◌∷◌, ◌++◌, ◌==◌, length, String, arith,
}
use mathlib.Core.Path.{subst}
use tourney_api.Draw.{Match}
use tourney_api.Draw.Tables.{
  MatchRow, SlotRow, Tables, Source, fixed, empty, match_winner, group_placement, find_match,
}
use tourney_api.Draw.Tables.Lookups.{winner_of, row_winner, has_match, is_found}
use tourney_api.Match.Save.Feeds.{Fed, AllFed, AllFed-step, FeedsHold}
use tourney_api.Draw.Build.Cleared.{AllBelow}
use tourney_api.Draw.Build.Waits.{Waits, AllNew, type_feeds-AllNew, new_slots-AllNew}
use tourney_api.Draw.Build.{
  clear_draw, group_count, group_id_of, new_groups, new_matches, new_slots, type_feeds,
  persist_with_groups,
}

pub row_winner-append :
    (k : ℕ) (old new : List MatchRow)
    → (has_match k old ≡ true → (find_match k (old ++ new) ≡ find_match k old))
      × (find_match k old ≡ none → find_match k (old ++ new) ≡ find_match k new)
unfolding find_match
row_winner-append k [] new =
    ((λ h. let no_match : ⊥ = ground (arith, h) in elim no_match [ ]), (λ h. refl))
row_winner-append k (m ∷ old) new =
    let (first, second) = row_winner-append k old new in
    elim (Bool-cases (m.id == k)) [
      | inl e ↦ rw e ((λ h. refl), (λ h. let no_match : ⊥ = ground (arith, h) in elim no_match [ ]))
      | inr e ↦ rw e (first, second)
    ]

find_match-AllBelow :
    (k n : ℕ) (matches : List MatchRow) → AllBelow n matches → n ≤ k → find_match k matches ≡ none
unfolding find_match
find_match-AllBelow k n [] below h = refl
find_match-AllBelow k n (m ∷ matches) (low, below) h =
    let away : (m.id == k) ≡ false = ground (arith, low, h) in
    rw away (find_match-AllBelow k n matches below h)

module _ (event first count base : ℕ) where
  winner_of-new_matches :
      (k i : ℕ) (ms : List Match) → winner_of k (new_matches event first count base i ms) ≡ none
  unfolding find_match new_matches
  winner_of-new_matches k i [] = refl
  winner_of-new_matches k i (m ∷ ms) =
      let rest = winner_of-new_matches k (suc i) ms in
      elim (Bool-cases ((base + i) == k)) [ inl e ↦ rw e refl | inr e ↦ rw e rest ]

  has_match-new_matches :
      (j i : ℕ) (ms : List Match)
      → i ≤ j
      → j < i + length ms
      → has_match (base + j) (new_matches event first count base i ms) ≡ true
  unfolding find_match new_matches
  has_match-new_matches j i [] low high =
      let no_match : ⊥ = omega (arith, low, high) in elim no_match [ ]
  has_match-new_matches j i (m ∷ ms) low high = elim (Bool-cases ((base + i) == (base + j))) [
    | inl e ↦ rw e refl
    | inr e ↦
        let above : i ≢ j = λ same. ground (arith, e, same) in
        rw e (has_match-new_matches j (suc i) ms (ground (arith, low, above)) (omega (arith, high)))
  ]

-- Matches without winners after others.
module _ (old new : List MatchRow) (nobody : (k : ℕ) → winner_of k new ≡ none) where
  winner_of-append : (k : ℕ) → winner_of k (old ++ new) ≡ winner_of k old
  winner_of-append k = elim (Option-cases (find_match k old)) [
    | inl e ↦ ap row_winner ((row_winner-append k old new).1 e) ∙ nobody k ∙ sym (ap row_winner e)
    | inr (m, e) ↦ ap row_winner ((row_winner-append k old new).0 (ap is_found e))
  ]

  has_match-append : (k : ℕ) → has_match k old ≡ true → has_match k (old ++ new) ≡ true
  has_match-append k h = ap is_found ((row_winner-append k old new).0 h) ∙ h

  Fed-append : (source : Source) (p : Option ℕ) → Fed old source p → Fed (old ++ new) source p
  Fed-append fixed p h = tt
  Fed-append empty p h = tt
  Fed-append Source.bye p h = tt
  Fed-append (match_winner k) p h = h ∙ sym (winner_of-append k)
  Fed-append (group_placement g rank) p h = tt

  module _ (base : ℕ) (below : AllBelow base old) where
    Fed-Waits : (source : Source) (p : Option ℕ) → Waits base source p → Fed (old ++ new) source p
    Fed-Waits fixed p h = tt
    Fed-Waits empty p h = tt
    Fed-Waits Source.bye p h = tt
    Fed-Waits (match_winner k) p (alone, above) =
        alone
        ∙ sym (winner_of-append k ∙ ap row_winner (find_match-AllBelow k base old below above))
    Fed-Waits (group_placement g rank) p h = tt

    AllFed-AllNew : (rows : List SlotRow) → AllNew base (old ++ new) rows → AllFed (old ++ new) rows
    AllFed-AllNew [] h = tt
    AllFed-AllNew (s ∷ rows) (here, waits, rest) =
        (here, Fed-Waits s.source s.participant_id waits, AllFed-AllNew rows rest)

AllFed-append :
    (matches : List MatchRow) (xs ys : List SlotRow)
    → AllFed matches xs
    → AllFed matches ys
    → AllFed matches (xs ++ ys)
AllFed-append matches [] ys hx hy = hy
AllFed-append matches (s ∷ xs) ys (here, fed, rest) hy =
    (here, fed, AllFed-append matches xs ys rest hy)

AllBelow-more : (n k : ℕ) (matches : List MatchRow) → AllBelow n matches → AllBelow (n + k) matches
AllBelow-more n k [] below = tt
AllBelow-more n k (m ∷ matches) (low, below) = (omega (arith, low), AllBelow-more n k matches below)

module _ (default_name : ℕ → String) where
  pub persist_with_groups-FeedsHold :
      (event : ℕ) (ms : List Match) (names : List String) (advance : List ℕ) (db db' : Tables)
      → persist_with_groups default_name event ms names advance db ≡ some db'
      → FeedsHold (clear_draw event db)
      → AllBelow db.next_id (clear_draw event db).matches
      → FeedsHold db'
  unfolding persist_with_groups
  persist_with_groups-FeedsHold event ms names advance db db' h fed below =
      let count = group_count ms in
      let first = db.next_id in
      let base = first + count in
      let cleared = clear_draw event db in
      let new = new_matches event first count base 0 ms in
      let nobody : (k : ℕ) → winner_of k new ≡ none =
        λ k. winner_of-new_matches event first count base k 0 ms in
      elim (Option-cases (new_slots (group_id_of first count) base 0 ms)) [
        | inl e ↦ let no_tables : ⊥ = ground (arith, h, e) in elim no_tables [ ]
        | inr (rows, e) ↦
            let typed = type_feeds base 0 ms rows in
            let under = AllBelow-more first count cleared.matches below in
            let made =
              new_slots-AllNew base (cleared.matches ++ new) (group_id_of first count) 0 ms rows
                (λ j low high.
                  ap is_found (
                    (row_winner-append (base + j) cleared.matches new).1
                      (find_match-AllBelow (base + j) base cleared.matches under (omega arith)))
                  ∙ has_match-new_matches event first count base j 0 ms low high)
                e in
            let fresh =
              AllFed-AllNew cleared.matches new nobody base under typed
                (type_feeds-AllNew base (cleared.matches ++ new) 0 ms rows made) in
            let kept =
              AllFed-step cleared.matches (cleared.matches ++ new) cleared.slots
                (has_match-append cleared.matches new nobody)
                (Fed-append cleared.matches new nobody) fed in
            let built : Tables = record cleared {
              groups = cleared.groups ++ new_groups default_name names advance event first 0 count;
              matches = cleared.matches ++ new;
              slots = cleared.slots ++ typed;
              next_id = base + length ms;
            } in
            let same : built ≡ db' = ground (arith, h, e) in
            subst FeedsHold same
              (AllFed-append (cleared.matches ++ new) cleared.slots typed kept fresh)
      ]
