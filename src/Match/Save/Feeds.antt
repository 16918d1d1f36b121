-- ===== src/Match/Save/Feeds.antt =====
-- `SaveScore` of internal/match/repository.go: the slots that a winner feeds hold the winner.
use tourney_api.Prelude.{
  ℕ, ◌≡◌, ◌≢◌, refl, ap, sym, ◌∙◌, inl, inr, Bool, true, Bool-cases, ◌||◌, Option, none, some,
  Option-cases, List, [], ◌∷◌, map, ◌==◌, arith,
}
use mathlib.Core.Option
use mathlib.Core.Path.{subst}
use tourney_api.Prelude.Decide.{ℕ-cases}
use tourney_api.Match.Scoring.{decided_status}
use tourney_api.Draw.Tables.{
  MatchRow, SlotRow, Tables, Source, fixed, empty, match_winner, group_placement, find_match,
  update_match, uuid_ptr_eq, uuid_ptr_eq-eq,
}
use tourney_api.Draw.Tables.Lookups.{
  found_row, winner_of, row_winner, has_match, is_found, find_match-update_self,
  find_match-update_ne,
}
use tourney_api.Draw.Rebuild.Writes.{
  write_slot-source, write_slot_unwanted, write_slot_wanted, rebuild_rebuilt,
}
use tourney_api.Draw.Standings.{Standing, group_standings}
use tourney_api.Draw.Rebuild.Placements.{wanted_placement_other, rebuild_group_placements_slots}
use tourney_api.Draw.Rebuild.{
  rebuilt, write_slot, rebuild, wanted_placement, rebuild_group_placements,
}
use tourney_api.Match.Save.Runs.{scored_tables, save_score-Run}
use tourney_api.Match.Save.{
  remaining_in_group, SaveInput, saved, score_row, wanted_winner, rebuild_winner_feeds,
  rebuild_placements, save_score,
}

-- What a slot's source says of its participant.
abbrev pub Fed : List MatchRow → Source → Option ℕ → Type 0
Fed matches (match_winner m) p = p ≡ winner_of m matches
Fed matches _ p = Unit

abbrev pub AllFed : List MatchRow → List SlotRow → Type 0
AllFed matches [] = Unit
AllFed matches (s ∷ slots) =
    (has_match s.match_id matches ≡ true)
    × Fed matches s.source s.participant_id
    × AllFed matches slots

-- Each slot is one of a match, and a slot that a match's winner feeds holds that match's winner:
-- nobody, while there is none.
abbrev pub FeedsHold : Tables → Type 0
FeedsHold db = AllFed db.matches db.slots

wanted_winner_self :
    (id k : ℕ) (w : Option ℕ) (s : SlotRow)
    → s.source ≡ match_winner k
    → k ≡ id
    → wanted_winner id w s ≡ some w
unfolding wanted_winner
wanted_winner_self id k w s h e = ground (arith, h, e)

wanted_winner_ne :
    (id k : ℕ) (w : Option ℕ) (s : SlotRow)
    → s.source ≡ match_winner k
    → k ≢ id
    → wanted_winner id w s ≡ none
unfolding wanted_winner
wanted_winner_ne id k w s h ne = ground (arith, h, ne)

Fed-source :
    (ms : List MatchRow) (src src' : Source) (p : Option ℕ)
    → src' ≡ src
    → Fed ms src p
    → Fed ms src' p
Fed-source ms src src' p e h = subst (λ x. Fed ms x p) (sym e) h

-- A rewrite of slots by a function that keeps their place and leaves each as its source says.
pub AllFed-map :
    (ms ms' : List MatchRow) (f : SlotRow → SlotRow) (slots : List SlotRow)
    → ((s : SlotRow) → ((f s).source ≡ s.source) × ((f s).match_id ≡ s.match_id))
    → ((id : ℕ) → has_match id ms ≡ true → has_match id ms' ≡ true)
    → ((s : SlotRow)
        → has_match s.match_id ms ≡ true
        → Fed ms s.source s.participant_id
        → Fed ms' s.source (f s).participant_id)
    → AllFed ms slots
    → AllFed ms' (map f slots)
AllFed-map ms ms' f [] keeps found step h = tt
AllFed-map ms ms' f (s ∷ slots) keeps found step h = (
  rw ((keeps s).1) (found s.match_id h.0),
  Fed-source ms' s.source (f s).source (f s).participant_id (keeps s).0 (step s h.0 h.1),
  AllFed-map ms ms' f slots keeps found step h.2,
)

pub AllFed-step :
    (ms ms' : List MatchRow) (slots : List SlotRow)
    → ((id : ℕ) → has_match id ms ≡ true → has_match id ms' ≡ true)
    → ((src : Source) (p : Option ℕ) → Fed ms src p → Fed ms' src p)
    → AllFed ms slots
    → AllFed ms' slots
AllFed-step ms ms' [] found step h = tt
AllFed-step ms ms' (s ∷ slots) found step h = (
  found s.match_id h.0,
  step s.source s.participant_id h.1,
  AllFed-step ms ms' slots found step h.2,
)

module _ (inp : SaveInput) (now : ℕ) (ms : List MatchRow) (old : MatchRow)
    (is_old : find_match inp.match_id ms ≡ some old) where
  abbrev pub scored : List MatchRow
  scored = update_match inp.match_id (score_row inp now) ms

  keeps_id : (m : MatchRow) → (score_row inp now m).id ≡ m.id
  unfolding score_row
  keeps_id m = refl

  pub winner_of-scored : winner_of inp.match_id scored ≡ inp.winner_id
  unfolding score_row
  winner_of-scored =
      ap row_winner (find_match-update_self inp.match_id (score_row inp now) ms keeps_id)
      ∙ ap (λ o. row_winner (Option.map (score_row inp now) o)) is_old

  winner_of-scored_ne : (k : ℕ) → k ≢ inp.match_id → winner_of k scored ≡ winner_of k ms
  winner_of-scored_ne k ne =
      ap row_winner (find_match-update_ne inp.match_id k (score_row inp now) ms keeps_id ne)

  has_match-scored : (k : ℕ) → has_match k ms ≡ true → has_match k scored ≡ true
  has_match-scored k h = elim (ℕ-cases k inp.match_id) [
    | inl e ↦ rw e (
        ap is_found (find_match-update_self inp.match_id (score_row inp now) ms keeps_id)
        ∙ ap (λ o. is_found (Option.map (score_row inp now) o)) is_old)
    | inr ne ↦
        ap is_found (find_match-update_ne inp.match_id k (score_row inp now) ms keeps_id ne) ∙ h
  ]

  -- Where the winner stays, so does what the feeds say.
  same_winner :
      (src : Source) (p : Option ℕ)
      → uuid_ptr_eq old.winner_participant_id inp.winner_id ≡ true
      → Fed ms src p
      → Fed scored src p
  same_winner (match_winner k) p same h = elim (ℕ-cases k inp.match_id) [
    | inl e ↦
        let before : winner_of k ms ≡ old.winner_participant_id =
          ap (λ x. winner_of x ms) e ∙ ap row_winner is_old in
        h
        ∙ before
        ∙ uuid_ptr_eq-eq old.winner_participant_id inp.winner_id same
        ∙ sym winner_of-scored
        ∙ ap (λ x. winner_of x scored) (sym e)
    | inr ne ↦ h ∙ sym (winner_of-scored_ne k ne)
  ]
  same_winner fixed p same h = tt
  same_winner empty p same h = tt
  same_winner Source.bye p same h = tt
  same_winner (group_placement g r) p same h = tt

  -- Where the winner changes, the slots it feeds are rewritten.
  new_winner :
      (s : SlotRow) (src : Source)
      → s.source ≡ src
      → has_match s.match_id ms ≡ true
      → Fed ms src s.participant_id
      → Fed scored src
          (write_slot scored (wanted_winner inp.match_id inp.winner_id) s).participant_id
  new_winner s (match_winner k) is_fed found h =
      let want = wanted_winner inp.match_id inp.winner_id in
      elim (ℕ-cases k inp.match_id) [
        | inl e ↦
            let (m, row) = found_row s.match_id scored (has_match-scored s.match_id found) in
            write_slot_wanted scored want s inp.winner_id m
              (wanted_winner_self inp.match_id k inp.winner_id s is_fed e) row
            ∙ sym winner_of-scored
            ∙ ap (λ x. winner_of x scored) (sym e)
        | inr ne ↦
            ap (λ t. t.participant_id)
              (write_slot_unwanted scored want s
                (wanted_winner_ne inp.match_id k inp.winner_id s is_fed ne))
            ∙ h
            ∙ sym (winner_of-scored_ne k ne)
      ]
  new_winner s fixed is_fed found h = tt
  new_winner s empty is_fed found h = tt
  new_winner s Source.bye is_fed found h = tt
  new_winner s (group_placement g r) is_fed found h = tt

  rebuild_winner_feeds-AllFed :
      (slots slots' : List SlotRow) (n : ℕ)
      → rebuild_winner_feeds inp old.winner_participant_id scored slots ≡ rebuilt n slots'
      → AllFed ms slots
      → AllFed scored slots'
  unfolding rebuild_winner_feeds
  rebuild_winner_feeds-AllFed slots slots' n h fed =
      let same = uuid_ptr_eq old.winner_participant_id inp.winner_id in
      let want = wanted_winner inp.match_id inp.winner_id in
      elim (Bool-cases same) [
        | inl kept ↦
            let e : slots' ≡ slots = ground (arith, h, kept) in
            subst (AllFed scored) (sym e) (
              AllFed-step ms scored slots has_match-scored (λ src q f. same_winner src q kept f)
                fed)
        | inr changed ↦
            let run : rebuild scored want slots ≡ rebuilt n slots' = ground (arith, h, changed) in
            let (e, _) = rebuild_rebuilt scored want slots slots' n run in
            subst (AllFed scored) (sym e) (
              AllFed-map ms scored (write_slot scored want) slots
                (λ s. let (a, b, _) = write_slot-source scored want s in (a, b)) has_match-scored
                (λ s found f. new_winner s s.source refl found f) fed)
      ]

placed-Fed :
    (ms : List MatchRow) (g : ℕ) (complete : Bool) (ps : List Standing) (s : SlotRow) (src : Source)
    → s.source ≡ src
    → Fed ms src s.participant_id
    → Fed ms src (write_slot ms (wanted_placement g complete ps) s).participant_id
placed-Fed ms g complete ps s (match_winner k) e h =
    ap (λ t. t.participant_id)
      (write_slot_unwanted ms (wanted_placement g complete ps) s
        (wanted_placement_other g complete ps s (match_winner k) e refl))
    ∙ h
placed-Fed ms g complete ps s fixed e h = tt
placed-Fed ms g complete ps s empty e h = tt
placed-Fed ms g complete ps s Source.bye e h = tt
placed-Fed ms g complete ps s (group_placement _ r) e h = tt

pub rebuild_group_placements-FeedsHold :
    (g : ℕ) (complete : Bool) (db : Tables) (slots' : List SlotRow) (n : ℕ)
    → rebuild_group_placements g complete db ≡ rebuilt n slots'
    → FeedsHold db
    → AllFed db.matches slots'
rebuild_group_placements-FeedsHold g complete db slots' n h fed =
    let ps = group_standings g db in
    let want = wanted_placement g complete ps in
    subst (AllFed db.matches) (sym (rebuild_group_placements_slots g complete db slots' n h)) (
      AllFed-map db.matches db.matches (write_slot db.matches want) db.slots
        (λ s. let (a, b, _) = write_slot-source db.matches want s in (a, b)) (λ id f. f)
        (λ s found f. placed-Fed db.matches g complete ps s s.source refl f) fed)

rebuild_placements-FeedsHold :
    (inp : SaveInput) (old : MatchRow) (db : Tables) (slots' : List SlotRow) (n : ℕ)
    → rebuild_placements inp old db ≡ rebuilt n slots'
    → FeedsHold db
    → AllFed db.matches slots'
unfolding rebuild_placements
rebuild_placements-FeedsHold inp old db slots' n h fed = elim (Option-cases old.group_id) [
  | inl e ↦ rw (same (ground (arith, h, e))) fed
  | inr (g, e) ↦ elim (Bool-cases (decided_status old.status || decided_status inp.status)) [
    | inl decided ↦
        rebuild_group_placements-FeedsHold g (remaining_in_group g db.matches == 0) db slots' n
          (ground (arith, h, e, decided)) fed
    | inr open_ ↦ rw (same (ground (arith, h, e, open_))) fed
  ]
]
  where
    same : rebuilt 0 db.slots ≡ rebuilt n slots' → slots' ≡ db.slots
    same e = cc

-- A score that is saved keeps the feeds: whatever was entered, corrected or taken back, each slot
-- that a match's winner feeds holds the winner of that match, if that was so before.
pub save_score-FeedsHold :
    (inp : SaveInput) (now : ℕ) (db db' : Tables)
    → save_score inp now db ≡ saved db'
    → FeedsHold db
    → FeedsHold db'
save_score-FeedsHold inp now db db' h fed =
    let run = save_score-Run inp now db db' h in
    let feeds =
      rebuild_winner_feeds-AllFed inp now db.matches run.old run.found db.slots run.feeds run.fed
        run.rebuilt_feeds fed in
    subst FeedsHold (sym run.result) (
      rebuild_placements-FeedsHold inp run.old
        (record (scored_tables inp now db) { slots = run.feeds }) run.slots run.placed
        run.rebuilt_placements feeds)
