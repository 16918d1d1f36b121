-- ===== src/Match/Save/Locks.antt =====
-- `SaveScore` of internal/match/repository.go: the slots of matches that have started.
use tourney_api.Prelude.{
  ℕ, ◌⊎◌, false, ◌≡◌, ◌≢◌, refl, ap, ◌∙◌, inl, inr, true, false, Bool-cases, ◌||◌, ◌==◌, Option,
  some, Option-cases, List, [], ◌∷◌, arith, get_elem?, get_elem?-map_at,
}
use tourney_api.Match.Scoring.{decided_status}
use tourney_api.Draw.Tables.{
  MatchRow, SlotRow, Tables, match_winner, find_match, uuid_ptr_eq, uuid_ptr_eq-eq,
}
use tourney_api.Draw.Tables.Lookups.{find_match-update_ne}
use tourney_api.Draw.Rebuild.{
  LockedSlot, locked_slot, rebuilt, may_change, is_started, write_slot, rebuild,
}
use tourney_api.Draw.Rebuild.Writes.{
  In, rebuild_rebuilt, rebuild_refused, write_slot_started, locked_slots-In,
}
use tourney_api.Draw.Rebuild.Placements.{rebuild_group_placements_started}
use tourney_api.Match.Save.{
  SaveInput, saved, downstream_locked, score_row, wanted_winner, rebuild_winner_feeds,
  rebuild_placements, remaining_in_group, save_feeds, save_score,
}
use tourney_api.Match.Save.Runs.{scored_tables, save_score-Run}

rebuild_started :
    (ms : List MatchRow) (want : SlotRow → Option (Option ℕ)) (slots slots' : List SlotRow)
    (n i : ℕ) (s : SlotRow) (m : MatchRow)
    → rebuild ms want slots ≡ rebuilt n slots'
    → get_elem? slots i ≡ some s
    → find_match s.match_id ms ≡ some m
    → is_started m ≡ true
    → get_elem? slots' i ≡ some s
rebuild_started ms want slots slots' n i s m h at row started =
    let (e, none_locked) = rebuild_rebuilt ms want slots slots' n h in
    ap (λ x. get_elem? x i) e
    ∙ get_elem?-map_at (write_slot ms want) slots i s at
    ∙ ap some (write_slot_started ms want s slots i m none_locked at row started)

module _ (inp : SaveInput) (now : ℕ) (db : Tables) (i : ℕ) (s : SlotRow) (m : MatchRow)
    (row : find_match s.match_id db.matches ≡ some m) (elsewhere : s.match_id ≢ inp.match_id)
    (started : is_started m ≡ true) where
  row_scored : find_match s.match_id (scored_tables inp now db).matches ≡ some m
  unfolding score_row
  row_scored =
      find_match-update_ne inp.match_id s.match_id (score_row inp now) db.matches (λ r. refl)
        elsewhere
      ∙ row

  feeds_started :
      (old : Option ℕ) (slots' : List SlotRow) (n : ℕ)
      → rebuild_winner_feeds inp old (scored_tables inp now db).matches db.slots ≡ rebuilt n slots'
      → get_elem? db.slots i ≡ some s
      → get_elem? slots' i ≡ some s
  unfolding rebuild_winner_feeds
  feeds_started old slots' n h at = elim (Bool-cases (uuid_ptr_eq old inp.winner_id)) [
    | inl same ↦
        let e : slots' ≡ db.slots = ground (arith, h, same) in ap (λ x. get_elem? x i) e ∙ at
    | inr changed ↦
        rebuild_started (scored_tables inp now db).matches
          (wanted_winner inp.match_id inp.winner_id) db.slots slots' n i s m
          (ground (arith, h, changed)) at row_scored started
  ]

  placements_started :
      (old : MatchRow) (feeds slots' : List SlotRow) (n : ℕ)
      → rebuild_placements inp old (record (scored_tables inp now db) { slots = feeds })
        ≡ rebuilt n slots'
      → get_elem? feeds i ≡ some s
      → get_elem? slots' i ≡ some s
  unfolding rebuild_placements
  placements_started old feeds slots' n h at =
      let db' = record (scored_tables inp now db) { slots = feeds } in
      let unchanged : rebuilt 0 feeds ≡ rebuilt n slots' → get_elem? slots' i ≡ some s =
        λ e. (let same : slots' ≡ feeds = cc in ap (λ x. get_elem? x i) same ∙ at) in
      elim (Option-cases old.group_id) [
        | inl e ↦ unchanged (ground (arith, h, e))
        | inr (g, e) ↦ elim (Bool-cases (decided_status old.status || decided_status inp.status)) [
          | inl decided ↦
              rebuild_group_placements_started g (remaining_in_group g db'.matches == 0) db' slots'
                n i s m (ground (arith, h, e, decided)) at row_scored started
          | inr open_ ↦ unchanged (ground (arith, h, e, open_))
        ]
      ]

begun : (m : MatchRow) → (may_change m.status ≡ false) ⊎ (m.sets ≢ []) → is_started m ≡ true
unfolding is_started
begun m (inl status) = ground (arith, status)
begun m (inr scored) = ground (arith, scored)

-- A score that is saved leaves every slot of every other match as it is, if that match is neither
-- pending, scheduled nor a bye, or if it has scores.
pub save_score_started :
    (inp : SaveInput) (now : ℕ) (db db' : Tables) (i : ℕ) (s : SlotRow) (m : MatchRow)
    → save_score inp now db ≡ saved db'
    → get_elem? db.slots i ≡ some s
    → find_match s.match_id db.matches ≡ some m
    → s.match_id ≢ inp.match_id
    → (may_change m.status ≡ false) ⊎ (m.sets ≢ [])
    → get_elem? db'.slots i ≡ some s
save_score_started inp now db db' i s m h at row elsewhere started =
    let run = save_score-Run inp now db db' h in
    ap (λ d. get_elem? d.slots i) run.result
    ∙ placements_started inp now db i s m row elsewhere (begun m started) run.old run.feeds
        run.slots run.placed run.rebuilt_placements
        (feeds_started inp now db i s m row elsewhere (begun m started)
          run.old.winner_participant_id run.feeds run.fed run.rebuilt_feeds at)

-- A score that would change a slot of another match that has started is refused, and the refusal
-- names that slot: here a slot that the match feeds, which holds another participant than the new
-- winner, where the winner is not the one recorded.
pub save_score-downstream_locked :
    (inp : SaveInput) (now : ℕ) (db : Tables) (i : ℕ) (s : SlotRow) (m old : MatchRow)
    → find_match inp.match_id db.matches ≡ some old
    → old.winner_participant_id ≢ inp.winner_id
    → get_elem? db.slots i ≡ some s
    → s.source ≡ match_winner inp.match_id
    → s.participant_id ≢ inp.winner_id
    → find_match s.match_id db.matches ≡ some m
    → s.match_id ≢ inp.match_id
    → is_started m ≡ true
    → (l : LockedSlot) × (locked : List LockedSlot) × (save_score inp now db
        ≡ downstream_locked l locked)
      × In (locked_slot m s) (l ∷ locked)
unfolding save_score save_feeds rebuild_winner_feeds wanted_winner
save_score-downstream_locked inp now db i s m old found new at source differs row elsewhere
      started =
    let ms = (scored_tables inp now db).matches in
    let want = wanted_winner inp.match_id inp.winner_id in
    let named =
      locked_slots-In ms want s db.slots i m inp.winner_id at (ground (arith, source))
        (row_scored inp now db i s m row elsewhere started) differs started in
    let (l, locked, run, member) = rebuild_refused ms want db.slots (locked_slot m s) named in
    let changed : uuid_ptr_eq old.winner_participant_id inp.winner_id ≡ false =
      elim (Bool-cases (uuid_ptr_eq old.winner_participant_id inp.winner_id)) [
        | inl same ↦ let no_change : ⊥ = new (uuid_ptr_eq-eq _ _ same) in elim no_change [ ]
        | inr e ↦ e
      ] in
    (l, locked, ground (arith, found, changed, run), member)
