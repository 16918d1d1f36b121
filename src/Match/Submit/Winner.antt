-- ===== src/Match/Submit/Winner.antt =====
-- `SubmitScore` of internal/match/service.go: what an accepted score records, and for whom.
use mathlib.Core.Path.{subst}
use tourney_api.Prelude.{
  ℕ, ◌≡◌, ◌≢◌, refl, ap, sym, ◌∙◌, ◌⊎◌, inl, inr, Bool, true, false, ◌&&◌, Option, some,
  Option-cases, List, [], ◌∷◌, if◌then◌else◌, arith,
}
use tourney_api.Prelude.Int.{pos, pos_part}
use tourney_api.Match.Scoring.{Status, normal, decided_status, status_for_completion}
use tourney_api.Match.Scoring.Score.{Outcome, validate_score}
use tourney_api.Match.Scoring.Score.Accept.{
  NormalWin, validate_score-NormalWin, validate_score-Settled,
}
use tourney_api.Match.Save.{SaveInput, Saved, saved, match_not_found, downstream_locked, save_score}
use tourney_api.Match.Save.Runs.{save_score-Run}
use tourney_api.Match.Save.Feeds.{
  FeedsHold, Fed, AllFed-map, save_score-FeedsHold, winner_of-scored,
}
use tourney_api.Draw.Tables.{
  MatchRow, SlotRow, EventRow, Tables, Source, fixed, empty, match_winner, group_placement,
  find_match, find_event,
}
use tourney_api.Draw.Tables.Lookups.{winner_of}
use tourney_api.Draw.Rebuild.Placements.{is_placement}
use tourney_api.Draw.Groups.{maybe_resolve_groups, fill_slot}
use tourney_api.Draw.Groups.Resolved.{fill_slot-source, fill_slot_other, maybe_resolve_groups_rows}
use tourney_api.Match.Submit.{
  ScoreRequest, submitted, config_of, participant_for_slot, winner_for, after_save, submit_valid,
  submit_authorized, submit_score,
}

-- The input that a request becomes.
abbrev save_input : ℕ → ℕ → ScoreRequest → Outcome → Option ℕ → SaveInput
save_input id actor req out winner = record {
  match_id = id;
  sets = req.sets;
  status = out.status;
  completion = req.completion;
  winner_id = winner;
  actor = actor;
}

after_save_submitted :
    (id : ℕ) (status : Status) (topic t : Bool) (r : Saved) (db' : Tables)
    → after_save id status topic r ≡ submitted db' t
    → (db : Tables) × (r ≡ saved db)
      × (db' ≡ (if decided_status status then (maybe_resolve_groups id db).0 else db))
unfolding after_save
after_save_submitted id status topic t (saved db) db' h = (db, refl, cc)
after_save_submitted id status topic t match_not_found db' h = let clash : ⊥ = cc in elim clash [ ]
after_save_submitted id status topic t (downstream_locked l ls) db' h =
    let clash : ⊥ = cc in elim clash [ ]

submit_valid_submitted :
    (id actor now : ℕ) (req : ScoreRequest) (topic t : Bool) (db db' : Tables) (out : Outcome)
    → submit_valid id actor req now topic db out ≡ submitted db' t
    → (winner : Option ℕ) × (winner_for out.winner id db.slots ≡ some winner)
      × (after_save id out.status topic (save_score (save_input id actor req out winner) now db)
          ≡ submitted db' t)
unfolding submit_valid
submit_valid_submitted id actor now req topic t db db' out h =
    elim (Option-cases (winner_for out.winner id db.slots)) [
      | inl e ↦ let clash : ⊥ = ground (arith, h, e) in elim clash [ ]
      | inr (winner, e) ↦ (winner, e, ground (arith, h, e))
    ]

pub List-cases {ℓ} :
    {A : Type ℓ} (xs : List A) → (xs ≡ []) ⊎ ((x : A) × (rest : List A) × (xs ≡ x ∷ rest))
List-cases [] = inl refl
List-cases (x ∷ rest) = inr (x, rest, refl)

abbrev verdict : EventRow → ScoreRequest → Outcome
verdict e req = validate_score (config_of e) req.sets req.completion req.winner_slot

submit_authorized_submitted :
    (id actor now : ℕ) (req : ScoreRequest) (e : EventRow) (t : Bool) (db db' : Tables)
    → submit_authorized id actor req now e db ≡ submitted db' t
    → (topic : Bool) × ((verdict e req).violations ≡ [])
      × (submit_valid id actor req now topic db (verdict e req) ≡ submitted db' t)
unfolding submit_authorized
submit_authorized_submitted id actor now req e t db db' h =
    elim (List-cases (verdict e req).violations) [
      | inl clean ↦ (db.published && e.is_public, clean, ground (arith, h, clean))
      | inr (v, vs, bad) ↦ let clash : ⊥ = ground (arith, h, bad) in elim clash [ ]
    ]

submit_score_authorized :
    (id actor now : ℕ) (org : Option ℕ) (req : ScoreRequest) (t : Bool) (db db' : Tables)
    (m : MatchRow) (e : EventRow)
    → submit_score id actor org req now db ≡ submitted db' t
    → find_match id db.matches ≡ some m
    → find_event m.event_id db.events ≡ some e
    → submit_authorized id actor req now e db ≡ submitted db' t
unfolding submit_score
submit_score_authorized id actor now org req t db db' m e h row event =
    ground (arith, h, row, event)

submit_score_submitted :
    (id actor now : ℕ) (org : Option ℕ) (req : ScoreRequest) (t : Bool) (db db' : Tables)
    → submit_score id actor org req now db ≡ submitted db' t
    → (e : EventRow) × (submit_authorized id actor req now e db ≡ submitted db' t)
unfolding submit_score
submit_score_submitted id actor now org req t db db' h =
    elim (Option-cases (find_match id db.matches)) [
      | inl a ↦ let clash : ⊥ = ground (arith, h, a) in elim clash [ ]
      | inr (m, a) ↦ elim (Option-cases (find_event m.event_id db.events)) [
        | inl b ↦ let clash : ⊥ = ground (arith, h, a, b) in elim clash [ ]
        | inr (e, b) ↦ (e, submit_score_authorized id actor now org req t db db' m e h a b)
      ]
    ]

filled-Fed :
    (event : ℕ) (db : Tables) (s : SlotRow) (src : Source)
    → s.source ≡ src
    → Fed db.matches src s.participant_id
    → Fed db.matches src (fill_slot event db s).participant_id
filled-Fed event db s (match_winner k) e h =
    ap (λ t. t.participant_id) (fill_slot_other event db s (ap is_placement e)) ∙ h
filled-Fed event db s fixed e h = tt
filled-Fed event db s empty e h = tt
filled-Fed event db s Source.bye e h = tt
filled-Fed event db s (group_placement g r) e h = tt

pub maybe_resolve_groups-FeedsHold :
    (id : ℕ) (db : Tables) → FeedsHold db → FeedsHold (maybe_resolve_groups id db).0
maybe_resolve_groups-FeedsHold id db fed = elim (maybe_resolve_groups_rows id db) [
  | inl same ↦ subst FeedsHold (sym same) fed
  | inr (event, filled) ↦ subst FeedsHold (sym filled) (
      AllFed-map db.matches db.matches (fill_slot event db) db.slots (fill_slot-source event db)
        (λ k f. f) (λ s found f. filled-Fed event db s s.source refl f) fed)
]

maybe_resolve_groups_matches :
    (id : ℕ) (db : Tables) → (maybe_resolve_groups id db).0.matches ≡ db.matches
maybe_resolve_groups_matches id db = elim (maybe_resolve_groups_rows id db) [
  | inl same ↦ ap (λ d. d.matches) same
  | inr (event, filled) ↦ ap (λ d. d.matches) filled
]

resolved-FeedsHold :
    (id : ℕ) (decided : Bool) (db : Tables)
    → FeedsHold db
    → FeedsHold (if decided then (maybe_resolve_groups id db).0 else db)
resolved-FeedsHold id true db fed = maybe_resolve_groups-FeedsHold id db fed
resolved-FeedsHold id false db fed = fed

resolved_matches :
    (id : ℕ) (decided : Bool) (db : Tables)
    → (if decided then (maybe_resolve_groups id db).0 else db).matches ≡ db.matches
resolved_matches id true db = maybe_resolve_groups_matches id db
resolved_matches id false db = refl

-- A score that is submitted, with the resolution of the groups that follows it, keeps the feeds:
-- each slot that a match's winner feeds holds the winner of that match, if that was so before.
pub submit_score-FeedsHold :
    (id actor now : ℕ) (org : Option ℕ) (req : ScoreRequest) (t : Bool) (db db' : Tables)
    → submit_score id actor org req now db ≡ submitted db' t
    → FeedsHold db
    → FeedsHold db'
submit_score-FeedsHold id actor now org req t db db' h fed =
    let (e, h1) = submit_score_submitted id actor now org req t db db' h in
    let (topic, _, h2) = submit_authorized_submitted id actor now req e t db db' h1 in
    let out = verdict e req in
    let (winner, _, h3) = submit_valid_submitted id actor now req topic t db db' out h2 in
    let inp = save_input id actor req out winner in
    let (db1, is_saved, final) =
      after_save_submitted id out.status topic t (save_score inp now db) db' h3 in
    subst FeedsHold (sym final) (
      resolved-FeedsHold id (decided_status out.status) db1
        (save_score-FeedsHold inp now db db1 is_saved fed))

winner_for_slot :
    (w id : ℕ) (slots : List SlotRow) (winner : Option ℕ)
    → winner_for (pos w) id slots ≡ some winner
    → w ≢ 0
    → (p : ℕ) × (winner ≡ some p) × (participant_for_slot id w slots ≡ some p)
unfolding winner_for
winner_for_slot w id slots winner h ne = elim (Option-cases (participant_for_slot id w slots)) [
  | inl e ↦ let clash : ⊥ = ground (arith, h, e, ne) in elim clash [ ]
  | inr (p, e) ↦ (p, ground (arith, h, e, ne), e)
]

-- A normal result that is accepted was played out: its sets, in some order, decide the match by the
-- rules of its event for one side, and the participant in that side's slot, which is not empty, is
-- the winner that the match then names.
pub submit_score-NormalWin :
    (id actor now : ℕ) (org : Option ℕ) (req : ScoreRequest) (t : Bool) (db db' : Tables)
    (m : MatchRow) (e : EventRow)
    → submit_score id actor org req now db ≡ submitted db' t
    → req.completion ≡ normal
    → find_match id db.matches ≡ some m
    → find_event m.event_id db.events ≡ some e
    → (w p : ℕ) × NormalWin (config_of e) req.sets w
      × (participant_for_slot id w db.slots ≡ some p)
      × (winner_of id db'.matches ≡ some p)
unfolding status_for_completion
submit_score-NormalWin id actor now org req t db db' m e h is_normal row event =
    let h1 = submit_score_authorized id actor now org req t db db' m e h row event in
    let (topic, clean, h2) = submit_authorized_submitted id actor now req e t db db' h1 in
    let out = verdict e req in
    let (winner, is_winner, h3) = submit_valid_submitted id actor now req topic t db db' out h2 in
    let inp = save_input id actor req out winner in
    let (db1, is_saved, final) =
      after_save_submitted id out.status topic t (save_score inp now db) db' h3 in
    let run = save_score-Run inp now db db1 is_saved in
    let same : out ≡ validate_score (config_of e) req.sets normal req.winner_slot =
      ap (λ c. validate_score (config_of e) req.sets c req.winner_slot) is_normal in
    let o = validate_score (config_of e) req.sets normal req.winner_slot in
    let w = pos_part o.winner in
    let (settled, side) =
      validate_score-Settled (config_of e) req.sets req.winner_slot
        (sym (ap (λ x. x.violations) same) ∙ clean) in
    let slot : out.winner ≡ pos w = ap (λ x. x.winner) (same ∙ settled) in
    let (p, is_p, occupant) =
      winner_for_slot w id db.slots winner
        (ap (λ x. winner_for x id db.slots) (sym slot) ∙ is_winner) (omega (arith, side)) in
    (
      w,
      p,
      ((validate_score-NormalWin (config_of e) req.sets req.winner_slot w).0 settled).1,
      occupant,
      ap (λ d. winner_of id d.matches) final
          ∙ ap (winner_of id) (resolved_matches id (decided_status out.status) db1)
          ∙ ap (λ d. winner_of id d.matches) run.result
          ∙ winner_of-scored inp now db.matches run.old run.found
          ∙ is_p,
    )
