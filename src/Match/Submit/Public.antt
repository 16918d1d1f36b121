-- ===== src/Match/Submit/Public.antt =====
-- internal/match/service.go: what the public stream hears.
use tourney_api.Prelude.{
  ℕ, ◌≡◌, refl, sym, ◌∙◌, ◌⊎◌, inl, inr, Bool, true, false, Bool-cases, ◌&&◌, Option, none, some,
  Option-cases, arith,
}
use tourney_api.Match.Scoring.{Status}
use tourney_api.Match.Scoring.Score.{Outcome, validate_score}
use tourney_api.Match.Save.{Saved, saved, match_not_found, downstream_locked, save_score}
use tourney_api.Match.Save
use tourney_api.Draw.Tables.{MatchRow, EventRow, Tables, find_match, find_event}
use tourney_api.Match.Submit.Winner.{List-cases}
use tourney_api.Match.Submit.{
  ScoreRequest, Submitted, submitted, config_of, winner_for, after_save, submit_valid,
  submit_authorized, submit_score, after_status, set_status, MatchView, get, get_public,
}

abbrev pub is_shown : Option MatchView → Bool
is_shown none = false
is_shown (some v) = true

-- Whether an accepted call is broadcast, if it is accepted.
abbrev Topic : Bool → Submitted → Type 0
Topic t r = (db : Tables) (b : Bool) → r ≡ submitted db b → b ≡ t

after_save-Topic :
    (id : ℕ) (status : Status) (t : Bool) (r : Saved) → Topic t (after_save id status t r)
unfolding after_save
after_save-Topic id status t (saved x) db b h = ground (arith, h)
after_save-Topic id status t match_not_found db b h = ground (arith, h)
after_save-Topic id status t (downstream_locked l ls) db b h = ground (arith, h)

after_status-Topic : (t : Bool) (r : Saved) → Topic t (after_status t r)
unfolding after_status
after_status-Topic t (saved x) db b h = ground (arith, h)
after_status-Topic t match_not_found db b h = ground (arith, h)
after_status-Topic t (downstream_locked l ls) db b h = ground (arith, h)

submit_valid-Topic :
    (id actor now : ℕ) (req : ScoreRequest) (t : Bool) (db : Tables) (out : Outcome)
    → Topic t (submit_valid id actor req now t db out)
unfolding submit_valid
submit_valid-Topic id actor now req t db out =
    elim (Option-cases (winner_for out.winner id db.slots)) [
      | inl e ↦ rw (submit_valid, e) (λ db' b h. ground (arith, h))
      | inr (w, e) ↦ rw (submit_valid, e) (after_save-Topic id out.status t _)
    ]

submit_authorized-Topic :
    (id actor now : ℕ) (req : ScoreRequest) (e : EventRow) (db : Tables)
    → Topic (db.published && e.is_public) (submit_authorized id actor req now e db)
unfolding submit_authorized
submit_authorized-Topic id actor now req e db =
    let out = validate_score (config_of e) req.sets req.completion req.winner_slot in
    elim (List-cases out.violations) [
      | inl clean ↦
          rw (submit_authorized, clean)
            (submit_valid-Topic id actor now req (db.published && e.is_public) db out)
      | inr (v, vs, bad) ↦ rw (submit_authorized, bad) (λ db' b h. ground (arith, h))
    ]

is_shown-get_public :
    (id : ℕ) (db : Tables) (m : MatchRow) (e : EventRow)
    → find_match id db.matches ≡ some m
    → find_event m.event_id db.events ≡ some e
    → is_shown (get_public id db) ≡ (db.published && e.is_public)
unfolding get_public get
is_shown-get_public id db m e row event = elim (Bool-cases (db.published && e.is_public)) [
  | inl shown ↦ rw (get_public, row, event, shown, get, row) refl
  | inr hidden ↦ rw (get_public, row, event, hidden) refl
]

submit_score-Topic :
    (id actor now : ℕ) (org : Option ℕ) (req : ScoreRequest) (db : Tables)
    → Topic (is_shown (get_public id db)) (submit_score id actor org req now db)
unfolding submit_score
submit_score-Topic id actor now org req db db' b h =
    elim (Option-cases (find_match id db.matches)) [
      | inl a ↦ let clash : ⊥ = ground (arith, h, a) in elim clash [ ]
      | inr (m, a) ↦ elim (Option-cases (find_event m.event_id db.events)) [
        | inl f ↦ let clash : ⊥ = ground (arith, h, a, f) in elim clash [ ]
        | inr (e, f) ↦
            submit_authorized-Topic id actor now req e db db' b (ground (arith, h, a, f))
            ∙ sym (is_shown-get_public id db m e a f)
      ]
    ]

set_status-Topic :
    (id now : ℕ) (org : Option ℕ) (status : Status) (db : Tables)
    → Topic (is_shown (get_public id db)) (set_status id org status now db)
unfolding set_status
set_status-Topic id now org status db db' b h = elim (Option-cases (find_match id db.matches)) [
  | inl a ↦ let clash : ⊥ = ground (arith, h, a) in elim clash [ ]
  | inr (m, a) ↦ elim (Option-cases (find_event m.event_id db.events)) [
    | inl f ↦ let clash : ⊥ = ground (arith, h, a, f) in elim clash [ ]
    | inr (e, f) ↦
        after_status-Topic (db.published && e.is_public) (Save.set_status id status now db) db' b
          (ground (arith, h, a, f))
        ∙ sym (is_shown-get_public id db m e a f)
  ]
]

-- A score or a status that is accepted is broadcast exactly when the anonymous read shows the match:
-- one of a draft tournament or of a hidden division is saved and not broadcast.
pub broadcast-get_public :
    (id actor now : ℕ) (org : Option ℕ) (req : ScoreRequest) (status : Status) (db db' : Tables)
    (topic : Bool)
    → (submit_score id actor org req now db ≡ submitted db' topic)
      ⊎ (set_status id org status now db ≡ submitted db' topic)
    → topic ≡ is_shown (get_public id db)
broadcast-get_public id actor now org req status db db' topic (inl h) =
    submit_score-Topic id actor now org req db db' topic h
broadcast-get_public id actor now org req status db db' topic (inr h) =
    set_status-Topic id now org status db db' topic h
