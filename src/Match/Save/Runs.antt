-- ===== src/Match/Save/Runs.antt =====
-- `SaveScore` of internal/match/repository.go: the steps of a run that commits.
use tourney_api.Prelude.{ℕ, ◌≡◌, refl, ◌⊎◌, inl, inr, some, Option-cases, List, ◌∷◌, arith}
use tourney_api.Draw.Tables.{MatchRow, SlotRow, Tables, find_match, update_match}
use tourney_api.Draw.Rebuild.{LockedSlot, Rebuilt, refused, rebuilt}
use tourney_api.Match.Save.{
  SaveInput, saved, score_row, rebuild_winner_feeds, rebuild_placements, score_entry,
  save_placements, save_feeds, save_score,
}

pub Rebuilt-cases :
    (r : Rebuilt)
    → ((l : LockedSlot) × (locked : List LockedSlot) × (r ≡ refused l locked))
      ⊎ ((n : ℕ) × (slots : List SlotRow) × (r ≡ rebuilt n slots))
Rebuilt-cases (refused l locked) = inl (l, locked, refl)
Rebuilt-cases (rebuilt n slots) = inr (n, slots, refl)

-- The rows after the match's own row is written.
abbrev pub scored_tables : SaveInput → ℕ → Tables → Tables
scored_tables inp now db = record db {
  matches = update_match inp.match_id (score_row inp now) db.matches;
}

-- What each step of a run that commits returned.
pub record Run (inp : SaveInput) (now : ℕ) (db db' : Tables) : Type 0 where
  pub old : MatchRow
  pub found : find_match inp.match_id db.matches ≡ some old
  pub feeds : List SlotRow
  pub fed : ℕ
  pub rebuilt_feeds :
      rebuild_winner_feeds inp old.winner_participant_id (scored_tables inp now db).matches db.slots
      ≡ rebuilt fed feeds
  pub slots : List SlotRow
  pub placed : ℕ
  pub rebuilt_placements :
      rebuild_placements inp old (record (scored_tables inp now db) { slots = feeds })
      ≡ rebuilt placed slots
  pub result : db' ≡ record (scored_tables inp now db) {
    slots = slots;
    scores_audit = score_entry inp old fed placed ∷ db.scores_audit;
  }

save_placements_saved :
    (inp : SaveInput) (old : MatchRow) (db db' : Tables) (n : ℕ) (r : Rebuilt)
    → save_placements inp old db n r ≡ saved db'
    → (k : ℕ) × (slots : List SlotRow) × (r ≡ rebuilt k slots)
      × (db'
          ≡ record db { slots = slots; scores_audit = score_entry inp old n k ∷ db.scores_audit })
unfolding save_placements
save_placements_saved inp old db db' n (refused l locked) h = let clash : ⊥ = cc in elim clash [ ]
save_placements_saved inp old db db' n (rebuilt k slots) h = (k, slots, refl, cc)

save_feeds_saved :
    (inp : SaveInput) (old : MatchRow) (db db' : Tables) (r : Rebuilt)
    → save_feeds inp old db r ≡ saved db'
    → (n : ℕ) × (feeds : List SlotRow) × (r ≡ rebuilt n feeds)
      × (save_placements inp old
            (record db { slots = feeds })
            n
            (rebuild_placements inp old (record db { slots = feeds }))
          ≡ saved db')
unfolding save_feeds
save_feeds_saved inp old db db' (refused l locked) h = let clash : ⊥ = cc in elim clash [ ]
save_feeds_saved inp old db db' (rebuilt n feeds) h = (n, feeds, refl, h)

save_score_found :
    (inp : SaveInput) (now : ℕ) (db db' : Tables)
    → save_score inp now db ≡ saved db'
    → (old : MatchRow) × (find_match inp.match_id db.matches ≡ some old)
      × (save_feeds inp old (scored_tables inp now db) (
            rebuild_winner_feeds inp old.winner_participant_id
              (scored_tables inp now db).matches
              db.slots)
          ≡ saved db')
unfolding save_score
save_score_found inp now db db' h = elim (Option-cases (find_match inp.match_id db.matches)) [
  | inl e ↦ let clash : ⊥ = ground (arith, h, e) in elim clash [ ]
  | inr (old, e) ↦ (old, e, ground (arith, h, e))
]

pub save_score-Run :
    (inp : SaveInput) (now : ℕ) (db db' : Tables)
    → save_score inp now db ≡ saved db'
    → Run inp now db db'
save_score-Run inp now db db' h =
    let (old, found, h1) = save_score_found inp now db db' h in
    let db1 = scored_tables inp now db in
    let (fed, feeds, e1, h2) =
      save_feeds_saved inp old db1 db'
        (rebuild_winner_feeds inp old.winner_participant_id db1.matches db.slots) h1 in
    let db2 = record db1 { slots = feeds } in
    let (placed, slots, e2, result) =
      save_placements_saved inp old db2 db' fed (rebuild_placements inp old db2) h2 in
    record {
      old = old;
      found = found;
      feeds = feeds;
      fed = fed;
      rebuilt_feeds = e1;
      slots = slots;
      placed = placed;
      rebuilt_placements = e2;
      result = result;
    }
