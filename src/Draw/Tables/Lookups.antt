-- ===== src/Draw/Tables/Lookups.antt =====
-- The rows that a lookup finds after an update.
use tourney_api.Prelude.{
  ℕ, ◌≡◌, ◌≢◌, refl, ap, sym, ◌∙◌, inl, inr, Bool, true, false, Bool-cases, Option, none, some,
  Option-cases, List, [], ◌∷◌, ◌==◌, if◌then◌else◌, arith,
}
use mathlib.Core.Option
use tourney_api.Draw.Tables.{MatchRow, find_match, update_match}

abbrev pub row_winner : Option MatchRow → Option ℕ
row_winner none = none
row_winner (some m) = m.winner_participant_id

abbrev pub is_found : Option MatchRow → Bool
is_found none = false
is_found (some m) = true

-- The winner that a match's row names.
abbrev pub winner_of : ℕ → List MatchRow → Option ℕ
winner_of id matches = row_winner (find_match id matches)

abbrev pub has_match : ℕ → List MatchRow → Bool
has_match id matches = is_found (find_match id matches)

pub find_match-id :
    (id : ℕ) (ms : List MatchRow) (m : MatchRow) → find_match id ms ≡ some m → m.id ≡ id
unfolding find_match
find_match-id id [] m h = ground arith
find_match-id id (x ∷ ms) m h = ground (arith, find_match-id id ms m)

pub find_match-update_self :
    (id : ℕ) (f : MatchRow → MatchRow) (ms : List MatchRow)
    → ((m : MatchRow) → (f m).id ≡ m.id)
    → find_match id (update_match id f ms) ≡ Option.map f (find_match id ms)
unfolding find_match update_match
find_match-update_self id f [] keeps = refl
find_match-update_self id f (m ∷ ms) keeps = elim (Bool-cases (m.id == id)) [
  | inl e ↦ rw e (rw (keeps m, e) refl)
  | inr n ↦ rw n (rw n (find_match-update_self id f ms keeps))
]

pub find_match-update_ne :
    (id k : ℕ) (f : MatchRow → MatchRow) (ms : List MatchRow)
    → ((m : MatchRow) → (f m).id ≡ m.id)
    → k ≢ id
    → find_match k (update_match id f ms) ≡ find_match k ms
unfolding find_match update_match
find_match-update_ne id k f [] keeps ne = refl
find_match-update_ne id k f (m ∷ ms) keeps ne = elim (Bool-cases (m.id == id)) [
  | inl e ↦
      let away : (m.id == k) ≡ false = ground arith in
      rw e (rw (keeps m, away) (find_match-update_ne id k f ms keeps ne))
  | inr n ↦
      rw n (ap (λ r. if m.id == k then some m else r) (find_match-update_ne id k f ms keeps ne))
]

pub found_row :
    (id : ℕ) (ms : List MatchRow)
    → has_match id ms ≡ true
    → (m : MatchRow) × (find_match id ms ≡ some m)
found_row id ms h = elim (Option-cases (find_match id ms)) [
  | inl e ↦ let no_row : ⊥ = cc (sym h ∙ ap is_found e) in elim no_row [ ]
  | inr found ↦ found
]
