-- ===== src/Schedule/Apart.antt =====
-- Slots of which no two clash, for a symmetric test under which two slots of one id clash.
use tourney_api.Prelude.{
  ℕ, ◌≡◌, refl, ◌∙◌, inl, inr, Bool, Bool-cases, true, false, ◌&&◌, List, [], ◌∷◌, ◌==◌, arith,
  some,
}
use tourney_api.Schedule.{CourtSlot}
use tourney_api.Schedule.Conflicts.{some_of, other_slot}
use tourney_api.Schedule.Somes.{some_of_less}
use tourney_api.Schedule.Write.{set_row, remove_slot}

abbrev pub Apart : (CourtSlot → CourtSlot → Bool) → List CourtSlot → Type 0
Apart clash [] = Unit
Apart clash (s ∷ slots) = (some_of (clash s) slots ≡ false) × Apart clash slots

-- The slots other than the one of a row that clash with it.
abbrev pub meets : (CourtSlot → CourtSlot → Bool) → CourtSlot → CourtSlot → Bool
meets clash row s = other_slot (some row.id) s && clash row s

pub Apart-same :
    (c d : CourtSlot → CourtSlot → Bool) (slots : List CourtSlot)
    → ((a b : CourtSlot) → d a b ≡ true → c a b ≡ true)
    → Apart c slots
    → Apart d slots
unfolding some_of
Apart-same c d [] h apart = tt
Apart-same c d (s ∷ slots) h (here, rest) =
    (some_of_less (d s) (c s) slots (h s) here, Apart-same c d slots h rest)

module _ (clash : CourtSlot → CourtSlot → Bool)
    (clash_sym : (a b : CourtSlot) → clash a b ≡ clash b a)
    (clash_id : (a b : CourtSlot) → (a.id == b.id) ≡ true → clash a b ≡ true) where
  some_of-remove_slot :
      (s : CourtSlot) (id : ℕ) (slots : List CourtSlot)
      → some_of (clash s) slots ≡ false
      → some_of (clash s) (remove_slot id slots) ≡ false
  unfolding some_of remove_slot
  some_of-remove_slot s id [] h = h
  some_of-remove_slot s id (t ∷ slots) h =
      let rest = some_of-remove_slot s id slots (ground (arith, h)) in ground (arith, h, rest)

  pub Apart-remove_slot :
      (id : ℕ) (slots : List CourtSlot) → Apart clash slots → Apart clash (remove_slot id slots)
  unfolding remove_slot
  Apart-remove_slot id [] apart = tt
  Apart-remove_slot id (s ∷ slots) (here, rest) = elim (Bool-cases (s.id == id)) [
    | inl e ↦ rw e (Apart-remove_slot id slots rest)
    | inr e ↦ rw e (some_of-remove_slot s id slots here, Apart-remove_slot id slots rest)
  ]

  -- Another slot, against the slots after the row is set.
  some_of-set_row :
      (s row : CourtSlot) (slots : List CourtSlot)
      → clash s row ≡ false
      → some_of (clash s) slots ≡ false
      → some_of (clash s) (set_row row slots) ≡ false
  unfolding some_of set_row
  some_of-set_row s row [] free h = h
  some_of-set_row s row (t ∷ slots) free h =
      let rest = some_of-set_row s row slots free (ground (arith, h)) in
      elim (Bool-cases (t.id == row.id)) [
        | inl e ↦ rw (e, free) rest
        | inr e ↦ rw e (ground (arith, h, rest))
      ]

  -- The row itself, against slots of which none has its id.
  some_of-set_row_self :
      (s row : CourtSlot) (slots : List CourtSlot)
      → (s.id == row.id) ≡ true
      → some_of (clash s) slots ≡ false
      → some_of (meets clash row) slots ≡ false
      → some_of (clash row) (set_row row slots) ≡ false
  unfolding some_of set_row other_slot
  some_of-set_row_self s row [] same h free = refl
  some_of-set_row_self s row (t ∷ slots) same h free =
      let rest = some_of-set_row_self s row slots same (ground (arith, h)) (ground (arith, free)) in
      elim (Bool-cases (t.id == row.id)) [
        | inl e ↦
            let both = clash_id s t (ground (arith, e, same)) in
            let no_row : ⊥ = ground (arith, h, both) in elim no_row [ ]
        | inr e ↦ rw e (ground (arith, e, free, rest))
      ]

  pub Apart-set_row :
      (row : CourtSlot) (slots : List CourtSlot)
      → Apart clash slots
      → some_of (meets clash row) slots ≡ false
      → Apart clash (set_row row slots)
  unfolding some_of set_row other_slot
  Apart-set_row row [] apart free = tt
  Apart-set_row row (s ∷ slots) (here, rest) free =
      let tail = Apart-set_row row slots rest (ground (arith, free)) in
      elim (Bool-cases (s.id == row.id)) [
        | inl e ↦ rw e (some_of-set_row_self s row slots e here (ground (arith, free)), tail)
        | inr e ↦
            let apart : clash s row ≡ false = clash_sym s row ∙ ground (arith, free, e) in
            rw e (some_of-set_row s row slots apart here, tail)
      ]
