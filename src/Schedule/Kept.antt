-- ===== src/Schedule/Kept.antt =====
-- internal/schedule: no call puts a court or a player into two slots at one time.
use tourney_api.Prelude.{
  ℕ, suc, ◌≡◌, refl, sym, ap, ◌∙◌, inl, inr, Bool, Bool-cases, true, false, ◌&&◌, ◌||◌,
  Option-cases, none, some, List, [], ◌∷◌, leb, ◌==◌, arith,
}
use tourney_api.Schedule.{CourtSlot, Schedule, Reply, refused, done, ◌>>◌, find_slot}
use tourney_api.Schedule.Conflicts.{SlotWrite, other_slot, some_of, validate_slot_write}
use tourney_api.Schedule.Accept.{stored_tournament, is_done, constrained}
use tourney_api.Schedule.Somes.{some_of_less, some_of_or}
use tourney_api.Schedule.Apart.{Apart, meets, Apart-set_row, Apart-remove_slot}
use tourney_api.Schedule.Busy.{
  new_clash, new_clash_sym, new_clash_id, new_clash-meets, new_clash-SameBusy, free-meets,
  stamp_next-SameBusy, unstamp_previous-SameBusy, unstamp_removed-SameBusy, SameBusy,
}
use tourney_api.Schedule.Write.{
  constraints, written_row, set_row, remove_slot, stamp_next, unstamp_previous, unstamp_removed,
  create_row, update_row, delete_slot,
}

-- An id that is not below the next one.
abbrev pub taken : ℕ → CourtSlot → Bool
taken next s = leb next s.id

-- The slots have ids of their own, below the next one, and no two of them that meet in time are on
-- one court or have a player of undecided matches in common, but for the two that are excused.
abbrev pub IsSound : (CourtSlot → CourtSlot → Bool) → Schedule → Type 0
IsSound excused db =
    (some_of (taken db.next_id) db.slots ≡ false) × Apart (new_clash excused db.matches) db.slots

-- What holds of the value of a call that is not refused.
abbrev pub Yields {ℓ} : {A : Type ℓ} → (A → Type 0) → Reply A → Type 0
Yields P (refused e) = Unit
Yields P (done a) = P a

Yields-both :
    {A : Type 0} (P : A → Type 0) (first second : Reply (Unit {0})) (x : A)
    → ((is_done first && is_done second) ≡ true → P x)
    → Yields P (first >> (second >> done x))
Yields-both P (refused e) second x h = tt
Yields-both P (done passed) (refused e) x h = tt
Yields-both P (done passed) (done held) x h = h refl

abbrev pub Sound : (CourtSlot → CourtSlot → Bool) → ℕ × Schedule → Type 0
Sound excused result = let (id, after) = result in IsSound excused after

some_of-set_row-taken :
    (next : ℕ) (row : CourtSlot) (slots : List CourtSlot)
    → some_of (taken next) slots ≡ false
    → some_of (taken next) (set_row row slots) ≡ false
unfolding some_of set_row
some_of-set_row-taken next row [] h = h
some_of-set_row-taken next row (s ∷ slots) h =
    let rest = some_of-set_row-taken next row slots (ground (arith, h)) in
    elim (Bool-cases (s.id == row.id)) [
      | inl e ↦ rw e (ground (arith, h, e, rest))
      | inr e ↦ rw e (ground (arith, h, rest))
    ]

some_of-remove_slot-taken :
    (next id : ℕ) (slots : List CourtSlot)
    → some_of (taken next) slots ≡ false
    → some_of (taken next) (remove_slot id slots) ≡ false
unfolding some_of remove_slot
some_of-remove_slot-taken next id [] h = h
some_of-remove_slot-taken next id (s ∷ slots) h =
    let rest = some_of-remove_slot-taken next id slots (ground (arith, h)) in
    ground (arith, h, rest)

-- A new id is none of the ids there.
some_of-new :
    (c : CourtSlot → CourtSlot → Bool) (row : CourtSlot) (slots : List CourtSlot)
    → some_of (taken row.id) slots ≡ false
    → some_of (meets c row) slots ≡ false
    → some_of (c row) slots ≡ false
unfolding other_slot
some_of-new c row slots fresh free =
    some_of_less (c row) (λ s. meets c row s || taken row.id s) slots (λ s h. ground (arith, h))
      (some_of_or (meets c row) (taken row.id) slots ∙ ground (arith, fresh, free))

pub some_of-suc :
    (next : ℕ) (slots : List CourtSlot)
    → some_of (taken next) slots ≡ false
    → some_of (taken (suc next)) slots ≡ false
some_of-suc next slots =
    some_of_less (taken (suc next)) (taken next) slots (λ s h. ground (arith, h))

module _ (excused : CourtSlot → CourtSlot → Bool)
    (symmetric : (a b : CourtSlot) → excused a b ≡ excused b a) where
  pub create_row-IsSound :
      (w : SlotWrite) (db : Schedule)
      → w.slot_id ≡ none
      → IsSound excused db
      → Yields (Sound excused) (create_row w db)
  unfolding create_row other_slot some_of
  create_row-IsSound w db new (fresh, apart) =
      let row = written_row db.next_id w in
      let other : (s : CourtSlot)
          → other_slot (some row.id) s ≡ true
          → other_slot w.slot_id s ≡ true =
        λ s other. ap (λ o. other_slot o s) new in
      Yields-both (Sound excused) (validate_slot_write db w)
        (constraints db (some w.tournament_id) row) _
        (λ passed.
          let accepted =
            sym (
              constrained db w row (some w.tournament_id) refl refl refl refl
                (sym (ap (stored_tournament w) new)) other)
            ∙ passed in
          let free = new_clash-meets excused symmetric db.matches row db.slots (
            free-meets db.matches w row db.slots refl refl refl refl other
              (ground (arith, accepted))) in
          let alone = some_of-new (new_clash excused db.matches) row db.slots fresh free in
          let below = some_of-suc db.next_id db.slots fresh in
          (
            ground (arith, below),
            new_clash-SameBusy excused symmetric db.matches (stamp_next w db.matches)
                (row ∷ db.slots) (stamp_next-SameBusy w db.matches) (alone, apart),
          ))

  pub update_row-IsSound :
      (id : ℕ) (w : SlotWrite) (db : Schedule)
      → w.slot_id ≡ some id
      → IsSound excused db
      → Yields (Sound excused) (update_row id w db)
  unfolding update_row other_slot
  update_row-IsSound id w db old (fresh, apart) = elim (Option-cases (find_slot id db.slots)) [
    | inl e ↦ rw e tt
    | inr (prev, e) ↦
        let row : CourtSlot = record (written_row id w) { tournament_id = prev.tournament_id } in
        let other : (s : CourtSlot)
            → other_slot (some row.id) s ≡ true
            → other_slot w.slot_id s ≡ true =
          λ s other. ap (λ o. other_slot o s) old ∙ other in
        rw e (
          Yields-both (Sound excused) (validate_slot_write db w) (constraints db none row) _
            (λ passed.
              let accepted =
                sym (
                  constrained db w row none refl refl refl refl (sym (ap (stored_tournament w) old))
                    other)
                ∙ passed in
              let free = new_clash-meets excused symmetric db.matches row db.slots (
                free-meets db.matches w row db.slots refl refl refl refl other
                  (ground (arith, accepted))) in
              let set_apart =
                Apart-set_row (new_clash excused db.matches)
                  (new_clash_sym excused symmetric db.matches)
                  (new_clash_id excused symmetric db.matches) row db.slots apart free in
              let between = unstamp_previous prev.match_id w.match_id db.matches in
              let same : SameBusy db.matches (stamp_next w between) = λ m.
                stamp_next-SameBusy w between m
                ∙ unstamp_previous-SameBusy prev.match_id w.match_id db.matches m in
              (
                some_of-set_row-taken db.next_id row db.slots fresh,
                new_clash-SameBusy excused symmetric db.matches (stamp_next w between)
                    (set_row row db.slots) same set_apart,
              )))
  ]

  pub delete_slot-IsSound :
      (id actor org : ℕ) (db : Schedule)
      → IsSound excused db
      → Yields (Sound excused) (delete_slot id actor org db)
  unfolding delete_slot
  delete_slot-IsSound id actor org db (fresh, apart) = elim (Option-cases (find_slot id db.slots)) [
    | inl e ↦ rw e tt
    | inr (prev, e) ↦
        let slots = remove_slot id db.slots in
        let kept =
          Apart-remove_slot (new_clash excused db.matches)
            (new_clash_sym excused symmetric db.matches) (new_clash_id excused symmetric db.matches)
            id db.slots apart in
        rw e (
          some_of-remove_slot-taken db.next_id id db.slots fresh,
          new_clash-SameBusy excused symmetric db.matches
              (unstamp_removed prev.match_id slots db.matches) slots
              (unstamp_removed-SameBusy prev.match_id slots db.matches) kept,
        )
  ]
