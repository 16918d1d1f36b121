-- ===== src/Draw/Rebuild/Writes.antt =====
-- What a rebuild of downstream slots writes, and what it refuses.
use mathlib.Core.Path.{subst}
use tourney_api.Prelude.{
  ℕ, zero, suc, ◌≡◌, ◌≢◌, refl, ap, ◌⊎◌, sym, ◌∙◌, inl, inr, true, false, Bool-cases, Option, none,
  some, Option-cases, List, [], ◌∷◌, map, arith, get_elem?,
}
use tourney_api.Draw.Tables.{MatchRow, SlotRow, find_match, uuid_ptr_eq-eq}
use tourney_api.Draw.Rebuild.{
  LockedSlot, locked_slot, refused, rebuilt, is_started, affected, locked_slots, write_slot,
  rebuild,
}

abbrev pub In : LockedSlot → List LockedSlot → Type 0
In l [] = ⊥
In l (k ∷ locked) = (l ≡ k) ⊎ In l locked

module _ (matches : List MatchRow) (want : SlotRow → Option (Option ℕ)) where
  -- A slot keeps its place and its source.
  pub write_slot-source :
      (s : SlotRow)
      → ((write_slot matches want s).source ≡ s.source)
        × ((write_slot matches want s).match_id ≡ s.match_id)
        × ((write_slot matches want s).slot ≡ s.slot)
  unfolding write_slot
  write_slot-source s = ground arith

  pub write_slot_unwanted : (s : SlotRow) → want s ≡ none → write_slot matches want s ≡ s
  unfolding write_slot affected
  write_slot_unwanted s h = ground arith

  pub write_slot_wanted :
      (s : SlotRow) (p : Option ℕ) (m : MatchRow)
      → want s ≡ some p
      → find_match s.match_id matches ≡ some m
      → (write_slot matches want s).participant_id ≡ p
  unfolding write_slot affected
  write_slot_wanted s p m h found = ground (arith, uuid_ptr_eq-eq s.participant_id p)

  pub write_slot_eq :
      (s : SlotRow) (p : Option ℕ) (m : MatchRow)
      → want s ≡ some p
      → find_match s.match_id matches ≡ some m
      → write_slot matches want s ≡ record s { participant_id = p }
  unfolding write_slot affected
  write_slot_eq s p m h found = ground (arith, uuid_ptr_eq-eq s.participant_id p)

  pub rebuild_rebuilt :
      (slots slots' : List SlotRow) (n : ℕ)
      → rebuild matches want slots ≡ rebuilt n slots'
      → (slots' ≡ map (write_slot matches want) slots) × (locked_slots matches want slots ≡ [])
  unfolding rebuild
  rebuild_rebuilt slots slots' n h = ground arith

  write_slot_started_head :
      (s : SlotRow) (slots : List SlotRow) (m : MatchRow)
      → locked_slots matches want (s ∷ slots) ≡ []
      → find_match s.match_id matches ≡ some m
      → is_started m ≡ true
      → write_slot matches want s ≡ s
  unfolding locked_slots write_slot affected
  write_slot_started_head s slots m none_locked found started = ground arith

  locked_slots-tail :
      (x : SlotRow) (slots : List SlotRow)
      → locked_slots matches want (x ∷ slots) ≡ []
      → locked_slots matches want slots ≡ []
  unfolding locked_slots
  locked_slots-tail x slots h = ground arith

  -- Where nothing is locked, a slot of a started match keeps its participant.
  pub write_slot_started :
      (s : SlotRow) (slots : List SlotRow) (i : ℕ) (m : MatchRow)
      → locked_slots matches want slots ≡ []
      → get_elem? slots i ≡ some s
      → find_match s.match_id matches ≡ some m
      → is_started m ≡ true
      → write_slot matches want s ≡ s
  write_slot_started s [] i m none_locked at found started =
      let no_slot : ⊥ = cc in elim no_slot [ ]
  write_slot_started s (x ∷ slots) zero m none_locked at found started =
      let same : x ≡ s = cc in
      let locked = ap (λ y. locked_slots matches want (y ∷ slots)) (sym same) ∙ none_locked in
      write_slot_started_head s slots m locked found started
  write_slot_started s (x ∷ slots) (suc i) m none_locked at found started =
      write_slot_started s slots i m (locked_slots-tail x slots none_locked) at found started

  affected_of :
      (s : SlotRow) (m : MatchRow) (p : Option ℕ)
      → want s ≡ some p
      → find_match s.match_id matches ≡ some m
      → s.participant_id ≢ p
      → affected matches want s ≡ some (m, p)
  unfolding affected
  affected_of s m p wanted found differs = ground (arith, uuid_ptr_eq-eq s.participant_id p)

  locked_slots_same :
      (x : SlotRow) (slots : List SlotRow)
      → affected matches want x ≡ none
      → locked_slots matches want (x ∷ slots) ≡ locked_slots matches want slots
  unfolding locked_slots
  locked_slots_same x slots e = rw (locked_slots, e) refl

  locked_slots_idle :
      (x : SlotRow) (slots : List SlotRow) (a : MatchRow × Option ℕ)
      → affected matches want x ≡ some a
      → is_started a.0 ≡ false
      → locked_slots matches want (x ∷ slots) ≡ locked_slots matches want slots
  unfolding locked_slots
  locked_slots_idle x slots a e idle = rw (locked_slots, e, idle) refl

  locked_slots_started :
      (x : SlotRow) (slots : List SlotRow) (a : MatchRow × Option ℕ)
      → affected matches want x ≡ some a
      → is_started a.0 ≡ true
      → locked_slots matches want (x ∷ slots) ≡ locked_slot a.0 x ∷ locked_slots matches want slots
  unfolding locked_slots
  locked_slots_started x slots a e started = rw (locked_slots, e, started) refl

  In-tail :
      (l : LockedSlot) (x : SlotRow) (slots : List SlotRow)
      → In l (locked_slots matches want slots)
      → In l (locked_slots matches want (x ∷ slots))
  In-tail l x slots h = elim (Option-cases (affected matches want x)) [
    | inl e ↦ subst (In l) (sym (locked_slots_same x slots e)) h
    | inr (a, e) ↦ elim (Bool-cases (is_started a.0)) [
      | inl started ↦ subst (In l) (sym (locked_slots_started x slots a e started)) (inr h)
      | inr idle ↦ subst (In l) (sym (locked_slots_idle x slots a e idle)) h
    ]
  ]

  -- A slot that would change under a started match is among those that the refusal names.
  pub locked_slots-In :
      (s : SlotRow) (slots : List SlotRow) (i : ℕ) (m : MatchRow) (p : Option ℕ)
      → get_elem? slots i ≡ some s
      → want s ≡ some p
      → find_match s.match_id matches ≡ some m
      → s.participant_id ≢ p
      → is_started m ≡ true
      → In (locked_slot m s) (locked_slots matches want slots)
  locked_slots-In s [] i m p at wanted found differs started =
      let no_slot : ⊥ = cc in elim no_slot [ ]
  locked_slots-In s (x ∷ slots) zero m p at wanted found differs started =
      let same : s ≡ x = cc in
      subst (λ y. In (locked_slot m s) (locked_slots matches want (y ∷ slots))) same
        (subst (In (locked_slot m s))
          (sym
            (locked_slots_started s slots (m, p) (affected_of s m p wanted found differs) started))
          (inl refl))
  locked_slots-In s (x ∷ slots) (suc i) m p at wanted found differs started =
      In-tail (locked_slot m s) x slots
        (locked_slots-In s slots i m p at wanted found differs started)

  pub rebuild_refused :
      (slots : List SlotRow) (k : LockedSlot)
      → In k (locked_slots matches want slots)
      → (l : LockedSlot) × (locked : List LockedSlot) × (rebuild matches want slots
          ≡ refused l locked)
        × In k (l ∷ locked)
  unfolding rebuild
  rebuild_refused slots k h = named (locked_slots matches want slots) refl h
    where
      named :
          (ls : List LockedSlot)
          → locked_slots matches want slots ≡ ls
          → In k ls
          → (l : LockedSlot) × (locked : List LockedSlot) × (rebuild matches want slots
              ≡ refused l locked)
            × In k (l ∷ locked)
      named [] e m = elim m [ ]
      named (l ∷ locked) e m = (l, locked, ground (arith, e), m)
