-- ===== src/Draw/Knockout/Places.antt =====
-- internal/draw/manual_setup.go: a stored group stage, and the places of its knockout.
use tourney_api.Prelude.{
  ℕ, zero, suc, ◌+◌, ◌-◌, ◌%◌, ◌≤◌, ◌≡◌, refl, ap, inl, inr, Bool, Bool-cases, true, Option,
  Option-cases, none, some, List, [], ◌∷◌, ◌++◌, map, ltb, leb, if◌then◌else◌, length,
  length-append, String, arith,
}
use tourney_api.Prelude.Int.{ℤ, is_positive, pos_part}
use tourney_api.Draw.{Slot, Match}
use tourney_api.Draw.Fixtures.{ok, forbidden, unsupported_form, bad_request, may_act}
use tourney_api.Draw.Tables.{Tables, find_event}
use tourney_api.Match.Save.Feeds.{FeedsHold}
use tourney_api.Draw.Build.{clear_draw, is_entrant}
use tourney_api.Draw.Build.Cleared.{AllBelow}
use tourney_api.Draw.Build.Fed.{persist_with_groups-FeedsHold}
use tourney_api.Draw.Build.Kept.{Gives, Gives-stored, Gives-more, Gives-require, Gives-ok}
use tourney_api.Draw.Knockout.{
  GroupSpec, placement_slot, further_slots, advancers_from, advancer_slots, take_teams,
  is_group_size, check_groups, is_group_knockout, enough_advance, group_knockout_from_assignment,
  store_groups, set_groups,
}

length-further_slots : (specs : List GroupSpec) (g p n : ℕ) → length (further_slots specs g p n) ≡ n
unfolding further_slots
length-further_slots specs g p zero = refl
length-further_slots specs g p (suc n) = ap suc (length-further_slots specs g (suc p) n)

one-positive : (z : ℤ) → is_positive z ≡ true → 1 ≤ pos_part z
one-positive (ℤ.pos n) h = ground (arith, h)
one-positive (ℤ.negsuc n) h = let no_number : ⊥ = ground (arith, h) in elim no_number [ ]

-- The places that one group adds.
length-group_places :
    (specs : List GroupSpec) (g other c : ℕ) (more : List Slot)
    → 1 ≤ c
    → suc (
        length (
          (if ltb 1 c then placement_slot specs other 1 ∷ [] else [])
          ++ further_slots specs g 2 (c - 2)
          ++ more))
      ≡ c + length more
length-group_places specs g other c more h =
    let further = length-further_slots specs g 2 (c - 2) in
    let both = length-append (further_slots specs g 2 (c - 2)) more in
    elim (Bool-cases (ltb 1 c)) [
      | inl e ↦ let above : 2 ≤ c = ground (arith, e) in rw e (omega (arith, further, both, above))
      | inr e ↦
          let alone : c ≤ 1 = ground (arith, e) in rw e (omega (arith, further, both, alone, h))
    ]

-- The places of the knockout are as many as the groups let advance.
length-advancers_from :
    (valid : ℕ → Bool) (specs : List GroupSpec) (seen : List ℕ) (g before total : ℕ)
    (rest : List GroupSpec)
    → check_groups valid seen before rest ≡ some total
    → before + length (advancers_from specs g rest) ≡ total
unfolding check_groups advancers_from
length-advancers_from valid specs seen g before total [] h =
    let same : before ≡ total = ground (arith, h) in omega (arith, same)
length-advancers_from valid specs seen g before total (s ∷ rest) h =
    elim (Option-cases (take_teams valid seen s.team_ids)) [
      | inl e ↦ let no_total : ⊥ = ground (arith, h, e) in elim no_total [ ]
      | inr (seen', e) ↦ elim (Bool-cases (is_group_size s)) [
        | inr f ↦ let no_total : ⊥ = ground (arith, h, e, f) in elim no_total [ ]
        | inl f ↦
            let count = pos_part s.advance_count in
            let next : check_groups valid seen' (before + count) rest ≡ some total =
              ground (arith, h, e, f) in
            let rec =
              length-advancers_from valid specs seen' (suc g) (before + count) total rest next in
            let some_one = one-positive s.advance_count (ground (arith, f)) in
            let places =
              length-group_places specs g ((g + 1) % length specs) count
                (advancers_from specs (suc g) rest) some_one in
            omega (arith, rec, places)
      ]
    ]

some-enough_advance : (total : Option ℕ) → enough_advance total ≡ true → (n : ℕ) × (total ≡ some n)
some-enough_advance none h = let no_total : ⊥ = ground (arith, h) in elim no_total [ ]
some-enough_advance (some n) h = (n, refl)

-- The knockout has as many places as the checked groups let advance.
abbrev pub PlacesFit : ℕ → List GroupSpec → Tables → Type 0
PlacesFit event specs db =
    (total : ℕ) × (check_groups (is_entrant event db.players) [] 0 specs ≡ some total)
    × (length (advancer_slots specs) ≡ total)

enough-PlacesFit :
    (event : ℕ) (specs : List GroupSpec) (db : Tables)
    → enough_advance (check_groups (is_entrant event db.players) [] 0 specs) ≡ true
    → PlacesFit event specs db
unfolding advancer_slots
enough-PlacesFit event specs db h =
    let valid = is_entrant event db.players in
    let (total, checked) = some-enough_advance (check_groups valid [] 0 specs) h in
    let places = length-advancers_from valid specs [] 0 0 total specs checked in
    (total, checked, omega (arith, places))

module _ (default_name : ℕ → String) where
  store_groups-Gives :
      (event : ℕ) (specs : List GroupSpec) (ms : List Match) (db : Tables)
      → FeedsHold (clear_draw event db)
      → AllBelow db.next_id (clear_draw event db).matches
      → Gives FeedsHold (store_groups default_name event specs ms db)
  unfolding store_groups
  store_groups-Gives event specs [] db fed below = tt
  store_groups-Gives event specs (m ∷ ms) db fed below =
      Gives-stored FeedsHold (length (m ∷ ms)) _ (λ db' e.
        persist_with_groups-FeedsHold default_name event (m ∷ ms) (map (λ s. s.name) specs)
          (map (λ s. pos_part s.advance_count) specs) db db' e fed below)

  -- Once the groups of an event are set, each slot is one of a match, and a slot that a match's winner
  -- feeds holds that match's winner, nobody in the new draw; if that is so of the rows that are left
  -- when the event's are deleted, whose matches have ids below the next one. The slots that
  -- the knockout of the new draw gives to finishers are as many as the groups let advance.
  pub set_groups-FeedsHold :
      (event : ℕ) (org : Option ℕ) (specs : List GroupSpec) (db db' : Tables) (n : ℕ)
      → set_groups default_name event org specs db ≡ ok (db', n)
      → FeedsHold (clear_draw event db)
      → AllBelow db.next_id (clear_draw event db).matches
      → FeedsHold db' × PlacesFit event specs db
  unfolding set_groups
  set_groups-FeedsHold event org specs db db' n h fed below =
      let Kept : Tables → Type 0 = λ t. FeedsHold t × PlacesFit event specs db in
      Gives-ok Kept (set_groups default_name event org specs db) db' n
        (elim (Option-cases (find_event event db.events)) [
          | inl e ↦ rw (set_groups, e) tt
          | inr (row, e) ↦
              rw (set_groups, e)
                (Gives-require Kept (may_act org db.org_id) forbidden _ (λ mine.
                  Gives-require Kept (is_group_knockout row.format) unsupported_form _ (λ grouped.
                    Gives-require Kept (leb 1 (length specs)) bad_request _ (λ some_group.
                      Gives-require Kept
                        (enough_advance (check_groups (is_entrant event db.players) [] 0 specs))
                        bad_request _
                        (λ enough.
                          Gives-more FeedsHold Kept _
                            (store_groups-Gives event specs (group_knockout_from_assignment specs)
                              db fed below)
                            (λ t held. (held, enough-PlacesFit event specs db enough)))))))
        ])
        h
