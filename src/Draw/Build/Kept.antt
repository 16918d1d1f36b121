-- ===== src/Draw/Build/Kept.antt =====
-- internal/draw/service.go: what a stored draw leaves of the winners' slots.
use tourney_api.Prelude.{
  ℕ, ◌≡◌, refl, inl, inr, Bool, true, false, Option, Option-cases, none, some, List, [], ◌∷◌,
  String, arith,
}
use mathlib.Core.Path.{subst}
use tourney_api.Draw.{Match}
use tourney_api.Draw.Bracket.{Pair, generate_from_pairs}
use tourney_api.Draw.Pairs.{validate_pairs}
use tourney_api.Draw.Fixtures.{
  Result, ok, err, DrawError, forbidden, unsupported_form, require, ◌>>=◌, ◌>>◌, may_act,
}
use tourney_api.Draw.Tables.{Tables, find_event}
use tourney_api.Match.Save.Feeds.{FeedsHold}
use tourney_api.Draw.Build.{
  clear_draw, persist_with_groups, stored, set_manual, is_entrant, is_single_elim, store_bracket,
  build,
}
use tourney_api.Draw.Build.Cleared.{AllBelow, KeepsToItself, AllFed-others, AllBelow-others}
use tourney_api.Draw.Build.Named.{WellNamed, persist_with_groups-WellNamed}
use tourney_api.Draw.Build.Fed.{persist_with_groups-FeedsHold}

-- What holds of the tables that a call returns.
abbrev pub Gives : (Tables → Type 0) → Result (Tables × ℕ) → Type 0
Gives P (err e) = Unit
Gives P (ok result) = let (db, n) = result in P db

pub Gives-stored :
    (P : Tables → Type 0) (n : ℕ) (o : Option Tables)
    → ((db : Tables) → o ≡ some db → P db)
    → Gives P (stored n o)
Gives-stored P n none h = tt
Gives-stored P n (some db) h = h db refl

pub Gives-require :
    (P : Tables → Type 0) (b : Bool) (e : DrawError) (next : Result (Tables × ℕ))
    → (b ≡ true → Gives P next)
    → Gives P (require b e >> next)
Gives-require P true e next h = h refl
Gives-require P false e next h = tt

pub Gives-more :
    (P Q : Tables → Type 0) (o : Result (Tables × ℕ))
    → Gives P o
    → ((db : Tables) → P db → Q db)
    → Gives Q o
Gives-more P Q (err e) h step = tt
Gives-more P Q (ok (db, n)) h step = step db h

pub Gives-ok :
    (P : Tables → Type 0) (o : Result (Tables × ℕ)) (db : Tables) (n : ℕ)
    → Gives P o
    → o ≡ ok (db, n)
    → P db
Gives-ok P o db n gives h = subst (Gives P) h gives

Gives-bind :
    {A : Type 0} (P : Tables → Type 0) (first : Result A) (next : A → Result (Tables × ℕ))
    → ((a : A) → Gives P (next a))
    → Gives P (first >>= next)
Gives-bind P (err e) next h = tt
Gives-bind P (ok a) next h = h a

abbrev pub tables_of : Result (Tables × ℕ) → Tables → Tables
tables_of (err e) db = db
tables_of (ok (db, n)) old = db

abbrev pub is_ok : Result (Tables × ℕ) → Bool
is_ok (err e) = false
is_ok (ok result) = true

abbrev pub matches_made : Result (Tables × ℕ) → ℕ
matches_made (err e) = 0
matches_made (ok (db, n)) = n

pub ok-is_ok :
    (o : Result (Tables × ℕ)) (db : Tables)
    → is_ok o ≡ true
    → o ≡ ok (tables_of o db, matches_made o)
ok-is_ok (err e) db h = let no_result : ⊥ = ground (arith, h) in elim no_result [ ]
ok-is_ok (ok (db', n)) db h = refl

-- The winners' slots of the tables, and of the event's own bracket, are right.
abbrev pub FeedsAgree : ℕ → Tables → Type 0
FeedsAgree event db = FeedsHold db × WellNamed event db.matches db.slots

module _ (default_name : ℕ → String) where
  store_bracket-Gives :
      (event : ℕ) (ms : List Match) (db : Tables)
      → FeedsHold (clear_draw event db)
      → AllBelow db.next_id (clear_draw event db).matches
      → Gives (FeedsAgree event) (store_bracket default_name event ms db)
  unfolding store_bracket set_manual
  store_bracket-Gives event [] db fed below = tt
  store_bracket-Gives event (m ∷ ms) db fed below =
      elim (Option-cases (persist_with_groups default_name event (m ∷ ms) [] [] db)) [
        | inl e ↦ rw (store_bracket, e) tt
        | inr (db', e) ↦
            rw (store_bracket, e)
              (
                persist_with_groups-FeedsHold default_name event (m ∷ ms) [] [] db db' e fed below,
                persist_with_groups-WellNamed default_name event (m ∷ ms) [] [] db db' e fed,
              )
      ]

  -- Once a bracket is built, each slot is one of a match, and a slot that a match's winner feeds holds
  -- that match's winner: in every event. In the event itself, a slot that names a match as its source
  -- is one that this match sends its winner to, and no match of the event sends its winner to an
  -- empty slot. This is so if the first part holds before the call, if no match of the event feeds a
  -- slot of another event, and if the ids of the matches are below the next one.
  pub build-FeedsHold :
      (event : ℕ) (org : Option ℕ) (pairs : List Pair) (db db' : Tables) (n : ℕ)
      → build default_name event org pairs db ≡ ok (db', n)
      → FeedsHold db
      → KeepsToItself event db.matches db.slots
      → AllBelow db.next_id db.matches
      → FeedsHold db' × WellNamed event db'.matches db'.slots
  unfolding build clear_draw
  build-FeedsHold event org pairs db db' n h fed apart below =
      let left = AllFed-others event db.matches db.slots fed apart in
      let under = AllBelow-others event db.next_id db.matches below in
      Gives-ok (FeedsAgree event) (build default_name event org pairs db) db' n
        (elim (Option-cases (find_event event db.events)) [
          | inl e ↦ rw (build, e) tt
          | inr (row, e) ↦
              rw (build, e)
                (Gives-require (FeedsAgree event) (may_act org db.org_id) forbidden _ (λ mine.
                  Gives-require (FeedsAgree event) (is_single_elim row.format) unsupported_form _
                    (λ single.
                      Gives-bind (FeedsAgree event)
                        (validate_pairs (is_entrant event db.players) pairs) _
                        (λ valid.
                          store_bracket-Gives event (generate_from_pairs valid) db left under))))
        ])
        h
