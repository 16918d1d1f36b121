-- ===== src/Draw/Pairs/Tests.antt =====
-- Rows for `validatePairs` of internal/draw/service.go: one of them empty.
use tourney_api.Prelude.{ℕ, ◌≡◌, ◌↔◌, Bool, Option, none, some, List, [], ◌∷◌, ltb}
use tourney_api.Draw.Bracket.{Pair, clean_pairs}
use tourney_api.Draw.Fixtures.{ok}
use tourney_api.Draw.Pairs.{validate_pairs}
use tourney_api.Draw.Pairs.Valid.{IsDraw, validate_pairs-IsDraw}

abbrev row : Option ℕ → Option ℕ → Pair
row x y = record { a = x; b = y }

abbrev rows : List Pair
rows = row (some 4) (some 2) ∷ row none none ∷ row (some 1) (some 3) ∷ []

abbrev below_five : ℕ → Bool
below_five id = ltb id 5

validate_pairs-IsDraw_example :
    validate_pairs below_five rows ≡ ok (row (some 4) (some 2) ∷ row (some 1) (some 3) ∷ []) ↔ (
      IsDraw below_five rows
      × ((row (some 4) (some 2) ∷ row (some 1) (some 3) ∷ []) ≡ clean_pairs rows))
validate_pairs-IsDraw_example =
    validate_pairs-IsDraw below_five rows (row (some 4) (some 2) ∷ row (some 1) (some 3) ∷ [])
