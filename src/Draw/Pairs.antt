-- ===== src/Draw/Pairs.antt =====
-- `validatePairs` of internal/draw/service.go: the round-1 pairs that the Match builder sends. The
-- set of the event's participants is a test, and the set of those seen is a list.
mod Tests
pub mod Valid
use tourney_api.Prelude.{
  ℕ, Bool, true, false, not, ◌&&◌, ◌||◌, none, some, List, [], ◌∷◌, ◌==◌, if◌then◌else◌,
}
use tourney_api.Draw.Bracket.{Pair}
use tourney_api.Draw.Fixtures.{Result, ok, err, not_enough, invalid_pairs, require, ◌>>=◌, ◌>>◌}

abbrev pub listed : ℕ → List ℕ → Bool
listed id [] = false
listed id (x ∷ seen) = x == id || listed id seen

-- One side of a pair: the participants seen with it.
unfoldable pub use_id : (ℕ → Bool) → List ℕ → ℕ → Result (List ℕ)
use_id valid seen id = do
  require (valid id) invalid_pairs
  require (not (listed id seen)) invalid_pairs
  ok (id ∷ seen)

-- The loop: the pairs that stay.
unfoldable pub check_pairs : (ℕ → Bool) → List ℕ → List Pair → Result (List Pair)
check_pairs valid seen [] = ok []
check_pairs valid seen (p ∷ pairs) = elim p.a [
  | none ↦ elim p.b [ none ↦ check_pairs valid seen pairs | some y ↦ err invalid_pairs ]
  | some x ↦ elim p.b [
    | none ↦ err invalid_pairs
    | some y ↦ do
      seen_a ← use_id valid seen x
      seen_b ← use_id valid seen_a y
      out ← check_pairs valid seen_b pairs
      ok (p ∷ out)
  ]
]

abbrev pub some_filled : List Pair → Result (List Pair)
some_filled [] = err not_enough
some_filled (p ∷ out) = ok (p ∷ out)

unfoldable pub validate_pairs : (ℕ → Bool) → List Pair → Result (List Pair)
validate_pairs valid pairs = check_pairs valid [] pairs >>= some_filled
