-- ===== src/Draw/RoundRobin.antt =====
-- `GenerateRoundRobin` of internal/draw/round_robin.go: the circle method. The circle holds the
-- entries in place of their indices, and `none` for the bye.
mod Tests
pub mod Circle
use tourney_api.Prelude.{
  ℕ, zero, suc, ◌+◌, ◌-◌, ◌/◌, ◌%◌, Bool, Option, none, some, List, [], ◌∷◌, ◌++◌, map, ltb, ◌==◌,
  if◌then◌else◌, length,
}
use mathlib.Core.List.{reverse}
use tourney_api.Draw.{Entry, Match, filled_slot, fresh_match}

-- `slotFor` reads the entry's participant.
unfoldable pub round_robin_match : ℕ → ℕ → Entry → Entry → Match
round_robin_match r k x y =
    record (fresh_match r k (filled_slot x.participant_id) (filled_slot y.participant_id)) {
      next_match_idx = none;
      group_index = none;
    }

-- The inner loop: `n` places are left, `k` matches of the round are made; the circle is read from
-- its front and from its back.
unfoldable pub round_matches : ℕ → ℕ → ℕ → List (Option Entry) → List (Option Entry) → List Match
round_matches zero r k front back = []
round_matches (suc n) r k [] back = []
round_matches (suc n) r k (a ∷ front) [] = []
round_matches (suc n) r k (a ∷ front) (b ∷ back) = elim a [
  | none ↦ round_matches n r k front back
  | some x ↦ elim b [
    | none ↦ round_matches n r k front back
    | some y ↦ round_robin_match r k x y ∷ round_matches n r (k + 1) front back
  ]
]

unfoldable pub last_first : Option Entry → List (Option Entry) → List (Option Entry)
last_first a [] = a ∷ []
last_first a (last ∷ rest) = a ∷ last ∷ reverse rest

-- The first stays, and the last moves to the second place.
unfoldable pub rotate : List (Option Entry) → List (Option Entry)
rotate [] = []
rotate (a ∷ rest) = last_first a (reverse rest)

unfoldable pub play_rounds : ℕ → ℕ → List (Option Entry) → List Match
play_rounds zero r circle = []
play_rounds (suc n) r circle =
    round_matches (length circle / 2) r 0 circle (reverse circle)
    ++ play_rounds n (r + 1) (rotate circle)

unfoldable pub circle_of : List Entry → List (Option Entry)
circle_of entries =
    if length entries % 2 == 1 then map some entries ++ none ∷ [] else map some entries

unfoldable pub generate_round_robin : List Entry → List Match
generate_round_robin entries =
    if ltb (length entries) 2
    then []
    else play_rounds (length (circle_of entries) - 1) 1 (circle_of entries)
