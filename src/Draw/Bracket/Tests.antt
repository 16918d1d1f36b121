-- ===== src/Draw/Bracket/Tests.antt =====
-- Draws at which the theorems about internal/draw are applied, and runs of the code.
use tourney_api.Prelude.{ℕ, ◌^◌, ◌≤◌, ◌<◌, ◌≡◌, refl, ◌⊎◌, inr, List, [], ◌∷◌, Perm, arith}
use tourney_api.Draw.{Entry, Match, fresh_match, bye_slot, filled_slot}
use tourney_api.Draw.Bracket.{
  next_power_of_two, seed_positions, grow_seeds, double_seeds, place_entries, by_seed,
  wire_fed_rounds,
}
use tourney_api.Draw.Bracket.Powers.{next_power_of_two_lem}
use tourney_api.Draw.Bracket.Feeds.{Advances}
use tourney_api.Draw.Bracket.Progress.{wire_fed_rounds-FeederOf}
use tourney_api.Draw.Bracket.Seeds.{IsSeedOrder, seed_positions-IsSeedOrder}
use tourney_api.Draw.Bracket.Placement.{present, WellSeeded, place_entries-perm}

abbrev four_matches : List Match
four_matches =
    fresh_match 1 0 (filled_slot 1) (filled_slot 8)
    ∷ fresh_match 1 1 (filled_slot 4) (filled_slot 5)
    ∷ fresh_match 1 2 (filled_slot 2) (filled_slot 7)
    ∷ fresh_match 1 3 (filled_slot 3) bye_slot
    ∷ []

wire_fed_rounds-FeederOf_example : Advances (wire_fed_rounds four_matches 4) 5 6 2
wire_fed_rounds-FeederOf_example =
    (wire_fed_rounds-FeederOf four_matches 2 refl 5 6 2).1
      (omega arith, omega arith, inr (omega arith, refl))

seed_positions-IsSeedOrder_example : IsSeedOrder 3 (seed_positions 8)
seed_positions-IsSeedOrder_example = seed_positions-IsSeedOrder 2

seed_positions_run : seed_positions 8 ≡ 1 ∷ 8 ∷ 4 ∷ 5 ∷ 2 ∷ 7 ∷ 3 ∷ 6 ∷ []
unfolding seed_positions grow_seeds double_seeds
seed_positions_run = refl

next_power_of_two_lem_example :
    (k : ℕ) × (next_power_of_two 5 ≡ 2 ^ k) × (5 ≤ 2 ^ k) × ((2 ^ k < 10) ⊎ (k ≡ 0))
next_power_of_two_lem_example = next_power_of_two_lem 5

-- Two seeds, and an unseeded entry.
abbrev three_entries : List Entry
three_entries =
    record { participant_id = 10; seed = 2 }
    ∷ record { participant_id = 11; seed = 0 }
    ∷ record { participant_id = 12; seed = 1 }
    ∷ []

three_entries-WellSeeded : WellSeeded 4 three_entries
unfolding by_seed
three_entries-WellSeeded =
    (λ p. (omega arith, refl), (λ p. absurd (omega arith), (λ p. (omega arith, refl), tt)))

place_entries-perm_example :
    Perm (present (place_entries three_entries (seed_positions 4))) three_entries
place_entries-perm_example =
    place_entries-perm 1 three_entries (omega arith) three_entries-WellSeeded
