-- ===== src/Draw/Knockout/Seeded/Tests.antt =====
-- Tests of the generator of group stages by seeds.
use tourney_api.Prelude.{ℕ, zero, suc, ◌≡◌, refl, [], ◌∷◌, map, String}
use tourney_api.Draw.Knockout.Seeded.{
  snake_position, group_label, labels_from, knockout_seed_labels,
}

abbrev two_letters : ℕ → String
two_letters zero = "A"
two_letters (suc n) = "B"

-- Two groups of two: the winner of each meets the runner-up of the other.
cross_pairs :
    knockout_seed_labels two_letters 2 2
    ≡ "Winner Group A" ∷ "Runner-up Group B" ∷ "Winner Group B" ∷ "Runner-up Group A" ∷ []
unfolding knockout_seed_labels labels_from group_label
cross_pairs = refl

-- Eight seeds in two groups: 1, 4, 5, 8 and 2, 3, 6, 7.
snake_eight :
    map (snake_position 2) (0 ∷ 1 ∷ 2 ∷ 3 ∷ 4 ∷ 5 ∷ 6 ∷ 7 ∷ []) ≡ 0 ∷ 1 ∷ 1 ∷ 0 ∷ 0 ∷ 1 ∷ 1 ∷ 0 ∷ []
unfolding snake_position
snake_eight = refl
