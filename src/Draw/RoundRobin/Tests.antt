-- ===== src/Draw/RoundRobin/Tests.antt =====
-- Runs of `GenerateRoundRobin` of internal/draw/round_robin.go.
use tourney_api.Prelude.{◌*◌, ◌-◌, ◌≡◌, List, [], ◌∷◌, map, length}
use tourney_api.Draw.{Entry}
use tourney_api.Draw.RoundRobin.{generate_round_robin}
use tourney_api.Draw.RoundRobin.Circle.{length-generate_round_robin}

-- Five entries: a bye rotates.
abbrev five : List Entry
five = map (λ n. record { participant_id = n; seed = 0 }) (1 ∷ 2 ∷ 3 ∷ 4 ∷ 5 ∷ [])

length-generate_round_robin_example :
    length (generate_round_robin five) * 2 ≡ length five * (length five - 1)
length-generate_round_robin_example = length-generate_round_robin five
