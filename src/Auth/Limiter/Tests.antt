-- ===== src/Auth/Limiter/Tests.antt =====
-- A run of the limiter, at which its theorem is applied.
use tourney_api.Prelude.{◌≡◌, refl, inl, inr, false, [], ◌∷◌, List, arith}
use tourney_api.Auth.Email.{Bytes, same_bytes}
use tourney_api.Auth.Limiter.{new_limiter, allow, stamps_of, recent, is_recent}
use tourney_api.Auth.Limiter.Window.{Attempt, run, Fits, allow-attempts_in}

abbrev key : Bytes
key = 1 ∷ []

-- Three attempts for the key, of which the first has left the window by 12, and one for another.
abbrev attempts : List Attempt
attempts =
    record { key = key; limit = 2; window = 10; at = 1 }
    ∷ record { key = 2 ∷ []; limit = 9; window = 50; at = 2 }
    ∷ record { key = key; limit = 2; window = 10; at = 3 }
    ∷ record { key = key; limit = 2; window = 10; at = 4 }
    ∷ []

attempts-Fits : Fits key 10 12 attempts
unfolding same_bytes
attempts-Fits = (
  omega arith,
  inr refl,
  (omega arith, inl refl, (omega arith, inr refl, (omega arith, inr refl, tt))),
)

allow-attempts_in_example : (allow key 2 10 12 (run attempts new_limiter)).1 ≡ false
unfolding new_limiter stamps_of recent is_recent same_bytes
allow-attempts_in_example =
    allow-attempts_in key 2 10 12 attempts new_limiter (omega arith) attempts-Fits
