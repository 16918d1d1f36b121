-- ===== src/Auth/Sessions/Tests.antt =====
-- An administrator who acts as an organizer, and a session that is refreshed, at which the theorems
-- on sessions are applied. A digest is its token plus 100.
use tourney_api.Prelude.{ℕ, ◌+◌, ◌≡◌, ◌≤◌, refl, inr, false, none, some, [], ◌∷◌, arith}
use tourney_api.Auth.Sessions.{
  Session, Store, User, super_admin, organizer, normal, impersonation, is_active, find_active,
  find_by_hash, has_id, replace_token, refresh_reused, rotate, logout, refresh, reactivate,
  impersonate, exit, calls,
}
use tourney_api.Auth.Sessions.Revoked.{AllRevoked, find_active-calls}
use tourney_api.Auth.Sessions.Ended.{logout-Ends}
use tourney_api.Auth.Sessions.Replay.{rotate_replay}
use tourney_api.Auth.Sessions.Borrowed.{borrowed, borrowed-calls}

abbrev digest : ℕ → ℕ
digest token = token + 100

abbrev session : ℕ → ℕ → ℕ → Session
session id user h = record {
  id = id;
  user_id = user;
  actor_user_id = none;
  parent_session_id = none;
  kind = normal;
  refresh_token_hash = h;
  previous_refresh_token_hash = none;
  expires_at = 900;
  revoked_at = none;
  revoked_reason = none;
}

abbrev acting : Session
acting = record (session 3 8 107) {
  actor_user_id = some 7;
  parent_session_id = some 1;
  kind = impersonation;
}

abbrev user : ℕ → User
user id = record { id = id; role = organizer; suspended = false }

abbrev signed_in : Store
signed_in = record {
  users = record (user 7) { role = super_admin } ∷ user 8 ∷ [];
  rows = acting ∷ session 2 8 105 ∷ session 1 7 101 ∷ [];
  next_id = 4;
}

-- The administrator's parent session is gone, and nothing that follows brings it back.
logout-Ends_example :
    find_active 1 20
      (calls digest ((refresh 1 9, 15) ∷ (reactivate 7, 16) ∷ []) (logout 3 10 signed_in)).rows
    ≡ none
unfolding find_active is_active
logout-Ends_example =
    logout-Ends 3 10 signed_in digest 1 20 ((refresh 1 9, 15) ∷ (reactivate 7, 16) ∷ [])
      (omega arith) (inr (inr (acting, refl, refl, refl)))

abbrev revoked : Store
revoked = record signed_in {
  rows = record (session 2 8 105) { revoked_at = some 5 } ∷ session 1 7 101 ∷ [];
}

find_active-calls_example :
    find_active 2 20
      (calls digest ((refresh 5 9, 15) ∷ (impersonate 1 8 111, 16) ∷ []) revoked).rows
    ≡ none
find_active-calls_example =
    find_active-calls digest 2 20 ((refresh 5 9, 15) ∷ (impersonate 1 8 111, 16) ∷ []) revoked
      (omega arith) (λ e. refl, (λ e. ground (arith, e), tt))

rotate_replay_example :
    ((rotate digest 5 10 30 (replace_token 2 110 signed_in)).1 ≡ refresh_reused)
    × AllRevoked (has_id 2) (rotate digest 5 10 30 (replace_token 2 110 signed_in)).0.rows
unfolding rotate find_by_hash is_active
rotate_replay_example =
    rotate_replay digest 5 10 20 signed_in (replace_token 2 110 signed_in) (session 2 8 105) 10 30
      (λ e. ground (arith, e)) (λ e. ground (arith, e), (λ e. refl, (λ e. ground (arith, e), tt)))
      (λ e. ground (arith, e), (λ e. ground (arith, e), (λ e. ground (arith, e), tt))) refl

-- A second impersonation is refused while the first is live.
borrowed-calls_example :
    borrowed 7 40
      (calls digest
        ((impersonate 1 8 112, 20) ∷ (exit 3 113, 25) ∷ (impersonate 1 8 114, 30) ∷ [])
        signed_in).rows
    ≤ 1
unfolding is_active
borrowed-calls_example =
    borrowed-calls digest 7 10 40
      ((impersonate 1 8 112, 20) ∷ (exit 3 113, 25) ∷ (impersonate 1 8 114, 30) ∷ []) signed_in
      (omega arith, (omega arith, (omega arith, omega arith))) (omega arith)
