-- ===== src/Auth/Invitations/Tests.antt =====
-- Invitations of internal/auth/invitation.go: an address that was invited, revoked and invited again.
use tourney_api.Prelude.{ℕ, ◌≡◌, ◌≤◌, refl, none, [], ◌∷◌, arith}
use tourney_api.Auth.Email.{
  Bytes, normalize_email, same_bytes, is_space, trim_left, trim_right, put_before, lower_byte,
}
use tourney_api.Auth.Invitations.{
  InvitationStatus, invite_accepted, invite_revoked, Invitation, Allowlist, is_open, find_open,
  not_invited, find_active_by_email, revoke, send, accept, withdraw, changes,
}
use tourney_api.Auth.Invitations.Open.{open_count, open_count-changes, find_active_by_email-revoke}

-- "a@b" and "c".
abbrev address : Bytes
address = 97 ∷ 64 ∷ 98 ∷ []

abbrev other : Bytes
other = 99 ∷ []

abbrev invitation : ℕ → InvitationStatus → Invitation
invitation id status = record {
  id = id;
  email = address;
  status = status;
  accepted_at = none;
  revoked_at = none;
  expires_at = 50;
}

abbrev allowlist : Allowlist
allowlist = record {
  rows = invitation 2 invite_accepted ∷ invitation 1 invite_revoked ∷ [];
  next_id = 3;
}

open_count-changes_example :
    open_count address
      (changes
        ((send address none, 5) ∷ (withdraw 2, 6) ∷ (send address none, 7) ∷ [])
        allowlist).rows
    ≤ 1
unfolding is_open same_bytes
open_count-changes_example =
    open_count-changes address
      ((send address none, 5) ∷ (withdraw 2, 6) ∷ (send address none, 7) ∷ []) allowlist
      (omega arith)

find_active_by_email-revoke_example :
    find_active_by_email address 9
      (changes ((accept 2, 7) ∷ (send other none, 8) ∷ []) (revoke 2 6 allowlist))
    ≡ not_invited
unfolding is_open same_bytes find_open normalize_email trim_left trim_right put_before is_space
    lower_byte
find_active_by_email-revoke_example =
    find_active_by_email-revoke address 6 9 ((accept 2, 7) ∷ (send other none, 8) ∷ []) allowlist
      (invitation 2 invite_accepted) (omega arith) refl (λ e. ground (arith, e), tt)
