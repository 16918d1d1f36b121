-- ===== src/Auth/Invitations.antt =====
-- internal/auth/invitation.go over the rows of `invitations`: the allowlist of a sign-in. The partial
-- unique index on the addresses of rows that are not revoked is the test in `invite`. The role, the
-- organization and the notes of an invitation are stored only and left out.
mod Tests
pub mod Open
use tourney_api.Prelude.{
  ℕ, suc, ◌+◌, Bool, true, false, not, ◌&&◌, ◌||◌, Option, none, some, List, [], ◌∷◌, map, ltb,
  ◌==◌, if◌then◌else◌,
}
use tourney_api.Auth.Email.{Bytes, normalize_email, same_bytes}

pub data InvitationStatus : Type 0 where
  invite_pending invite_accepted invite_revoked : InvitationStatus

pub record Invitation : Type 0 where
  pub id : ℕ
  pub email : Bytes
  pub status : InvitationStatus
  pub accepted_at : Option ℕ
  pub revoked_at : Option ℕ
  pub expires_at : ℕ

pub record Allowlist : Type 0 where
  pub rows : List Invitation
  pub next_id : ℕ

abbrev pub is_pending : InvitationStatus → Bool
is_pending invite_pending = true
is_pending _ = false

abbrev pub is_revoked : InvitationStatus → Bool
is_revoked invite_revoked = true
is_revoked _ = false

-- Only a pending invitation ages out.
pub is_active : ℕ → Invitation → Bool
is_active now i = elim i.status [
  | invite_revoked ↦ false
  | invite_accepted ↦ true
  | invite_pending ↦ ltb now i.expires_at
]

-- A row for the address that is not revoked.
pub is_open : Bytes → Invitation → Bool
is_open email i = same_bytes i.email email && not (is_revoked i.status)

pub find_open : Bytes → List Invitation → Option Invitation
find_open email [] = none
find_open email (i ∷ rows) = if is_open email i then some i else find_open email rows

pub data Found : Type 0 where
  invited : Invitation → Found
  not_invited invitation_expired : Found

pub find_active_by_email : Bytes → ℕ → Allowlist → Found
find_active_by_email email now s = elim (find_open (normalize_email email) s.rows) [
  | none ↦ not_invited
  | some i ↦ if is_active now i then invited i else invitation_expired
]

abbrev pub default_ttl : ℕ
default_ttl = 1209600000000

abbrev pub or_default : ℕ → Option ℕ → ℕ
or_default now none = now + default_ttl
or_default now (some t) = t

pub data Invited : Type 0 where
  created : ℕ → Invited
  invitation_exists : Invited

-- `Create`; the time of expiry that the caller's TTL gives, if it gives one.
pub invite : Bytes → Option ℕ → ℕ → Allowlist → Allowlist × Invited
invite email expires now s = elim (find_open (normalize_email email) s.rows) [
  | some i ↦ (s, invitation_exists)
  | none ↦ (
    record s {
      rows =
          record {
            id = s.next_id;
            email = normalize_email email;
            status = invite_pending;
            accepted_at = none;
            revoked_at = none;
            expires_at = or_default now expires;
          }
          ∷ s.rows;
      next_id = suc s.next_id;
    },
    created s.next_id,
  )
]

pub accept_row : ℕ → ℕ → Invitation → Invitation
accept_row id now i =
    if i.id == id && is_pending i.status
    then record i { status = invite_accepted; accepted_at = some now }
    else i

pub mark_accepted : ℕ → ℕ → Allowlist → Allowlist
mark_accepted id now s = record s { rows = map (accept_row id now) s.rows }

pub revoke_row : ℕ → ℕ → Invitation → Invitation
revoke_row id now i =
    if i.id == id && not (is_revoked i.status)
    then record i { status = invite_revoked; revoked_at = some now }
    else i

pub revoke : ℕ → ℕ → Allowlist → Allowlist
revoke id now s = record s { rows = map (revoke_row id now) s.rows }

pub data Change : Type 0 where
  send : Bytes → Option ℕ → Change
  accept withdraw : ℕ → Change

pub change : Change → ℕ → Allowlist → Allowlist
change (send email expires) now s = (invite email expires now s).0
change (accept id) now s = mark_accepted id now s
change (withdraw id) now s = revoke id now s

-- Changes one after the other, each with its time.
pub changes : List (Change × ℕ) → Allowlist → Allowlist
changes [] s = s
changes (c ∷ rest) s = changes rest (change c.0 c.1 s)
