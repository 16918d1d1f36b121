-- ===== src/Auth/Sessions.antt =====
-- The sessions of internal/auth: session.go over the rows of `auth_sessions`, the sign-out, the
-- suspension and `RevokeInvitation` of service.go, impersonation.go, and `ChangeRole` of
-- internal/platform/admin_users.go. A call is a step of its own, which no other call overlaps: the
-- code has no lock for that. A refresh token and a digest are numbers; SHA-256 is the parameter
-- `hash`, and the tokens drawn are arguments. The access tokens, the audit entries and
-- `last_seen_at` are left out.
mod Tests
pub mod Revoked
pub mod Ended
pub mod Replay
pub mod Borrowed
use tourney_api.Prelude.{
  ℕ, suc, ◌+◌, Bool, true, false, not, ◌&&◌, ◌||◌, Option, none, some, List, [], ◌∷◌, map, ltb,
  ◌==◌, if◌then◌else◌, String,
}
use tourney_api.Draw.Tables.{uuid_ptr_eq}

pub data Kind : Type 0 where
  normal impersonation : Kind

pub data Reason : Type 0 where
  logout_reason parent_logout refresh_token_reuse impersonation_ended : Reason
  given : String → Reason

pub record Session : Type 0 where
  pub id : ℕ
  pub user_id : ℕ
  pub actor_user_id : Option ℕ
  pub parent_session_id : Option ℕ
  pub kind : Kind
  pub refresh_token_hash : ℕ
  pub previous_refresh_token_hash : Option ℕ
  pub expires_at : ℕ
  pub revoked_at : Option ℕ
  pub revoked_reason : Option Reason

pub data Role : Type 0 where
  super_admin organizer : Role

pub record User : Type 0 where
  pub id : ℕ
  pub role : Role
  pub suspended : Bool

-- The newest session first.
pub record Store : Type 0 where
  pub users : List User
  pub rows : List Session
  pub next_id : ℕ

abbrev pub is_null {ℓ} : {A : Type ℓ} → Option A → Bool
is_null none = true
is_null (some x) = false

abbrev pub is_impersonation : Kind → Bool
is_impersonation normal = false
is_impersonation impersonation = true

pub is_active : ℕ → Session → Bool
is_active now r = is_null r.revoked_at && ltb now r.expires_at

pub find_active : ℕ → ℕ → List Session → Option Session
find_active id now [] = none
find_active id now (r ∷ rows) =
    if r.id == id && is_active now r then some r else find_active id now rows

pub find_by_hash : ℕ → List Session → Option Session
find_by_hash h [] = none
find_by_hash h (r ∷ rows) = if r.refresh_token_hash == h then some r else find_by_hash h rows

-- The session that a token was rotated away from, while it is not revoked.
pub find_reused : ℕ → List Session → Option Session
find_reused h [] = none
find_reused h (r ∷ rows) =
    if uuid_ptr_eq r.previous_refresh_token_hash (some h) && is_null r.revoked_at
    then some r
    else find_reused h rows

pub record CreateParams : Type 0 where
  pub user_id : ℕ
  pub actor_user_id : Option ℕ
  pub parent_session_id : Option ℕ
  pub kind : Kind
  pub refresh_hash : ℕ
  pub expires_at : ℕ

unfoldable pub new_session : ℕ → CreateParams → Session
new_session id p = record {
  id = id;
  user_id = p.user_id;
  actor_user_id = p.actor_user_id;
  parent_session_id = p.parent_session_id;
  kind = p.kind;
  refresh_token_hash = p.refresh_hash;
  previous_refresh_token_hash = none;
  expires_at = p.expires_at;
  revoked_at = none;
  revoked_reason = none;
}

unfoldable pub create : CreateParams → Store → Store
create p s = record s { rows = new_session s.next_id p ∷ s.rows; next_id = suc s.next_id }

-- The first cause is the one that stays.
pub revoke_row : Reason → ℕ → Session → Session
revoke_row reason now r =
    if is_null r.revoked_at
    then record r { revoked_at = some now; revoked_reason = some reason }
    else r

pub revoke_where : (Session → Bool) → Reason → ℕ → Store → Store
revoke_where which reason now s = record s {
  rows = map (λ r. if which r then revoke_row reason now r else r) s.rows;
}

abbrev pub has_id : ℕ → Session → Bool
has_id id r = r.id == id

abbrev pub is_child_of : ℕ → Session → Bool
is_child_of parent r = uuid_ptr_eq r.parent_session_id (some parent)

abbrev pub belongs_to : ℕ → Session → Bool
belongs_to user r = r.user_id == user || uuid_ptr_eq r.actor_user_id (some user)

pub revoke : ℕ → Reason → ℕ → Store → Store
revoke id = revoke_where (has_id id)

pub revoke_children : ℕ → Reason → ℕ → Store → Store
revoke_children parent = revoke_where (is_child_of parent)

pub revoke_all_for_user : ℕ → Reason → ℕ → Store → Store
revoke_all_for_user user = revoke_where (belongs_to user)

pub data Rotated : Type 0 where
  rotated : Session → ℕ → Rotated
  refresh_reused session_not_found : Rotated

pub put_token : ℕ → ℕ → Session → Session
put_token id h r =
    if r.id == id
    then record r {
      previous_refresh_token_hash = some r.refresh_token_hash;
      refresh_token_hash = h;
    }
    else r

pub replace_token : ℕ → ℕ → Store → Store
replace_token id h s = record s { rows = map (put_token id h) s.rows }

-- The update of a replay, which is of a session that is not revoked.
pub reuse_row : ℕ → ℕ → Session → Session
reuse_row id now x =
    if x.id == id
    then record x { revoked_at = some now; revoked_reason = some refresh_token_reuse }
    else x

pub revoke_reused : ℕ → Session → Store → Store
revoke_reused now r s = record s { rows = map (reuse_row r.id now) s.rows }

module _ (hash : ℕ → ℕ) where
  pub rotate : ℕ → ℕ → ℕ → Store → Store × Rotated
  rotate token fresh now s = elim (find_by_hash (hash token) s.rows) [
    | none ↦ elim (find_reused (hash token) s.rows) [
      | none ↦ (s, session_not_found)
      | some r ↦ (revoke_reused now r s, refresh_reused)
    ]
    | some r ↦
        if is_active now r
        then (replace_token r.id (hash fresh) s, rotated r fresh)
        else (s, session_not_found)
  ]

-- A sign-out while impersonating ends the parent too.
pub revoke_parent : Option Session → ℕ → Store → Store
revoke_parent none now s = s
revoke_parent (some r) now s =
    if is_impersonation r.kind
    then elim r.parent_session_id [ none ↦ s | some p ↦ revoke p logout_reason now s ]
    else s

pub logout : ℕ → ℕ → Store → Store
logout id now s =
    revoke id logout_reason now
      (revoke_children id parent_logout now (revoke_parent (find_active id now s.rows) now s))

-- `LogoutByRefreshToken`; the session may have expired.
pub logout_by_refresh_token : (ℕ → ℕ) → ℕ → ℕ → Store → Store
logout_by_refresh_token hash token now s = elim (find_by_hash (hash token) s.rows) [
  | none ↦ s
  | some r ↦ logout r.id now s
]

pub find_user : ℕ → List User → Option User
find_user id [] = none
find_user id (u ∷ users) = if u.id == id then some u else find_user id users

pub suspend_user : ℕ → Reason → ℕ → Store → Store
suspend_user user reason now s = revoke_all_for_user user reason now (record s {
  users = map (λ u. if u.id == user then record u { suspended = true } else u) s.users;
})

-- `ReactivateUser`: sessions stay revoked.
pub reactivate_user : ℕ → Store → Store
reactivate_user user s = record s {
  users = map (λ u. if u.id == user then record u { suspended = false } else u) s.users;
}

-- The sessions' part of `RevokeInvitation`: the address has an account, or it has none.
pub revoke_invitation : Option ℕ → Reason → ℕ → Store → Store
revoke_invitation none reason now s = s
revoke_invitation (some user) reason now s = revoke_all_for_user user reason now s

abbrev pub impersonation_ttl : ℕ
impersonation_ttl = 1800000000

abbrev pub is_super_admin : Role → Bool
is_super_admin super_admin = true
is_super_admin organizer = false

-- An active user of the role that is asked for.
abbrev pub acts_as : Bool → Option User → Bool
acts_as admin none = false
acts_as true (some u) = is_super_admin u.role && not u.suspended
acts_as false (some u) = not (is_super_admin u.role) && not u.suspended

-- Whether the actor has an impersonation that is live.
pub impersonates : ℕ → ℕ → List Session → Bool
impersonates actor now [] = false
impersonates actor now (r ∷ rows) =
    (uuid_ptr_eq r.actor_user_id (some actor) && (is_impersonation r.kind && is_active now r))
    || impersonates actor now rows

pub data Started : Type 0 where
  started : ℕ → Started
  caller_not_found denied : Started

-- The checks after the caller's session, in their order; each of them denies.
pub may_impersonate : Session → ℕ → ℕ → Store → Bool
may_impersonate caller target now s =
    not (is_impersonation caller.kind)
    && (acts_as true (find_user caller.user_id s.users)
        && (not (target == caller.user_id)
            && (acts_as false (find_user target s.users)
                && not (impersonates caller.user_id now s.rows))))

-- The store after the call, and the new session's id.
pub start_impersonation : ℕ → ℕ → ℕ → ℕ → Store → Store × Started
start_impersonation caller_session target h now s = elim (find_active caller_session now s.rows) [
  | none ↦ (s, caller_not_found)
  | some caller ↦
      if may_impersonate caller target now s
      then (
        create
            (record {
              user_id = target;
              actor_user_id = some caller.user_id;
              parent_session_id = some caller.id;
              kind = impersonation;
              refresh_hash = h;
              expires_at = now + impersonation_ttl;
            })
            s,
        started s.next_id,
      )
      else (s, denied)
]

pub data Exited : Type 0 where
  back_to : ℕ → Exited
  not_impersonating nowhere_to_go : Exited

-- The parent, if it is live and still a session of an active super admin.
pub safe_parent : ℕ → ℕ → Store → Option Session
safe_parent parent now s = elim (find_active parent now s.rows) [
  | none ↦ none
  | some p ↦ if acts_as true (find_user p.user_id s.users) then some p else none
]

pub exit_to : ℕ → ℕ → ℕ → ℕ → Store → Store × Exited
exit_to id parent h now s = elim (safe_parent parent now s) [
  | none ↦ (revoke id impersonation_ended now s, nowhere_to_go)
  | some p ↦ (replace_token p.id h (revoke id impersonation_ended now s), back_to p.id)
]

pub exit_impersonation : ℕ → ℕ → ℕ → Store → Store × Exited
exit_impersonation id h now s = elim (find_active id now s.rows) [
  | none ↦ (s, nowhere_to_go)
  | some cur ↦
      if is_impersonation cur.kind
      then elim cur.parent_session_id [
        | none ↦ (s, not_impersonating)
        | some parent ↦ exit_to cur.id parent h now s
      ]
      else (s, not_impersonating)
]

-- `openSession`, for a user that has signed in.
pub open_session : ℕ → ℕ → ℕ → Store → Store
open_session user h expires s =
    create
      (record {
        user_id = user;
        actor_user_id = none;
        parent_session_id = none;
        kind = normal;
        refresh_hash = h;
        expires_at = expires;
      })
      s

-- `otherActiveSuperAdmins` is not 0.
pub other_active_super_admins : ℕ → List User → Bool
other_active_super_admins target [] = false
other_active_super_admins target (u ∷ users) =
    (not (u.id == target) && (is_super_admin u.role && not u.suspended))
    || other_active_super_admins target users

pub may_change_role : User → Role → Store → Bool
may_change_role u role s =
    not (is_super_admin u.role && (not u.suspended && not (is_super_admin role)))
    || other_active_super_admins u.id s.users

-- `ChangeRole` of internal/platform/admin_users.go, once its arguments are valid and without the
-- organization: nothing changes where it is refused.
pub change_role : ℕ → Role → ℕ → Store → Store
change_role target role now s = elim (find_user target s.users) [
  | none ↦ s
  | some u ↦
      let changed : Store = record s {
        users = map (λ x. if x.id == target then record x { role = role } else x) s.users;
      } in
      if may_change_role u role s
      then (if is_super_admin u.role && not (is_super_admin role)
          then revoke_all_for_user target (given "role_changed") now changed
          else changed)
      else s
]

-- The calls that change sessions; `SetUserStatus` of admin_users.go does as `SuspendUser` and
-- `ReactivateUser` do. `StartImpersonation` counts the live sessions and then inserts,
-- without a transaction or a lock; as one step it is a call that no other call overlaps.
pub data Call : Type 0 where
  sign_in : ℕ → ℕ → ℕ → Call
  refresh : ℕ → ℕ → Call
  sign_out sign_out_by_token : ℕ → Call
  suspend : ℕ → Reason → Call
  reactivate : ℕ → Call
  impersonate : ℕ → ℕ → ℕ → Call
  exit : ℕ → ℕ → Call
  withdraw : Option ℕ → Reason → Call
  set_role : ℕ → Role → Call

pub call : (ℕ → ℕ) → Call → ℕ → Store → Store
call hash (sign_in user h expires) now s = open_session user h expires s
call hash (refresh token fresh) now s = (rotate hash token fresh now s).0
call hash (sign_out id) now s = logout id now s
call hash (sign_out_by_token token) now s = logout_by_refresh_token hash token now s
call hash (suspend user reason) now s = suspend_user user reason now s
call hash (reactivate user) now s = reactivate_user user s
call hash (impersonate caller target h) now s = (start_impersonation caller target h now s).0
call hash (exit id h) now s = (exit_impersonation id h now s).0
call hash (withdraw user reason) now s = revoke_invitation user reason now s
call hash (set_role user role) now s = change_role user role now s

-- Calls one after the other, each with its time.
pub calls : (ℕ → ℕ) → List (Call × ℕ) → Store → Store
calls hash [] s = s
calls hash (c ∷ rest) s = calls hash rest (call hash c.0 c.1 s)
