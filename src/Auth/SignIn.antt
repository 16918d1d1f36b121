-- ===== src/Auth/SignIn.antt =====
-- internal/auth/otp_service.go: the request of a code, and the sign-in with it, over the stores of
-- the limiter, the invitations, the codes and the sessions. A row of `users` is in two parts: what
-- the sessions read, among `sessions.users`, and the address with the name. The mail service, the
-- hash, the code and the refresh token that are drawn, and the lifetime of a session are parameters;
-- the hashes of the client's address and `last_login_at` are left out, as is the access token.
pub mod Limits
pub mod Whole
mod Tests
use tourney_api.Prelude.{
  ℕ, zero, suc, ◌+◌, ◌*◌, Bool, true, false, not, ◌&&◌, ◌||◌, Option, none, some, List, [], ◌∷◌,
  ◌++◌, map, ◌==◌, if◌then◌else◌, length, take, drop,
}
use tourney_api.Auth.Email.{Bytes, normalize_email, same_bytes, lower_byte, trim_left, trim_right}
use tourney_api.Auth.Limiter.{Limiter, allow, reset, otp_per_ip_window}
use tourney_api.Auth.Invitations.{
  Invitation, Allowlist, is_pending, Found, invited, not_invited, invitation_expired,
  find_active_by_email, mark_accepted,
}
use tourney_api.Auth.Otp.{
  Challenge, VerifyResult, otp_expired, otp_purpose_login, verify_code, issue, lock_live,
  check_live, consume, record_failure,
}
use tourney_api.Auth.Otp
use tourney_api.Auth.Sessions
use tourney_api.Auth.Sessions.{User, Role, Kind, normal, create, find_user}

-- The columns of an invitation that only a first sign-in reads.
pub record Terms : Type 0 where
  pub role : Role
  pub organization_id : Option ℕ
  pub email_display : Option Bytes

pub record Account : Type 0 where
  pub id : ℕ
  pub email : Bytes
  pub name : Bytes
  pub org_id : Option ℕ

pub data AuthAction : Type 0 where
  otp_requested otp_request_rejected otp_rate_limited otp_verified otp_failed : AuthAction
  otp_code_expired invitation_accepted : AuthAction

pub record AuthEntry : Type 0 where
  pub action : AuthAction
  pub email : Bytes
  pub challenge_id : Option ℕ

pub record AuthStore : Type 0 where
  pub accounts : List Account
  pub next_user : ℕ
  pub allowlist : Allowlist
  pub terms : ℕ → Terms
  pub codes : Otp.Store
  pub sessions : Sessions.Store
  pub limiter : Limiter
  pub audit : List AuthEntry

-- `record`.
abbrev pub note : AuthAction → Bytes → Option ℕ → AuthStore → AuthStore
note action addr challenge s = record s {
  audit = record { action = action; email = addr; challenge_id = challenge } ∷ s.audit;
}

unfoldable pub index_of : ℕ → Bytes → Option ℕ
index_of c [] = none
index_of c (d ∷ text) =
    let rest = index_of c text in
    if d == c then some 0 else elim rest [ none ↦ none | some i ↦ some (suc i) ]

unfoldable pub count_of : ℕ → Bytes → ℕ
count_of c [] = 0
count_of c (d ∷ text) = let rest = count_of c text in if d == c then suc rest else rest

-- " \t\r\n".
abbrev pub is_blank : ℕ → Bool
is_blank c = c == 32 || (c == 9 || (c == 13 || c == 10))

unfoldable pub has_blank : Bytes → Bool
has_blank [] = false
has_blank (c ∷ text) = is_blank c || has_blank text

unfoldable pub starts_with_dot : Bytes → Bool
starts_with_dot [] = false
starts_with_dot (c ∷ text) = c == 46

unfoldable pub ends_with_dot : Bytes → Bool
ends_with_dot [] = false
ends_with_dot (c ∷ []) = c == 46
ends_with_dot (c ∷ d ∷ text) = ends_with_dot (d ∷ text)

unfoldable pub is_domain : Bytes → Bool
is_domain d = not (count_of 46 d == 0) && (not (starts_with_dot d) && not (ends_with_dot d))

unfoldable pub looks_like_email : Bytes → Bool
looks_like_email s = elim (index_of 64 s) [
  | none ↦ false
  | some at ↦
      not (at == 0)
      && (not (suc at == length s)
          && (count_of 64 s == 1 && (is_domain (drop (suc at) s) && not (has_blank s))))
]

abbrev pub otp_per_email_limit : ℕ
otp_per_email_limit = 3

abbrev pub otp_per_email_window : ℕ
otp_per_email_window = 600000000

abbrev pub otp_per_ip_limit : ℕ
otp_per_ip_limit = 10

-- "otp:email:" and the address.
abbrev pub email_key : Bytes → Bytes
email_key addr = 111 ∷ 116 ∷ 112 ∷ 58 ∷ 101 ∷ 109 ∷ 97 ∷ 105 ∷ 108 ∷ 58 ∷ addr

-- "otp:ip:" and the client's address.
abbrev pub ip_key : Bytes → Bytes
ip_key ip = 111 ∷ 116 ∷ 112 ∷ 58 ∷ 105 ∷ 112 ∷ 58 ∷ ip

-- A client without an address has no limit of its own.
unfoldable pub allow_ip : Bytes → ℕ → Limiter → Limiter × Bool
allow_ip [] now l = (l, true)
allow_ip (c ∷ ip) now l = allow (ip_key (c ∷ ip)) otp_per_ip_limit otp_per_ip_window now l

unfoldable pub find_account : Bytes → List Account → Option Account
find_account addr [] = none
find_account addr (a ∷ accounts) =
    if same_bytes (map lower_byte a.email) addr then some a else find_account addr accounts

-- `FindByEmail`, of an address that is normalized.
unfoldable pub find_by_email : Bytes → AuthStore → Option User
find_by_email addr s = elim (find_account addr s.accounts) [
  | none ↦ none
  | some a ↦ find_user a.id s.sessions.users
]

abbrev pub is_suspended : Option User → Bool
is_suspended none = false
is_suspended (some u) = u.suspended

pub data RequestResult : Type 0 where
  code_sent invalid_email rate_limited request_refused account_suspended : RequestResult
  delivery_failed : RequestResult

abbrev pub before_at : Bytes → Bytes
before_at name = elim (index_of 64 name) [
  | none ↦ name
  | some at ↦ if at == 0 then name else take at name
]

-- The name of a new account.
unfoldable pub account_name : Bytes → Option Bytes → Bytes
account_name email none = before_at email
account_name email (some []) = before_at email
account_name email (some (c ∷ display)) = before_at (trim_right (trim_left (c ∷ display)))

-- `INSERT INTO users … ON CONFLICT (lower(email)) DO NOTHING`.
unfoldable pub insert_account : Invitation → AuthStore → AuthStore
insert_account inv s = elim (find_account (map lower_byte inv.email) s.accounts) [
  | some a ↦ s
  | none ↦
      let terms = s.terms inv.id in
      let account : Account = record {
        id = s.next_user;
        email = inv.email;
        name = account_name inv.email terms.email_display;
        org_id = terms.organization_id;
      } in
      let user : User = record { id = s.next_user; role = terms.role; suspended = false } in
      record s {
        accounts = account ∷ s.accounts;
        next_user = suc s.next_user;
        sessions = record s.sessions { users = user ∷ s.sessions.users };
      }
]

-- `upsertFromInvitation`.
unfoldable pub upsert_from_invitation : Invitation → AuthStore → AuthStore × Option User
upsert_from_invitation inv s = let s' = insert_account inv s in (s', find_by_email inv.email s')

pub data SignInError : Type 0 where
  no_email no_invitation stale_invitation no_code code_expired code_locked code_invalid :
      SignInError
  suspended_user no_row : SignInError

pub data SignInResult : Type 0 where
  signed_in : (user : User) (session : ℕ) → SignInResult
  sign_in_refused : SignInError → SignInResult

abbrev pub code_refusal : VerifyResult → SignInError
code_refusal otp_expired = code_expired
code_refusal _ = code_locked

abbrev pub note_expired : VerifyResult → Bytes → ℕ → AuthStore → AuthStore
note_expired otp_expired addr challenge s = note otp_code_expired addr (some challenge) s
note_expired _ addr challenge s = s

-- What `RecordFailure` returns.
abbrev pub failure_result : Option Bool → SignInError
failure_result none = no_row
failure_result (some true) = code_locked
failure_result (some false) = code_invalid

unfoldable pub accept_pending : ℕ → Bytes → Invitation → AuthStore → AuthStore
accept_pending now addr inv s =
    if is_pending inv.status
    then note invitation_accepted addr none
        (record s { allowlist = mark_accepted inv.id now s.allowlist })
    else s

unfoldable pub open_for : User → ℕ → ℕ → AuthStore → AuthStore
open_for user h expires s = record s {
  sessions =
      create
        (record {
          user_id = user.id;
          actor_user_id = none;
          parent_session_id = none;
          kind = normal;
          refresh_hash = h;
          expires_at = expires;
        })
        s.sessions;
}

-- The rest of the transaction, once the code is right; a refusal rolls back.
unfoldable pub complete_sign_in :
    Bytes → Invitation → Challenge → ℕ → ℕ → ℕ → AuthStore → AuthStore × SignInResult
complete_sign_in addr inv ch h expires now s =
    let consumed_code = record s { codes = consume ch.id now s.codes } in
    let (s', found) = upsert_from_invitation inv consumed_code in
    elim found [
      | none ↦ (s, sign_in_refused no_row)
      | some user ↦ if user.suspended then (s, sign_in_refused suspended_user) else (
        let opened = open_for user h expires (accept_pending now addr inv s') in
            note otp_verified addr none
              (record opened { limiter = reset (email_key addr) opened.limiter }),
        signed_in user s'.sessions.next_id,
      )
    ]

module _ (hmac : Bytes → Bytes → Bytes) (pepper : Bytes) where
  -- `Request`, with the code that is drawn and whether the mail service takes a message.
  unfoldable pub send_code :
      (Bytes → Bytes → Bool) → Bytes → ℕ → Bytes → ℕ → AuthStore → AuthStore × RequestResult
  send_code delivers addr invitation code now s =
      let issued = record s {
        codes = issue hmac pepper addr otp_purpose_login (some invitation) code now s.codes;
      } in
      if delivers addr code
      then (note otp_requested addr (some s.codes.next_id) issued, code_sent)
      else (issued, delivery_failed)

  unfoldable pub request_invited :
      (Bytes → Bytes → Bool) → Bytes → Bytes → ℕ → AuthStore → AuthStore × RequestResult
  request_invited delivers addr code now s = elim (find_active_by_email addr now s.allowlist) [
    | not_invited ↦ (note otp_request_rejected addr none s, request_refused)
    | invitation_expired ↦ (note otp_request_rejected addr none s, request_refused)
    | invited inv ↦
        if is_suspended (find_by_email addr s)
        then (note otp_request_rejected addr none s, account_suspended)
        else send_code delivers addr inv.id code now s
  ]

  unfoldable pub request_code :
      (Bytes → Bytes → Bool) → Bytes → Bytes → Bytes → ℕ → AuthStore → AuthStore × RequestResult
  request_code delivers email ip code now s =
      let addr = normalize_email email in
      if looks_like_email addr
      then (let (l1, by_email) =
            allow (email_key addr) otp_per_email_limit otp_per_email_window now s.limiter in
          let (l2, by_ip) = allow_ip ip now l1 in
          if by_email
          then (if by_ip
              then request_invited delivers addr code now (record s { limiter = l2 })
              else (note otp_rate_limited addr none (record s { limiter = l2 }), rate_limited))
          else (note otp_rate_limited addr none (record s { limiter = l1 }), rate_limited))
      else (s, invalid_email)

  -- The code against the challenge that is live.
  unfoldable pub try_code :
      Bytes → Bytes → Invitation → Challenge → ℕ → ℕ → ℕ → AuthStore → AuthStore × SignInResult
  try_code addr code inv ch h expires now s = elim (check_live now ch) [
    | some refusal ↦ (note_expired refusal addr ch.id s, sign_in_refused (code_refusal refusal))
    | none ↦
        if verify_code hmac pepper addr code ch.code_hash
        then complete_sign_in addr inv ch h expires now s
        else (let (codes, locked) = record_failure ch.id now s.codes in
            (
              elim locked [
                | none ↦ record s { codes = codes }
                | some capped ↦ note otp_failed addr (some ch.id) (record s { codes = codes })
              ],
              sign_in_refused (failure_result locked),
            ))
  ]

  -- `VerifyAndSignIn`, with the digest of the refresh token that is drawn.
  unfoldable pub verify_and_sign_in :
      Bytes → Bytes → ℕ → ℕ → ℕ → AuthStore → AuthStore × SignInResult
  verify_and_sign_in email code h refresh_ttl now s =
      let addr = normalize_email email in
      if looks_like_email addr
      then elim (find_active_by_email addr now s.allowlist) [
        | not_invited ↦ (s, sign_in_refused no_invitation)
        | invitation_expired ↦ (s, sign_in_refused stale_invitation)
        | invited inv ↦ elim (lock_live addr otp_purpose_login s.codes) [
          | none ↦ (s, sign_in_refused no_code)
          | some ch ↦ try_code addr code inv ch h (now + refresh_ttl) now s
        ]
      ]
      else (s, sign_in_refused no_email)
