-- ===== src/Auth/SignIn/Whole.antt =====
-- internal/auth/otp_service.go: a sign-in happens whole or not at all.
use mathlib.Core.Path.{subst}
use tourney_api.Prelude.{
  List, ◌∷◌, ℕ, ◌+◌, ◌≡◌, ◌⊎◌, refl, sym, ap, ◌∙◌, inl, inr, Bool, Bool-cases, true, false, Option,
  Option-cases, none, some, map, if◌then◌else◌,
}
use tourney_api.Auth.Email.{Bytes, normalize_email, lower_byte}
use tourney_api.Auth.Limiter.{reset}
use tourney_api.Auth.Invitations.{
  Invitation, Allowlist, is_pending, invited, find_active_by_email, mark_accepted,
}
use tourney_api.Auth.Otp
use tourney_api.Auth.Otp.{
  Challenge, otp_purpose_login, verify_code, lock_live, check_live, consume, record_failure,
  VerifyResult, verified, otp_not_found, otp_expired, otp_invalid, otp_locked, otp_no_rows,
}
use tourney_api.Auth.Sessions.{Session, User, normal, new_session, create, find_user}
use tourney_api.Auth.SignIn.{
  account_name, Account, AuthStore, otp_verified, otp_failed, note_expired, note, find_account,
  find_by_email, insert_account, upsert_from_invitation, SignInResult, signed_in, sign_in_refused,
  accept_pending, open_for, complete_sign_in, try_code, verify_and_sign_in, email_key,
  looks_like_email,
}
use tourney_api.Auth.SignIn.Limits.{Found-cases}

-- The accounts, invitations, sessions and limits are those there were.
abbrev pub SameAccess : AuthStore → AuthStore → Type 0
SameAccess s s' =
    (s'.accounts ≡ s.accounts)
    × (s'.allowlist ≡ s.allowlist)
    × (s'.sessions ≡ s.sessions)
    × (s'.limiter ≡ s.limiter)

-- The session of a sign-in.
abbrev pub session_for : User → ℕ → ℕ → ℕ → Session
session_for user h expires id = record {
  id = id;
  user_id = user.id;
  actor_user_id = none;
  parent_session_id = none;
  kind = normal;
  refresh_token_hash = h;
  previous_refresh_token_hash = none;
  expires_at = expires;
  revoked_at = none;
  revoked_reason = none;
}

-- The account of an invitation that has none yet, and its user, who takes the invitation's role.
abbrev pub account_for : Invitation → AuthStore → Account
account_for inv s = record {
  id = s.next_user;
  email = inv.email;
  name = account_name inv.email (s.terms inv.id).email_display;
  org_id = (s.terms inv.id).organization_id;
}

abbrev pub user_for : Invitation → AuthStore → User
user_for inv s = record { id = s.next_user; role = (s.terms inv.id).role; suspended = false }

-- An address with an account leaves accounts and users as they are; one without gets both.
abbrev pub HasAccount : Invitation → AuthStore → List Account → List User → Type 0
HasAccount inv s accounts users =
    ((a : Account) × (find_account (map lower_byte inv.email) s.accounts ≡ some a)
      × (accounts ≡ s.accounts)
      × (users ≡ s.sessions.users))
    ⊎ ((find_account (map lower_byte inv.email) s.accounts ≡ none)
        × (accounts ≡ account_for inv s ∷ s.accounts)
        × (users ≡ user_for inv s ∷ s.sessions.users))

insert_account-HasAccount :
    (inv : Invitation) (s : AuthStore)
    → HasAccount inv s (insert_account inv s).accounts (insert_account inv s).sessions.users
unfolding insert_account
insert_account-HasAccount inv s =
    elim (Option-cases (find_account (map lower_byte inv.email) s.accounts)) [
      | inl e ↦ inr (e, rw (insert_account, e) refl, rw (insert_account, e) refl)
      | inr (a, e) ↦ inl (a, e, rw (insert_account, e) refl, rw (insert_account, e) refl)
    ]

-- The sessions are what they were, beside the users.
insert_account-sessions :
    (inv : Invitation) (s : AuthStore)
    → (insert_account inv s).sessions
      ≡ record s.sessions { users = (insert_account inv s).sessions.users }
unfolding insert_account
insert_account-sessions inv s =
    elim (Option-cases (find_account (map lower_byte inv.email) s.accounts)) [
      | inl e ↦ rw (insert_account, e) refl
      | inr (a, e) ↦ rw (insert_account, e) refl
    ]

abbrev user_of : Bytes → List Account → List User → Option User
user_of addr accounts users = elim (find_account addr accounts) [
  | none ↦ none
  | some a ↦ find_user a.id users
]

find_by_email_same :
    (addr : Bytes) (s t : AuthStore)
    → s.accounts ≡ t.accounts
    → s.sessions.users ≡ t.sessions.users
    → find_by_email addr s ≡ find_by_email addr t
unfolding find_by_email
find_by_email_same addr s t accounts users =
    ap (λ a. user_of addr a s.sessions.users) accounts ∙ ap (user_of addr t.accounts) users

module _ (hmac : Bytes → Bytes → Bytes) (pepper : Bytes) where
  -- What a refused sign-in leaves: the codes too, but for a wrong guess at the live one.
  abbrev pub Refused : Bytes → Bytes → ℕ → AuthStore → AuthStore → Type 0
  Refused addr code now s s' =
      SameAccess s s'
      × ((s'.codes ≡ s.codes)
          ⊎ ((ch : Challenge) × (lock_live addr otp_purpose_login s.codes ≡ some ch)
              × (verify_code hmac pepper addr code ch.code_hash ≡ false)
              × (s'.codes ≡ (record_failure ch.id now s.codes).0)))

  -- What a sign-in takes and what it leaves.
  abbrev pub Opened : Bytes → Bytes → ℕ → ℕ → ℕ → AuthStore → AuthStore → User → Type 0
  Opened addr code h expires now s s' user =
      (inv : Invitation) × (ch : Challenge) × (find_active_by_email addr now s.allowlist
        ≡ invited inv)
      × (lock_live addr otp_purpose_login s.codes ≡ some ch)
      × (check_live now ch ≡ none)
      × (verify_code hmac pepper addr code ch.code_hash ≡ true)
      × HasAccount inv s s'.accounts s'.sessions.users
      × (find_by_email inv.email s' ≡ some user)
      × (user.suspended ≡ false)
      × (s'.codes ≡ consume ch.id now s.codes)
      × (s'.allowlist
          ≡ (if is_pending inv.status then mark_accepted inv.id now s.allowlist else s.allowlist))
      × (s'.sessions.rows ≡ session_for user h expires s.sessions.next_id ∷ s.sessions.rows)
      × (s'.limiter ≡ reset (email_key addr) s.limiter)

  abbrev pub Whole : Bytes → Bytes → ℕ → ℕ → ℕ → AuthStore → AuthStore × SignInResult → Type 0
  Whole addr code h expires now s (s', signed_in user session) =
      Opened addr code h expires now s s' user
  Whole addr code h expires now s (s', sign_in_refused e) = Refused addr code now s s'

  untouched : (addr code : Bytes) (now : ℕ) (s : AuthStore) → Refused addr code now s s
  untouched addr code now s = ((refl, refl, refl, refl), inl refl)

  -- The codes have no part in the account.
  insert_account-codes :
      (inv : Invitation) (s : AuthStore) (codes : Otp.Store)
      → insert_account inv (record s { codes = codes })
        ≡ record (insert_account inv s) { codes = codes }
  unfolding insert_account
  insert_account-codes inv s codes =
      elim (Option-cases (find_account (map lower_byte inv.email) s.accounts)) [
        | inl e ↦ rw (insert_account, e) refl
        | inr (a, e) ↦ rw (insert_account, e) refl
      ]

  insert_account-allowlist :
      (inv : Invitation) (s : AuthStore)
      → ((insert_account inv s).allowlist ≡ s.allowlist)
        × ((insert_account inv s).limiter ≡ s.limiter)
  unfolding insert_account
  insert_account-allowlist inv s =
      elim (Option-cases (find_account (map lower_byte inv.email) s.accounts)) [
        | inl e ↦ rw (insert_account, e) (refl, refl)
        | inr (a, e) ↦ rw (insert_account, e) (refl, refl)
      ]

  -- The store after a sign-in, from the one with the account.
  abbrev opened : Bytes → Invitation → User → ℕ → ℕ → ℕ → AuthStore → AuthStore
  opened addr inv user h expires now t =
      let open_ = open_for user h expires (accept_pending now addr inv t) in
      note otp_verified addr none (record open_ { limiter = reset (email_key addr) open_.limiter })

  opened-parts :
      (addr : Bytes) (inv : Invitation) (user : User) (h expires now : ℕ) (t : AuthStore)
      → (let s' = opened addr inv user h expires now t in
          (s'.codes ≡ t.codes)
          × (s'.accounts ≡ t.accounts)
          × (s'.allowlist ≡ (
              if is_pending inv.status then mark_accepted inv.id now t.allowlist else t.allowlist))
          × (s'.sessions.users ≡ t.sessions.users)
          × (s'.sessions.rows ≡ session_for user h expires t.sessions.next_id ∷ t.sessions.rows)
          × (s'.limiter ≡ reset (email_key addr) t.limiter))
  unfolding open_for accept_pending create new_session
  opened-parts addr inv user h expires now t = elim (Bool-cases (is_pending inv.status)) [
    | inl e ↦ rw (open_for, accept_pending, e) (refl, refl, refl, refl, refl, refl)
    | inr e ↦ rw (open_for, accept_pending, e) (refl, refl, refl, refl, refl, refl)
  ]

  -- The store with the account and the code spent.
  abbrev joined : Invitation → Challenge → ℕ → AuthStore → AuthStore
  joined inv ch now s = insert_account inv (record s { codes = consume ch.id now s.codes })

  complete_sign_in-opened :
      (addr : Bytes) (inv : Invitation) (ch : Challenge) (h expires now : ℕ) (s : AuthStore)
      (user : User)
      → find_by_email inv.email (joined inv ch now s) ≡ some user
      → user.suspended ≡ false
      → complete_sign_in addr inv ch h expires now s ≡ (
        opened addr inv user h expires now (joined inv ch now s),
        signed_in user (joined inv ch now s).sessions.next_id,
      )
  unfolding complete_sign_in upsert_from_invitation
  complete_sign_in-opened addr inv ch h expires now s user e f = rw (complete_sign_in, e, f) refl

  complete_sign_in-Whole :
      (addr code : Bytes) (inv : Invitation) (ch : Challenge) (h expires now : ℕ) (s : AuthStore)
      → find_active_by_email addr now s.allowlist ≡ invited inv
      → lock_live addr otp_purpose_login s.codes ≡ some ch
      → check_live now ch ≡ none
      → verify_code hmac pepper addr code ch.code_hash ≡ true
      → Whole addr code h expires now s (complete_sign_in addr inv ch h expires now s)
  unfolding complete_sign_in upsert_from_invitation
  complete_sign_in-Whole addr code inv ch h expires now s found live fresh right =
      let codes = consume ch.id now s.codes in
      let s' = joined inv ch now s in
      let moved = insert_account-codes inv s codes in
      let (same_list, same_limiter) = insert_account-allowlist inv s in
      elim (Option-cases (find_by_email inv.email s')) [
        | inl e ↦ rw (complete_sign_in, e) (untouched addr code now s)
        | inr (user, e) ↦ elim (Bool-cases user.suspended) [
          | inl f ↦ rw (complete_sign_in, e, f) (untouched addr code now s)
          | inr f ↦
              let (spent, accounts, list, users, rows, limiter) =
                opened-parts addr inv user h expires now s' in
              let made = insert_account inv s in
              let pending = λ (l : Allowlist).
                if is_pending inv.status then mark_accepted inv.id now l else l in
              let all_accounts = accounts ∙ ap (λ t. t.accounts) moved in
              let all_users = users ∙ ap (λ t. t.sessions.users) moved in
              let after = opened addr inv user h expires now s' in
              let has_account : HasAccount inv s after.accounts after.sessions.users =
                subst (λ u. HasAccount inv s after.accounts u) (sym all_users)
                  (subst (λ a. HasAccount inv s a made.sessions.users) (sym all_accounts)
                    (insert_account-HasAccount inv s)) in
              let account = find_by_email_same inv.email after s' accounts users ∙ e in
              let kept = insert_account-sessions inv s in
              subst (Whole addr code h expires now s)
                (sym (complete_sign_in-opened addr inv ch h expires now s user e f))
                (
                  inv,
                  ch,
                  found,
                  live,
                  fresh,
                  right,
                  has_account,
                  account,
                  f,
                  spent ∙ ap (λ t. t.codes) moved,
                  list ∙ ap (λ t. pending t.allowlist) moved ∙ ap pending same_list,
                  rows
                      ∙ ap (λ t. session_for user h expires t.sessions.next_id ∷ t.sessions.rows)
                          moved
                      ∙ ap (λ u. session_for user h expires u.next_id ∷ u.rows) kept,
                  limiter
                      ∙ ap (λ t. reset (email_key addr) t.limiter) moved
                      ∙ ap (reset (email_key addr)) same_limiter,
                )
        ]
      ]

  -- A failed guess, noted or not.
  abbrev after_guess : Bytes → Challenge → Otp.Store → Option Bool → AuthStore → AuthStore
  after_guess addr ch codes locked s = elim locked [
    | none ↦ record s { codes = codes }
    | some capped ↦ note otp_failed addr (some ch.id) (record s { codes = codes })
  ]

  after_guess-Refused :
      (addr code : Bytes) (ch : Challenge) (now : ℕ) (s : AuthStore) (locked : Option Bool)
      → lock_live addr otp_purpose_login s.codes ≡ some ch
      → verify_code hmac pepper addr code ch.code_hash ≡ false
      → Refused addr code now s (after_guess addr ch (record_failure ch.id now s.codes).0 locked s)
  after_guess-Refused addr code ch now s none live wrong =
      ((refl, refl, refl, refl), inr (ch, live, wrong, refl))
  after_guess-Refused addr code ch now s (some capped) live wrong =
      ((refl, refl, refl, refl), inr (ch, live, wrong, refl))

  note_expired-Refused :
      (addr code : Bytes) (now : ℕ) (s : AuthStore) (refusal : VerifyResult) (challenge : ℕ)
      → Refused addr code now s (note_expired refusal addr challenge s)
  note_expired-Refused addr code now s (verified c) challenge = untouched addr code now s
  note_expired-Refused addr code now s otp_not_found challenge = untouched addr code now s
  note_expired-Refused addr code now s otp_expired challenge = untouched addr code now s
  note_expired-Refused addr code now s otp_invalid challenge = untouched addr code now s
  note_expired-Refused addr code now s otp_locked challenge = untouched addr code now s
  note_expired-Refused addr code now s otp_no_rows challenge = untouched addr code now s

  try_code-Whole :
      (addr code : Bytes) (inv : Invitation) (ch : Challenge) (h expires now : ℕ) (s : AuthStore)
      → find_active_by_email addr now s.allowlist ≡ invited inv
      → lock_live addr otp_purpose_login s.codes ≡ some ch
      → Whole addr code h expires now s (try_code hmac pepper addr code inv ch h expires now s)
  unfolding try_code
  try_code-Whole addr code inv ch h expires now s found live =
      elim (Option-cases (check_live now ch)) [
        | inr (refusal, e) ↦ rw (try_code, e) (note_expired-Refused addr code now s refusal ch.id)
        | inl e ↦ elim (Bool-cases (verify_code hmac pepper addr code ch.code_hash)) [
          | inl right ↦
              rw (try_code, e, right)
                (complete_sign_in-Whole addr code inv ch h expires now s found live e right)
          | inr wrong ↦
              rw (try_code, e, wrong)
                (after_guess-Refused addr code ch now s (record_failure ch.id now s.codes).1 live
                  wrong)
        ]
      ]

  -- A sign-in that goes through had an active invitation of the address, a live code that had not
  -- expired nor been guessed at too often, and the right digits. It spends that code and accepts the
  -- invitation if it was pending. An address that has an account keeps it with its role; for another
  -- an account is added, with the invitation's name, organization and role. The user of the
  -- address, who must not be suspended, gets one session beside those there were, and the address's
  -- attempts are forgotten. A sign-in that is refused leaves accounts, invitations, sessions and
  -- limits as they were, and the codes too, unless the digits were wrong for the live code, whose
  -- failure is then recorded.
  pub verify_and_sign_in-Whole :
      (email code : Bytes) (h refresh_ttl now : ℕ) (s : AuthStore)
      → Whole
          (normalize_email email)
          code
          h
          (now + refresh_ttl)
          now
          s
          (verify_and_sign_in hmac pepper email code h refresh_ttl now s)
  unfolding verify_and_sign_in try_code
  verify_and_sign_in-Whole email code h refresh_ttl now s =
      let addr = normalize_email email in
      let same = untouched addr code now s in
      elim (Bool-cases (looks_like_email addr)) [
        | inr odd ↦ rw (verify_and_sign_in, odd) same
        | inl shape ↦ elim (Found-cases (find_active_by_email addr now s.allowlist)) [
          | inl e ↦ rw (verify_and_sign_in, shape, e) same
          | inr (inl e) ↦ rw (verify_and_sign_in, shape, e) same
          | inr (inr (inv, e)) ↦ elim (Option-cases (lock_live addr otp_purpose_login s.codes)) [
            | inl f ↦ rw (verify_and_sign_in, shape, e, f) same
            | inr (ch, f) ↦
                rw (verify_and_sign_in, shape, e, f)
                  (try_code-Whole addr code inv ch h (now + refresh_ttl) now s e f)
          ]
        ]
      ]
