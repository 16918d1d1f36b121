-- ===== src/Auth/Sessions/Revoked.antt =====
-- internal/auth/session.go and service.go: a session that is revoked stays so.
use tourney_api.Prelude.{
  ℕ, ◌≡◌, ◌<◌, refl, sym, ap, ◌∙◌, inl, inr, Bool, true, false, not, ◌&&◌, Bool-cases, Option, none,
  some, Option-cases, List, [], ◌∷◌, map, if◌then◌else◌, arith,
}
use tourney_api.Auth.Sessions.{
  Session, Store, Reason, impersonation_ended, parent_logout, logout_reason, is_impersonation,
  is_null, is_active, find_active, find_by_hash, find_reused, CreateParams, new_session, create,
  revoke_row, revoke_where, has_id, is_child_of, belongs_to, revoke, revoke_children,
  revoke_all_for_user, put_token, replace_token, reuse_row, revoke_reused, rotate, revoke_parent,
  logout, logout_by_refresh_token, sign_out_by_token, suspend_user, reactivate_user,
  start_impersonation, may_impersonate, safe_parent, exit_to, exit_impersonation, open_session,
  Call, sign_in, refresh, sign_out, suspend, reactivate, impersonate, exit, withdraw, set_role,
  revoke_invitation, change_role, may_change_role, find_user, is_super_admin, Role, call, calls,
  given,
}

-- The sessions of the kind that `which` tests are revoked.
abbrev pub AllRevoked : (Session → Bool) → List Session → Type 0
AllRevoked which [] = Unit
AllRevoked which (r ∷ rows) =
    (which r ≡ true → is_null r.revoked_at ≡ false) × AllRevoked which rows

-- What no call changes of a session, and that it does not come back.
abbrev pub Stays : (Session → Session) → Type 0
Stays f =
    (r : Session)
    → ((f r).id ≡ r.id)
      × ((f r).parent_session_id ≡ r.parent_session_id)
      × ((f r).user_id ≡ r.user_id)
      × ((f r).actor_user_id ≡ r.actor_user_id)
      × ((f r).kind ≡ r.kind)
      × ((f r).expires_at ≡ r.expires_at)
      × (is_null r.revoked_at ≡ false → is_null (f r).revoked_at ≡ false)

abbrev pub marked : (Session → Bool) → Reason → ℕ → Session → Session
marked which reason now r = if which r then revoke_row reason now r else r

pub marked-Stays :
    (which : Session → Bool) (reason : Reason) (now : ℕ) → Stays (marked which reason now)
unfolding revoke_row
marked-Stays which reason now r = ground arith

pub put_token-Stays : (id h : ℕ) → Stays (put_token id h)
unfolding put_token
put_token-Stays id h r = ground arith

pub reuse_row-Stays : (id now : ℕ) → Stays (reuse_row id now)
unfolding reuse_row
reuse_row-Stays id now r = ground arith

pub AllRevoked-map :
    (which : Session → Bool) (f : Session → Session) (rows : List Session)
    → ((r : Session) → which (f r) ≡ which r)
    → ((r : Session) → is_null r.revoked_at ≡ false → is_null (f r).revoked_at ≡ false)
    → AllRevoked which rows
    → AllRevoked which (map f rows)
AllRevoked-map which f [] same keeps h = tt
AllRevoked-map which f (r ∷ rows) same keeps h =
    (λ e. keeps r (h.0 (sym (same r) ∙ e)), AllRevoked-map which f rows same keeps h.1)

revoke_row_revoked :
    (reason : Reason) (now : ℕ) (r : Session) → is_null (revoke_row reason now r).revoked_at ≡ false
unfolding revoke_row
revoke_row_revoked reason now r = ground arith

marked_lem :
    (which : Session → Bool) (reason : Reason) (now : ℕ) (r : Session)
    → which (marked which reason now r) ≡ true
    → is_null (marked which reason now r).revoked_at ≡ false
marked_lem which reason now r e = elim (Bool-cases (which r)) [
  | inl named ↦ rw named (revoke_row_revoked reason now r)
  | inr other ↦
      let kept : marked which reason now r ≡ r = rw other refl in
      let clash = sym e ∙ ap which kept ∙ other in
      let no_row : ⊥ = ground (arith, clash) in elim no_row [ ]
]

-- After a revocation, what it names is revoked.
pub revoke_where-AllRevoked :
    (which : Session → Bool) (reason : Reason) (now : ℕ) (s : Store)
    → AllRevoked which (revoke_where which reason now s).rows
unfolding revoke_where
revoke_where-AllRevoked which reason now s = named s.rows
  where
    named : (rows : List Session) → AllRevoked which (map (marked which reason now) rows)
    named [] = tt
    named (r ∷ rows) = (marked_lem which reason now r, named rows)

pub find_active-AllRevoked :
    (id now : ℕ) (rows : List Session)
    → AllRevoked (has_id id) rows
    → find_active id now rows ≡ none
unfolding find_active is_active
find_active-AllRevoked id now [] h = refl
find_active-AllRevoked id now (r ∷ rows) h =
    ground (arith, h.0, find_active-AllRevoked id now rows h.1)

-- A session that exists and is revoked.
abbrev pub Gone : ℕ → Store → Type 0
Gone id s = (id < s.next_id) × AllRevoked (has_id id) s.rows

Gone-map :
    (id : ℕ) (f : Session → Session) (s : Store)
    → Stays f
    → Gone id s
    → Gone id (record s { rows = map f s.rows })
Gone-map id f s stays (old, h) =
    (old, AllRevoked-map (has_id id) f s.rows (λ r. rw ((stays r).0) refl) (λ r. (stays r).6) h)

Gone-create : (id : ℕ) (p : CreateParams) (s : Store) → Gone id s → Gone id (create p s)
unfolding create new_session
Gone-create id p s (old, h) =
    (omega arith, (λ e. let same : ⊥ = ground (arith, e, old) in elim same [ ], h))

pub Gone-revoke_where :
    (id : ℕ) (which : Session → Bool) (reason : Reason) (now : ℕ) (s : Store)
    → Gone id s
    → Gone id (revoke_where which reason now s)
unfolding revoke_where
Gone-revoke_where id which reason now s h =
    Gone-map id (marked which reason now) s (marked-Stays which reason now) h

Gone-replace_token : (id k h : ℕ) (s : Store) → Gone id s → Gone id (replace_token k h s)
unfolding replace_token
Gone-replace_token id k h s gone = Gone-map id (put_token k h) s (put_token-Stays k h) gone

Gone-revoke_reused :
    (id now : ℕ) (r : Session) (s : Store) → Gone id s → Gone id (revoke_reused now r s)
unfolding revoke_reused
Gone-revoke_reused id now r s gone =
    Gone-map id (reuse_row r.id now) s (reuse_row-Stays r.id now) gone

Gone-rotate :
    (hash : ℕ → ℕ) (id token fresh now : ℕ) (s : Store)
    → Gone id s
    → Gone id (rotate hash token fresh now s).0
unfolding rotate
Gone-rotate hash id token fresh now s gone =
    elim (Option-cases (find_by_hash (hash token) s.rows)) [
      | inl e ↦ elim (Option-cases (find_reused (hash token) s.rows)) [
        | inl f ↦ rw (rotate, e, f) gone
        | inr (r, f) ↦ rw (rotate, e, f) (Gone-revoke_reused id now r s gone)
      ]
      | inr (r, e) ↦ elim (Bool-cases (is_active now r)) [
        | inl live ↦ rw (rotate, e, live) (Gone-replace_token id r.id (hash fresh) s gone)
        | inr dead ↦ rw (rotate, e, dead) gone
      ]
    ]

pub Gone-revoke_parent :
    (id : ℕ) (found : Option Session) (now : ℕ) (s : Store)
    → Gone id s
    → Gone id (revoke_parent found now s)
unfolding revoke_parent revoke
Gone-revoke_parent id none now s gone = gone
Gone-revoke_parent id (some r) now s gone = elim (Bool-cases (is_impersonation r.kind)) [
  | inr own ↦ rw own gone
  | inl borrowed ↦ elim (Option-cases r.parent_session_id) [
    | inl e ↦ rw (borrowed, e) gone
    | inr (p, e) ↦ rw (borrowed, e) (Gone-revoke_where id (has_id p) logout_reason now s gone)
  ]
]

pub Gone-logout : (id k now : ℕ) (s : Store) → Gone id s → Gone id (logout k now s)
unfolding logout revoke revoke_children
Gone-logout id k now s gone =
    let s' = revoke_parent (find_active k now s.rows) now s in
    Gone-revoke_where id (has_id k) logout_reason now
      (revoke_where (is_child_of k) parent_logout now s')
      (Gone-revoke_where id (is_child_of k) parent_logout now s'
        (Gone-revoke_parent id (find_active k now s.rows) now s gone))

Gone-logout_by_refresh_token :
    (hash : ℕ → ℕ) (id token now : ℕ) (s : Store)
    → Gone id s
    → Gone id (logout_by_refresh_token hash token now s)
unfolding logout_by_refresh_token
Gone-logout_by_refresh_token hash id token now s gone =
    elim (Option-cases (find_by_hash (hash token) s.rows)) [
      | inl e ↦ rw (logout_by_refresh_token, e) gone
      | inr (r, e) ↦ rw (logout_by_refresh_token, e) (Gone-logout id r.id now s gone)
    ]

Gone-suspend_user :
    (id user : ℕ) (reason : Reason) (now : ℕ) (s : Store)
    → Gone id s
    → Gone id (suspend_user user reason now s)
unfolding suspend_user revoke_all_for_user
Gone-suspend_user id user reason now s gone =
    Gone-revoke_where id (belongs_to user) reason now _ gone

Gone-revoke_invitation :
    (id : ℕ) (user : Option ℕ) (reason : Reason) (now : ℕ) (s : Store)
    → Gone id s
    → Gone id (revoke_invitation user reason now s)
unfolding revoke_invitation revoke_all_for_user
Gone-revoke_invitation id none reason now s gone = gone
Gone-revoke_invitation id (some user) reason now s gone =
    Gone-revoke_where id (belongs_to user) reason now s gone

Gone-change_role :
    (id target : ℕ) (role : Role) (now : ℕ) (s : Store)
    → Gone id s
    → Gone id (change_role target role now s)
unfolding change_role revoke_all_for_user
Gone-change_role id target role now s gone = elim (Option-cases (find_user target s.users)) [
  | inl e ↦ rw (change_role, e) gone
  | inr (u, e) ↦ elim (Bool-cases (may_change_role u role s)) [
    | inr refused ↦ rw (change_role, e, refused) gone
    | inl allowed ↦ elim (Bool-cases (is_super_admin u.role && not (is_super_admin role))) [
      | inr kept ↦ rw (change_role, e, allowed, kept) gone
      | inl demoted ↦
          rw (change_role, e, allowed, demoted)
            (Gone-revoke_where id (belongs_to target) (given "role_changed") now _ gone)
    ]
  ]
]

Gone-start_impersonation :
    (id caller target h now : ℕ) (s : Store)
    → Gone id s
    → Gone id (start_impersonation caller target h now s).0
unfolding start_impersonation
Gone-start_impersonation id caller target h now s gone =
    elim (Option-cases (find_active caller now s.rows)) [
      | inl e ↦ rw (start_impersonation, e) gone
      | inr (c, e) ↦ elim (Bool-cases (may_impersonate c target now s)) [
        | inl may ↦ rw (start_impersonation, e, may) (Gone-create id _ s gone)
        | inr denied ↦ rw (start_impersonation, e, denied) gone
      ]
    ]

Gone-exit_to :
    (id k parent h now : ℕ) (s : Store) → Gone id s → Gone id (exit_to k parent h now s).0
unfolding exit_to revoke
Gone-exit_to id k parent h now s gone =
    let gone' = Gone-revoke_where id (has_id k) impersonation_ended now s gone in
    elim (Option-cases (safe_parent parent now s)) [
      | inl e ↦ rw (exit_to, exit_to, e) gone'
      | inr (p, e) ↦ rw (exit_to, exit_to, e) (Gone-replace_token id p.id h _ gone')
    ]

Gone-exit_impersonation :
    (id k h now : ℕ) (s : Store) → Gone id s → Gone id (exit_impersonation k h now s).0
unfolding exit_impersonation
Gone-exit_impersonation id k h now s gone = elim (Option-cases (find_active k now s.rows)) [
  | inl e ↦ rw (exit_impersonation, exit_impersonation, e) gone
  | inr (c, e) ↦ elim (Bool-cases (is_impersonation c.kind)) [
    | inr own ↦ rw (exit_impersonation, e, own) gone
    | inl borrowed ↦ elim (Option-cases c.parent_session_id) [
      | inl f ↦ rw (exit_impersonation, e, borrowed, f) gone
      | inr (p, f) ↦ rw (exit_impersonation, e, borrowed, f) (Gone-exit_to id c.id p h now s gone)
    ]
  ]
]

module _ (hash : ℕ → ℕ) where
  Gone-call : (id : ℕ) (c : Call) (now : ℕ) (s : Store) → Gone id s → Gone id (call hash c now s)
  unfolding call open_session reactivate_user
  Gone-call id (sign_in user h expires) now s gone = Gone-create id _ s gone
  Gone-call id (refresh token fresh) now s gone = Gone-rotate hash id token fresh now s gone
  Gone-call id (sign_out k) now s gone = Gone-logout id k now s gone
  Gone-call id (sign_out_by_token token) now s gone =
      Gone-logout_by_refresh_token hash id token now s gone
  Gone-call id (suspend user reason) now s gone = Gone-suspend_user id user reason now s gone
  Gone-call id (reactivate user) now s gone = gone
  Gone-call id (impersonate caller target h) now s gone =
      Gone-start_impersonation id caller target h now s gone
  Gone-call id (exit k h) now s gone = Gone-exit_impersonation id k h now s gone
  Gone-call id (withdraw user reason) now s gone = Gone-revoke_invitation id user reason now s gone
  Gone-call id (set_role user role) now s gone = Gone-change_role id user role now s gone

  Gone-calls : (id : ℕ) (cs : List (Call × ℕ)) (s : Store) → Gone id s → Gone id (calls hash cs s)
  unfolding calls
  Gone-calls id [] s gone = gone
  Gone-calls id (c ∷ cs) s gone =
      Gone-calls id cs (call hash c.0 c.1 s) (Gone-call id c.0 c.1 s gone)

  -- A session that is revoked is never active again, whatever calls follow at whatever times: a
  -- reactivation of its user, a refresh with any of its tokens and an exit to it included.
  pub find_active-calls :
      (id later : ℕ) (cs : List (Call × ℕ)) (s : Store)
      → id < s.next_id
      → AllRevoked (has_id id) s.rows
      → find_active id later (calls hash cs s).rows ≡ none
  find_active-calls id later cs s old revoked =
      find_active-AllRevoked id later (calls hash cs s).rows (Gone-calls id cs s (old, revoked)).1
