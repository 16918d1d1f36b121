-- ===== src/Auth/Sessions/Borrowed.antt =====
-- internal/auth/impersonation.go: how many impersonations an administrator has open.
use tourney_api.Prelude.{
  ℕ, suc, ◌≡◌, ◌≤◌, refl, ap, ◌∙◌, inl, inr, Bool, true, false, Bool-cases, ◌&&◌, Option, some,
  Option-cases, List, [], ◌∷◌, map, if◌then◌else◌, arith, none, not,
}
use mathlib.Core.Path.{subst}
use mathlib.Core.List.{map-id}
use tourney_api.Prelude.Decide.{ℕ-cases}
use tourney_api.Draw.Tables.{uuid_ptr_eq}
use tourney_api.Auth.Sessions.{
  Session, Store, Reason, impersonation_ended, parent_logout, logout_reason, is_impersonation,
  is_active, find_active, find_by_hash, find_reused, CreateParams, new_session, create,
  revoke_where, has_id, is_child_of, belongs_to, revoke, revoke_all_for_user, put_token,
  replace_token, reuse_row, revoke_reused, rotate, revoke_parent, logout, logout_by_refresh_token,
  sign_out_by_token, suspend_user, reactivate_user, impersonates, start_impersonation,
  may_impersonate, safe_parent, exit_to, exit_impersonation, open_session, Call, sign_in, refresh,
  sign_out, suspend, reactivate, impersonate, exit, withdraw, set_role, revoke_invitation,
  change_role, may_change_role, find_user, is_super_admin, Role, given, call, calls,
}
use tourney_api.Auth.Sessions.Ended.{after_parent, after_children, logout_lem, parent-cases}
use tourney_api.Auth.Sessions.Revoked.{
  Stays, marked, marked-Stays, put_token-Stays, reuse_row-Stays,
}

abbrev pub borrows : ℕ → ℕ → Session → Bool
borrows actor now r =
    uuid_ptr_eq r.actor_user_id (some actor) && (is_impersonation r.kind && is_active now r)

-- The impersonations of the actor that are live at a time.
abbrev pub borrowed : ℕ → ℕ → List Session → ℕ
borrowed actor now [] = 0
borrowed actor now (r ∷ rows) =
    if borrows actor now r then suc (borrowed actor now rows) else borrowed actor now rows

borrows-Stays :
    (actor now now' : ℕ) (f : Session → Session) (r : Session)
    → Stays f
    → now ≤ now'
    → borrows actor now' (f r) ≡ true
    → borrows actor now r ≡ true
unfolding is_active
borrows-Stays actor now now' f r stays le h =
    let (a, b, c, d, e, g, k) = stays r in ground (arith, h, d, e, g, k, le)

borrowed-map :
    (actor now now' : ℕ) (f : Session → Session) (rows : List Session)
    → Stays f
    → now ≤ now'
    → borrowed actor now' (map f rows) ≤ borrowed actor now rows
borrowed-map actor now now' f [] stays le = omega arith
borrowed-map actor now now' f (r ∷ rows) stays le =
    let rest = borrowed-map actor now now' f rows stays le in
    elim (Bool-cases (borrows actor now' (f r))) [
      | inl after ↦
          rw (after, borrows-Stays actor now now' f r stays le after) (omega (arith, rest))
      | inr none_after ↦ elim (Bool-cases (borrows actor now r)) [
        | inl before ↦ rw (none_after, before) (omega (arith, rest))
        | inr none_before ↦ rw (none_after, none_before) rest
      ]
    ]

-- No actor has more of them in the later store.
abbrev Calm : Store → Store → Type 0
Calm s s' =
    (actor now now' : ℕ) → now ≤ now' → borrowed actor now' s'.rows ≤ borrowed actor now s.rows

Calm-map : (f : Session → Session) (s : Store) → Stays f → Calm s (record s { rows = map f s.rows })
Calm-map f s stays actor now now' le = borrowed-map actor now now' f s.rows stays le

Calm-self : (s : Store) → Calm s s
Calm-self s actor now now' le =
    subst (λ rows. borrowed actor now' rows ≤ borrowed actor now s.rows) (map-id s.rows)
      (borrowed-map actor now now' (λ r. r) s.rows
        (λ r. (refl, refl, refl, refl, refl, refl, λ h. h)) le)

Calm-both : (s s' s'' : Store) → Calm s s' → Calm s' s'' → Calm s s''
Calm-both s s' s'' a b actor now now' le =
    omega (arith, a actor now now (omega arith), b actor now now' le)

Calm-revoke_where :
    (which : Session → Bool) (reason : Reason) (now : ℕ) (s : Store)
    → Calm s (revoke_where which reason now s)
unfolding revoke_where
Calm-revoke_where which reason now s =
    Calm-map (marked which reason now) s (marked-Stays which reason now)

Calm-replace_token : (k h : ℕ) (s : Store) → Calm s (replace_token k h s)
unfolding replace_token
Calm-replace_token k h s = Calm-map (put_token k h) s (put_token-Stays k h)

Calm-rotate :
    (hash : ℕ → ℕ) (token fresh now : ℕ) (s : Store) → Calm s (rotate hash token fresh now s).0
unfolding rotate revoke_reused
Calm-rotate hash token fresh now s = elim (Option-cases (find_by_hash (hash token) s.rows)) [
  | inl e ↦ elim (Option-cases (find_reused (hash token) s.rows)) [
    | inl f ↦ rw (rotate, e, f) (Calm-self s)
    | inr (r, f) ↦ rw (rotate, e, f) (Calm-map (reuse_row r.id now) s (reuse_row-Stays r.id now))
  ]
  | inr (r, e) ↦ elim (Bool-cases (is_active now r)) [
    | inl live ↦ rw (rotate, e, live) (Calm-replace_token r.id (hash fresh) s)
    | inr dead ↦ rw (rotate, e, dead) (Calm-self s)
  ]
]

Calm-logout : (k now : ℕ) (s : Store) → Calm s (logout k now s)
unfolding after_parent after_children
Calm-logout k now s =
    let s' = after_parent k now s in
    let s'' = after_children k now s in
    rw (logout_lem k now s) (
      Calm-both s s'' (revoke_where (has_id k) logout_reason now s'')
        (Calm-both s s' s'' (parent (find_active k now s.rows))
          (Calm-revoke_where (is_child_of k) parent_logout now s'))
        (Calm-revoke_where (has_id k) logout_reason now s''))
  where
    parent : (found : Option Session) → Calm s (revoke_parent found now s)
    parent found = elim (parent-cases k now s found) [
      | inl e ↦ rw e (Calm-self s)
      | inr (p, e) ↦ rw e (Calm-revoke_where (has_id p) logout_reason now s)
    ]

Calm-logout_by_refresh_token :
    (hash : ℕ → ℕ) (token now : ℕ) (s : Store) → Calm s (logout_by_refresh_token hash token now s)
unfolding logout_by_refresh_token
Calm-logout_by_refresh_token hash token now s =
    elim (Option-cases (find_by_hash (hash token) s.rows)) [
      | inl e ↦ rw (logout_by_refresh_token, e) (Calm-self s)
      | inr (r, e) ↦ rw (logout_by_refresh_token, e) (Calm-logout r.id now s)
    ]

Calm-open_session : (user h expires : ℕ) (s : Store) → Calm s (open_session user h expires s)
unfolding open_session create new_session
Calm-open_session user h expires s actor now now' le = Calm-self s actor now now' le

Calm-exit_to : (k parent h now : ℕ) (s : Store) → Calm s (exit_to k parent h now s).0
unfolding exit_to revoke
Calm-exit_to k parent h now s =
    let s' = revoke_where (has_id k) impersonation_ended now s in
    let calm = Calm-revoke_where (has_id k) impersonation_ended now s in
    elim (Option-cases (safe_parent parent now s)) [
      | inl e ↦ rw (exit_to, e) calm
      | inr (p, e) ↦
          rw (exit_to, e)
            (Calm-both s s' (replace_token p.id h s') calm (Calm-replace_token p.id h s'))
    ]

Calm-exit_impersonation : (k h now : ℕ) (s : Store) → Calm s (exit_impersonation k h now s).0
unfolding exit_impersonation
Calm-exit_impersonation k h now s = elim (Option-cases (find_active k now s.rows)) [
  | inl e ↦ rw (exit_impersonation, e) (Calm-self s)
  | inr (c, e) ↦ elim (Bool-cases (is_impersonation c.kind)) [
    | inr own ↦ rw (exit_impersonation, e, own) (Calm-self s)
    | inl taken ↦ elim (Option-cases c.parent_session_id) [
      | inl f ↦ rw (exit_impersonation, e, taken, f) (Calm-self s)
      | inr (p, f) ↦ rw (exit_impersonation, e, taken, f) (Calm-exit_to c.id p h now s)
    ]
  ]
]

borrowed-impersonates :
    (actor now : ℕ) (rows : List Session)
    → impersonates actor now rows ≡ false
    → borrowed actor now rows ≡ 0
unfolding impersonates
borrowed-impersonates actor now [] h = refl
borrowed-impersonates actor now (r ∷ rows) h =
    ground (arith, h, borrowed-impersonates actor now rows)

may_impersonate-free :
    (c : Session) (target now : ℕ) (s : Store)
    → may_impersonate c target now s ≡ true
    → impersonates c.user_id now s.rows ≡ false
unfolding may_impersonate
may_impersonate-free c target now s h = ground (arith, h)

-- A new impersonation counts for the administrator that asked for it, who had none.
borrowed-create :
    (actor t now : ℕ) (s : Store) (p : CreateParams) (caller : ℕ)
    → p.actor_user_id ≡ some caller
    → t ≤ now
    → borrowed caller now s.rows ≡ 0
    → borrowed actor t s.rows ≤ 1
    → borrowed actor now (create p s).rows ≤ 1
unfolding create new_session
borrowed-create actor t now s p caller e le free one = elim (ℕ-cases actor caller) [
  | inl same ↦
      let none_yet : borrowed actor now s.rows ≡ 0 = ap (λ a. borrowed a now s.rows) same ∙ free in
      ground (arith, none_yet)
  | inr ne ↦ let rest = Calm-self s actor t now le in ground (arith, rest, one, e, ne)
]

Calm-Bounded :
    (actor t now : ℕ) (s s' : Store)
    → Calm s s'
    → t ≤ now
    → borrowed actor t s.rows ≤ 1
    → borrowed actor now s'.rows ≤ 1
Calm-Bounded actor t now s s' calm le one = omega (arith, calm actor t now le, one)

borrowed-start_impersonation :
    (actor t caller target h now : ℕ) (s : Store)
    → t ≤ now
    → borrowed actor t s.rows ≤ 1
    → borrowed actor now (start_impersonation caller target h now s).0.rows ≤ 1
unfolding start_impersonation
borrowed-start_impersonation actor t caller target h now s le one =
    let unchanged = Calm-Bounded actor t now s s (Calm-self s) le one in
    elim (Option-cases (find_active caller now s.rows)) [
      | inl e ↦ rw (start_impersonation, e) unchanged
      | inr (c, e) ↦ elim (Bool-cases (may_impersonate c target now s)) [
        | inl may ↦
            rw (start_impersonation, e, may)
              (borrowed-create actor t now s _ c.user_id refl le
                (borrowed-impersonates c.user_id now s.rows
                  (may_impersonate-free c target now s may))
                one)
        | inr denied ↦ rw (start_impersonation, e, denied) unchanged
      ]
    ]

-- Calls in the order of their times, from the one time to the other.
abbrev pub InOrder : ℕ → List (Call × ℕ) → ℕ → Type 0
InOrder t [] later = t ≤ later
InOrder t (c ∷ cs) later = (t ≤ c.1) × InOrder c.1 cs later

borrowed-change_role :
    (actor t target : ℕ) (role : Role) (now : ℕ) (s : Store)
    → t ≤ now
    → borrowed actor t s.rows ≤ 1
    → borrowed actor now (change_role target role now s).rows ≤ 1
unfolding change_role revoke_all_for_user revoke_where
borrowed-change_role actor t target role now s le one =
    let same = Calm-Bounded actor t now s s (Calm-self s) le one in
    elim (Option-cases (find_user target s.users)) [
      | inl e ↦ rw (change_role, e) same
      | inr (u, e) ↦ elim (Bool-cases (may_change_role u role s)) [
        | inr refused ↦ rw (change_role, e, refused) same
        | inl allowed ↦ elim (Bool-cases (is_super_admin u.role && not (is_super_admin role))) [
          | inr kept ↦ rw (change_role, e, allowed, kept) same
          | inl demoted ↦
              rw (change_role, e, allowed, demoted)
                (Calm-Bounded actor t now s
                  (revoke_all_for_user target (given "role_changed") now s)
                  (Calm-revoke_where (belongs_to target) (given "role_changed") now s) le one)
        ]
      ]
    ]

module _ (hash : ℕ → ℕ) where
  borrowed-call :
      (actor t now : ℕ) (c : Call) (s : Store)
      → t ≤ now
      → borrowed actor t s.rows ≤ 1
      → borrowed actor now (call hash c now s).rows ≤ 1
  unfolding call suspend_user revoke_invitation revoke_all_for_user reactivate_user revoke_where
  borrowed-call actor t now (sign_in user h expires) s le one =
      Calm-Bounded actor t now s (open_session user h expires s)
        (Calm-open_session user h expires s) le one
  borrowed-call actor t now (refresh token fresh) s le one =
      Calm-Bounded actor t now s (rotate hash token fresh now s).0
        (Calm-rotate hash token fresh now s) le one
  borrowed-call actor t now (sign_out k) s le one =
      Calm-Bounded actor t now s (logout k now s) (Calm-logout k now s) le one
  borrowed-call actor t now (sign_out_by_token token) s le one =
      Calm-Bounded actor t now s (logout_by_refresh_token hash token now s)
        (Calm-logout_by_refresh_token hash token now s) le one
  borrowed-call actor t now (suspend user reason) s le one =
      Calm-Bounded actor t now s (suspend_user user reason now s)
        (Calm-revoke_where (belongs_to user) reason now s) le one
  borrowed-call actor t now (reactivate user) s le one =
      Calm-Bounded actor t now s s (Calm-self s) le one
  borrowed-call actor t now (impersonate caller target h) s le one =
      borrowed-start_impersonation actor t caller target h now s le one
  borrowed-call actor t now (withdraw none reason) s le one =
      Calm-Bounded actor t now s s (Calm-self s) le one
  borrowed-call actor t now (withdraw (some user) reason) s le one =
      Calm-Bounded actor t now s (revoke_all_for_user user reason now s)
        (Calm-revoke_where (belongs_to user) reason now s) le one
  borrowed-call actor t now (set_role user role) s le one =
      borrowed-change_role actor t user role now s le one
  borrowed-call actor t now (exit k h) s le one =
      Calm-Bounded actor t now s (exit_impersonation k h now s).0
        (Calm-exit_impersonation k h now s) le one

  -- An administrator has at most one live impersonation at any time, whatever calls were made one
  -- after the other, each finished before the next began, in the order of their times, from a store
  -- in which it was so. It says nothing of calls that overlap.
  pub borrowed-calls :
      (actor t later : ℕ) (cs : List (Call × ℕ)) (s : Store)
      → InOrder t cs later
      → borrowed actor t s.rows ≤ 1
      → borrowed actor later (calls hash cs s).rows ≤ 1
  unfolding calls
  borrowed-calls actor t later [] s le one = Calm-Bounded actor t later s s (Calm-self s) le one
  borrowed-calls actor t later (c ∷ cs) s (le, order) one =
      borrowed-calls actor c.1 later cs (call hash c.0 c.1 s) order
        (borrowed-call actor t c.1 c.0 s le one)
