-- ===== src/Auth/Sessions/Ended.antt =====
-- internal/auth/service.go: what a sign-out ends.
use tourney_api.Prelude.{
  ℕ, ◌≡◌, ◌<◌, ◌⊎◌, refl, sym, ap, ◌∙◌, inl, inr, Bool, true, Bool-cases, Option, none, some,
  Option-cases, List, [], ◌∷◌, map, ◌==◌,
}
use tourney_api.Draw.Tables.{uuid_ptr_eq}
use tourney_api.Auth.Sessions.{
  Session, Store, Reason, parent_logout, logout_reason, impersonation, is_impersonation,
  find_active, revoke_where, has_id, is_child_of, revoke, revoke_children, revoke_parent, logout,
  Call, calls,
}
use tourney_api.Auth.Sessions.Revoked.{
  AllRevoked, Stays, marked, marked-Stays, AllRevoked-map, revoke_where-AllRevoked,
  find_active-calls,
}

-- Each session that the one test names is one that the other names.
abbrev pub Implied : (Session → Bool) → (Session → Bool) → List Session → Type 0
Implied which which' [] = Unit
Implied which which' (r ∷ rows) = (which r ≡ true → which' r ≡ true) × Implied which which' rows

Implied-AllRevoked :
    (which which' : Session → Bool) (rows : List Session)
    → Implied which which' rows
    → AllRevoked which' rows
    → AllRevoked which rows
Implied-AllRevoked which which' [] i h = tt
Implied-AllRevoked which which' (r ∷ rows) i h =
    (λ e. h.0 (i.0 e), Implied-AllRevoked which which' rows i.1 h.1)

-- A test that no call changes.
abbrev Fixed : (Session → Bool) → Type 0
Fixed which = (f : Session → Session) → Stays f → (r : Session) → which (f r) ≡ which r

has_id-Fixed : (id : ℕ) → Fixed (has_id id)
has_id-Fixed id f stays r = ap (λ x. x == id) (stays r).0

is_child_of-Fixed : (id : ℕ) → Fixed (is_child_of id)
is_child_of-Fixed id f stays r = ap (λ x. uuid_ptr_eq x (some id)) (stays r).1

Implied-map :
    (which which' : Session → Bool) (f : Session → Session) (rows : List Session)
    → Fixed which
    → Fixed which'
    → Stays f
    → Implied which which' rows
    → Implied which which' (map f rows)
Implied-map which which' f [] k k' stays i = tt
Implied-map which which' f (r ∷ rows) k k' stays i = (
  λ e. k' f stays r ∙ i.0 (sym (k f stays r) ∙ e),
  Implied-map which which' f rows k k' stays i.1,
)

module _ (which : Session → Bool) (by : Session → Bool) (reason : Reason) (now : ℕ)
    (s : Store) where
  revoke_where-keeps :
      Fixed which → AllRevoked which s.rows → AllRevoked which (revoke_where by reason now s).rows
  unfolding revoke_where
  revoke_where-keeps k h =
      let stays = marked-Stays by reason now in
      AllRevoked-map which (marked by reason now) s.rows (k (marked by reason now) stays)
        (λ r. (stays r).6) h

  revoke_where-Implied :
      (which' : Session → Bool)
      → Fixed which
      → Fixed which'
      → Implied which which' s.rows
      → Implied which which' (revoke_where by reason now s).rows
  unfolding revoke_where
  revoke_where-Implied which' k k' i =
      Implied-map which which' (marked by reason now) s.rows k k' (marked-Stays by reason now) i

  revoke_where-next_id : (revoke_where by reason now s).next_id ≡ s.next_id
  unfolding revoke_where
  revoke_where-next_id = refl

module _ (id now : ℕ) (s : Store) where
  unfoldable pub after_parent : Store
  after_parent = revoke_parent (find_active id now s.rows) now s

  unfoldable pub after_children : Store
  after_children = revoke_where (is_child_of id) parent_logout now after_parent

  pub logout_lem : logout id now s ≡ revoke_where (has_id id) logout_reason now after_children
  unfolding logout revoke revoke_children after_children after_parent
  logout_lem = refl

  pub parent-cases :
      (found : Option Session)
      → (revoke_parent found now s ≡ s)
        ⊎ ((p : ℕ) × (revoke_parent found now s ≡ revoke_where (has_id p) logout_reason now s))
  unfolding revoke_parent revoke
  parent-cases none = inl refl
  parent-cases (some r) = elim (Bool-cases (is_impersonation r.kind)) [
    | inr own ↦ inl (rw own refl)
    | inl borrowed ↦ elim (Option-cases r.parent_session_id) [
      | inl e ↦ inl (rw (borrowed, e) refl)
      | inr (p, e) ↦ inr (p, rw (borrowed, e) refl)
    ]
  ]

  parent_revoked :
      (r : Session) (p : ℕ)
      → find_active id now s.rows ≡ some r
      → r.kind ≡ impersonation
      → r.parent_session_id ≡ some p
      → AllRevoked (has_id p) after_parent.rows
  unfolding after_parent revoke_parent revoke
  parent_revoked r p e k f = rw (e, k, f) (revoke_where-AllRevoked (has_id p) logout_reason now s)

  -- The sessions that a sign-out of `id` ends.
  abbrev pub Ends : ℕ → Type 0
  Ends k =
      (k ≡ id)
      ⊎ Implied (has_id k) (is_child_of id) s.rows
      ⊎ ((r : Session) × (find_active id now s.rows ≡ some r)
          × (r.kind ≡ impersonation)
          × (r.parent_session_id ≡ some k))

  children_kept :
      (k : ℕ)
      → Implied (has_id k) (is_child_of id) s.rows
      → Implied (has_id k) (is_child_of id) after_parent.rows
  unfolding after_parent
  children_kept k i = elim (parent-cases (find_active id now s.rows)) [
    | inl e ↦ rw e i
    | inr (p, e) ↦ rw e (
        revoke_where-Implied (has_id k) (has_id p) logout_reason now s (is_child_of id)
          (has_id-Fixed k) (is_child_of-Fixed id) i)
  ]

  child_revoked :
      (k : ℕ)
      → Implied (has_id k) (is_child_of id) s.rows
      → AllRevoked (has_id k) after_children.rows
  unfolding after_children
  child_revoked k i =
      Implied-AllRevoked (has_id k) (is_child_of id) _
        (revoke_where-Implied (has_id k) (is_child_of id) parent_logout now after_parent
          (is_child_of id) (has_id-Fixed k) (is_child_of-Fixed id) (children_kept k i))
        (revoke_where-AllRevoked (is_child_of id) parent_logout now after_parent)

  kept_to_end :
      (k : ℕ)
      → AllRevoked (has_id k) after_children.rows
      → AllRevoked (has_id k) (logout id now s).rows
  kept_to_end k h = rw logout_lem (
      revoke_where-keeps (has_id k) (has_id id) logout_reason now after_children (has_id-Fixed k) h)

  ended : (k : ℕ) → Ends k → AllRevoked (has_id k) (logout id now s).rows
  unfolding after_children
  ended k (inl e) =
      rw (logout_lem, e) (revoke_where-AllRevoked (has_id id) logout_reason now after_children)
  ended k (inr (inl child)) = kept_to_end k (child_revoked k child)
  ended k (inr (inr (r, e, borrowed, f))) = kept_to_end k (
      revoke_where-keeps (has_id k) (is_child_of id) parent_logout now after_parent (has_id-Fixed k)
        (parent_revoked r k e borrowed f))

  logout-next_id : (logout id now s).next_id ≡ s.next_id
  unfolding logout revoke revoke_children revoke_where after_parent
  logout-next_id = elim (parent-cases (find_active id now s.rows)) [
    | inl e ↦ ap (λ x. x.next_id) e
    | inr (p, e) ↦ ap (λ x. x.next_id) e
  ]

  -- A sign-out ends the session, the impersonations that were started from it and, if it is a live
  -- impersonation itself, the session that it was started from: none of them is active at any later
  -- time, whatever calls follow.
  pub logout-Ends :
      (hash : ℕ → ℕ) (k later : ℕ) (cs : List (Call × ℕ))
      → k < s.next_id
      → Ends k
      → find_active k later (calls hash cs (logout id now s)).rows ≡ none
  logout-Ends hash k later cs old ends =
      find_active-calls hash k later cs (logout id now s) (rw logout-next_id old) (ended k ends)
