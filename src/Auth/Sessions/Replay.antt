-- ===== src/Auth/Sessions/Replay.antt =====
-- internal/auth/session.go: a refresh token that is presented again.
use tourney_api.Prelude.{
  ℕ, ◌≡◌, ◌≢◌, refl, ap, ◌∙◌, inl, inr, Bool, true, false, Bool-cases, ◌&&◌, none, some, List, [],
  ◌∷◌, map, ◌==◌, arith,
}
use mathlib.Core.Path.{subst}
use tourney_api.Draw.Tables.{uuid_ptr_eq}
use tourney_api.Auth.Sessions.{
  Session, Store, is_null, is_active, find_by_hash, find_reused, has_id, put_token, replace_token,
  reuse_row, revoke_reused, rotated, refresh_reused, rotate,
}
use tourney_api.Auth.Sessions.Revoked.{AllRevoked}
use tourney_api.Auth.Sessions.Ended.{Implied}

-- A row with the digest as its current one, and a row that was rotated away from it.
abbrev pub holds : ℕ → Session → Bool
holds h r = r.refresh_token_hash == h

abbrev pub held : ℕ → Session → Bool
held h r = uuid_ptr_eq r.previous_refresh_token_hash (some h)

module _ (h fresh id : ℕ) (other : fresh ≢ h) where
  no_holder :
      (rows : List Session)
      → Implied (holds h) (has_id id) rows
      → find_by_hash h (map (put_token id fresh) rows) ≡ none
  unfolding find_by_hash put_token
  no_holder [] sole = refl
  no_holder (r ∷ rows) sole = ground (arith, sole.0, no_holder rows sole.1)

  put_held :
      (r : Session)
      → r.id ≡ id
      → r.refresh_token_hash ≡ h
      → is_null r.revoked_at ≡ true
      → (held h (put_token id fresh r) && is_null (put_token id fresh r).revoked_at) ≡ true
  unfolding put_token
  put_held r e f live = ground (arith, e, f, live)

  put_not_held :
      (r : Session)
      → r.refresh_token_hash ≢ h
      → (held h r ≡ true → has_id id r ≡ true)
      → (held h (put_token id fresh r) && is_null (put_token id fresh r).revoked_at) ≡ false
  unfolding put_token
  put_not_held r ne was = ground (arith, ne, was)

  put_token-id : (r : Session) → (put_token id fresh r).id ≡ r.id
  unfolding put_token
  put_token-id r = ground arith

  finds_reused :
      (rows : List Session) (r : Session)
      → find_by_hash h rows ≡ some r
      → r.id ≡ id
      → is_null r.revoked_at ≡ true
      → Implied (held h) (has_id id) rows
      → (q : Session) × (find_reused h (map (put_token id fresh) rows) ≡ some q) × (q.id ≡ id)
  unfolding find_by_hash find_reused
  finds_reused [] r found e live past = let no_row : ⊥ = ground (arith, found) in elim no_row [ ]
  finds_reused (x ∷ rows) r found e live past = elim (Bool-cases (x.refresh_token_hash == h)) [
    | inl here ↦
        let same : x ≡ r = ground (arith, found, here) in
        let x_id : x.id ≡ id = ap (λ y. y.id) same ∙ e in
        (
          put_token id fresh x,
          rw (put_held x x_id (ground (arith, here)) (ap (λ y. is_null y.revoked_at) same ∙ live))
              refl,
          put_token-id x ∙ x_id,
        )
    | inr elsewhere ↦
        let (q, later, f) = finds_reused rows r (ground (arith, found, elsewhere)) e live past.1 in
        (q, rw (put_not_held x (λ y. ground (arith, y, elsewhere)) past.0) later, f)
  ]

reuse_row-AllRevoked :
    (id now : ℕ) (rows : List Session) → AllRevoked (has_id id) (map (reuse_row id now) rows)
unfolding reuse_row
reuse_row-AllRevoked id now [] = tt
reuse_row-AllRevoked id now (r ∷ rows) = (λ e. ground (arith, e), reuse_row-AllRevoked id now rows)

rotate-reused :
    (hash : ℕ → ℕ) (token fresh now : ℕ) (s : Store) (q : Session)
    → find_by_hash (hash token) s.rows ≡ none
    → find_reused (hash token) s.rows ≡ some q
    → ((rotate hash token fresh now s).1 ≡ refresh_reused)
      × AllRevoked (has_id q.id) (rotate hash token fresh now s).0.rows
unfolding rotate revoke_reused
rotate-reused hash token fresh now s q gone found =
    rw (rotate, gone, found) (refl, reuse_row-AllRevoked q.id now s.rows)

module _ (hash : ℕ → ℕ) (token fresh now : ℕ) (s s' : Store) (r : Session) where
  rotate-rotated :
      rotate hash token fresh now s ≡ (s', rotated r fresh)
      → (find_by_hash (hash token) s.rows ≡ some r)
        × (is_active now r ≡ true)
        × (s' ≡ replace_token r.id (hash fresh) s)
  unfolding rotate
  rotate-rotated h = ground (arith, h)

  active_live : is_active now r ≡ true → is_null r.revoked_at ≡ true
  unfolding is_active
  active_live a = ground (arith, a)

  -- A refresh token that is presented again right after it was exchanged for another, before any other
  -- call, is told apart as a replay, and the session is revoked. Here no other session holds the
  -- token's digest or was rotated away from it, and the digest of the new token differs.
  pub rotate_replay :
      (fresh' later : ℕ)
      → hash fresh ≢ hash token
      → Implied (holds (hash token)) (has_id r.id) s.rows
      → Implied (held (hash token)) (has_id r.id) s.rows
      → rotate hash token fresh now s ≡ (s', rotated r fresh)
      → ((rotate hash token fresh' later s').1 ≡ refresh_reused)
        × AllRevoked (has_id r.id) (rotate hash token fresh' later s').0.rows
  unfolding replace_token
  rotate_replay fresh' later other sole past h =
      let (found, live, e) = rotate-rotated h in
      let (q, reused, same) =
        finds_reused (hash token) (hash fresh) r.id other s.rows r found refl (active_live live)
          past in
      let (replay, ends) =
        rotate-reused hash token fresh' later (replace_token r.id (hash fresh) s) q
          (no_holder (hash token) (hash fresh) r.id other s.rows sole) reused in
      rw e (
        replay,
        subst
            (λ id.
              AllRevoked (has_id id)
                (rotate hash token fresh' later (replace_token r.id (hash fresh) s)).0.rows)
            same ends,
      )
