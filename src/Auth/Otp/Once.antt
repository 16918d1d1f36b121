-- ===== src/Auth/Otp/Once.antt =====
-- internal/auth/otp.go: a code is accepted once.
use tourney_api.Prelude.{
  ℕ, ◌≤◌, ◌<◌, ◌≡◌, refl, ap, sym, ◌∙◌, Bool, true, false, Option, none, some, List, [], ◌∷◌, map,
  if◌then◌else◌, arith, length,
}
use mathlib.Core.Path.{subst}
use tourney_api.Auth.Email.{Bytes, normalize_email}
use tourney_api.Auth.Otp.{
  Challenge, Store, VerifyResult, verified, otp_not_found, is_live, live_of, purpose_or_login,
  update_id, consumed, consume, check_live, after_failure, record_failure, lock_live, verify,
  verify_code,
}
use tourney_api.Auth.Otp.Live.{live_of-map, consumed_dead}
use tourney_api.Auth.Otp.Guesses.{live_rows, lock_live_sole, update_self, verify_dead}

-- The challenge that a result names.
accepted : VerifyResult → Option Challenge
accepted (verified c) = some c
accepted _ = none

accepted-after_failure : (locked : Option Bool) → accepted (after_failure locked) ≡ none
unfolding accepted
accepted-after_failure none = refl
accepted-after_failure (some true) = refl
accepted-after_failure (some false) = refl

live_of-consumed : (e p : Bytes) (now : ℕ) (c : Challenge) → live_of e p (consumed now c ∷ []) ≡ []
unfolding live_of is_live consumed
live_of-consumed e p now c = ground arith

module _ (hmac : Bytes → Bytes → Bytes) (pepper : Bytes) (email purpose : Bytes) where
  consume_sole :
      (now : ℕ) (s : Store) (c : Challenge)
      → live_rows email purpose s ≡ c ∷ []
      → live_rows email purpose (consume c.id now s) ≡ []
  unfolding consume
  consume_sole now s c sole =
      let e = normalize_email email in
      let p = purpose_or_login purpose in
      let g = update_id c.id (consumed now) in
      live_of-map e p g s.rows (consumed_dead e p c.id now)
      ∙ ap (λ rows. live_of e p (map g rows)) sole
      ∙ ap (λ d. live_of e p (d ∷ [])) (update_self c.id (consumed now) c refl)
      ∙ live_of-consumed e p now c

  -- The outcome of a check on the challenge `d`.
  outcome : Bytes → ℕ → Store → Challenge → Store × VerifyResult
  outcome code now s d = elim (check_live now d) [
    | some refusal ↦ (s, refusal)
    | none ↦
        if verify_code hmac pepper email code d.code_hash
        then (consume d.id now s, verified d)
        else (let (s', locked) = record_failure d.id now s in (s', after_failure locked))
  ]

  verify-sole :
      (code : Bytes) (now : ℕ) (s : Store) (d : Challenge)
      → lock_live email purpose s ≡ some d
      → verify hmac pepper email purpose code now s ≡ outcome code now s d
  unfolding verify outcome
  verify-sole code now s d e = rw (verify, e) refl

  outcome-accepted :
      (code : Bytes) (now : ℕ) (s : Store) (d c : Challenge)
      → accepted (outcome code now s d).1 ≡ some c
      → (verify_code hmac pepper email code d.code_hash ≡ true)
        × (now < d.expires_at)
        × (d.attempts < d.max_attempts)
        × (outcome code now s d ≡ (consume d.id now s, verified d))
  unfolding outcome check_live accepted
  outcome-accepted code now s d c h =
      ground (arith, accepted-after_failure (record_failure d.id now s).1)

  once_in :
      (code : Bytes) (now : ℕ) (s s' : Store) (c : Challenge) (rows : List Challenge)
      → live_rows email purpose s ≡ rows
      → length rows ≤ 1
      → verify hmac pepper email purpose code now s ≡ (s', verified c)
      → (verify_code hmac pepper email code c.code_hash ≡ true)
        × (now < c.expires_at)
        × (c.attempts < c.max_attempts)
        × (live_rows email purpose s' ≡ [])
  unfolding accepted
  once_in code now s s' c [] e one h =
      let clash =
        ap (λ r. accepted r.1) (sym (verify_dead hmac pepper email purpose code now s e) ∙ h) in
      let no_room : ⊥ = cc in elim no_room [ ]
  once_in code now s s' c (d ∷ []) e one h =
      let run = verify-sole code now s d (lock_live_sole email purpose s d e) in
      let (right, in_time, open_, done) =
        outcome-accepted code now s d c (ap (λ r. accepted r.1) (sym run ∙ h)) in
      let result : Path (Store × VerifyResult) (consume d.id now s, verified d) (s', verified c) =
        sym done ∙ sym run ∙ h in
      let same : d ≡ c = cc in
      let after = ap (λ r. live_rows email purpose r.0) (sym result) ∙ consume_sole now s d e in
      subst
        (λ x.
          (verify_code hmac pepper email code x.code_hash ≡ true)
          × (now < x.expires_at)
          × (x.attempts < x.max_attempts)
          × (live_rows email purpose s' ≡ []))
        same (right, in_time, open_, after)
  once_in code now s s' c (d ∷ d' ∷ rows) e one h =
      let no_room : ⊥ = omega arith in elim no_room [ ]

  -- A code that is accepted has the stored hash, is not expired and has guesses left, and with it
  -- the address has no live challenge any more: no later check is accepted, with any code at any
  -- time, until another code is issued. The address has at most one live challenge, as `Issue`
  -- leaves it.
  pub verify_once :
      (code : Bytes) (now : ℕ) (s s' : Store) (c : Challenge) (again : Bytes) (later : ℕ)
      → length (live_rows email purpose s) ≤ 1
      → verify hmac pepper email purpose code now s ≡ (s', verified c)
      → (verify_code hmac pepper email code c.code_hash ≡ true)
        × (now < c.expires_at)
        × (c.attempts < c.max_attempts)
        × (verify hmac pepper email purpose again later s' ≡ (s', otp_not_found))
  verify_once code now s s' c again later one h =
      let (right, in_time, open_, none_live) =
        once_in code now s s' c (live_rows email purpose s) refl one h in
      (right, in_time, open_, verify_dead hmac pepper email purpose again later s' none_live)
