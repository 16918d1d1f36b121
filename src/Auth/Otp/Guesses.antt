-- ===== src/Auth/Otp/Guesses.antt =====
-- internal/auth/otp.go: `Verify` over a series of guesses.
use tourney_api.Prelude.{
  ℕ, ◌+◌, ◌≤◌, ◌<◌, ◌≡◌, refl, ap, ◌∙◌, inl, inr, true, false, Option, none, some, List, [], ◌∷◌,
  map, ltb, if◌then◌else◌, arith, length,
}
use tourney_api.Prelude.Decide.{lt-cases}
use tourney_api.Auth.Email.{
  Bytes, normalize_email, same_bytes_refl, normalize_email-normalize_email,
}
use tourney_api.Auth.Otp.{
  Challenge, Store, verified, otp_not_found, is_live, live_of, newest, purpose_or_login, update_id,
  consume, failed_attempt, record_failure, check_live, lock_live, new_challenge, issue, verify,
  verify_code, hash_code, otp_ttl, otp_max_attempts,
}
use tourney_api.Auth.Otp.Live.{live_of-map, failed_dead, live_of-issue_sole, new_live}

-- Guesses with the time of each, the first one first.
abbrev pub Guesses : Type 0
Guesses = List (ℕ × Bytes)

-- What wrong guesses leave of a challenge.
abbrev pub tried : Guesses → Challenge → Challenge
tried [] c = c
tried (g ∷ gs) c = tried gs (failed_attempt g.0 c)

abbrev pub live_rows : Bytes → Bytes → Store → List Challenge
live_rows email purpose s = live_of (normalize_email email) (purpose_or_login purpose) s.rows

pub lock_live-none :
    (email purpose : Bytes) (s : Store)
    → live_rows email purpose s ≡ []
    → lock_live email purpose s ≡ none
unfolding lock_live newest
lock_live-none email purpose s h = ap newest h

pub lock_live_sole :
    (email purpose : Bytes) (s : Store) (c : Challenge)
    → live_rows email purpose s ≡ c ∷ []
    → lock_live email purpose s ≡ some c
unfolding lock_live newest
lock_live_sole email purpose s c h = ap newest h

pub update_self :
    (id : ℕ) (f : Challenge → Challenge) (c : Challenge) → c.id ≡ id → update_id id f c ≡ f c
unfolding update_id
update_self id f c e = ground (arith, e)

tried_fields :
    (gs : Guesses) (c : Challenge)
    → ((tried gs c).expires_at ≡ c.expires_at)
      × ((tried gs c).code_hash ≡ c.code_hash)
      × ((tried gs c).max_attempts ≡ c.max_attempts)
      × ((tried gs c).attempts ≡ c.attempts + length gs)
unfolding failed_attempt
tried_fields [] c = (refl, refl, refl, omega arith)
tried_fields (g ∷ gs) c =
    let (e, h, m, a) = tried_fields gs (failed_attempt g.0 c) in (e, h, m, a ∙ omega arith)

module _ (hmac : Bytes → Bytes → Bytes) (pepper : Bytes) (email purpose : Bytes) where
  abbrev pub run_guesses : Guesses → Store → Store
  run_guesses [] s = s
  run_guesses (g ∷ gs) s = run_guesses gs (verify hmac pepper email purpose g.1 g.0 s).0

  -- Each guess comes before the expiry and does not have the stored hash.
  abbrev pub AllWrong : ℕ → Bytes → Guesses → Type 0
  AllWrong expires_at stored [] = Unit
  AllWrong expires_at stored (g ∷ gs) =
      (g.0 < expires_at)
      × (verify_code hmac pepper email g.1 stored ≡ false)
      × AllWrong expires_at stored gs

  pub verify_dead :
      (code : Bytes) (now : ℕ) (s : Store)
      → live_rows email purpose s ≡ []
      → verify hmac pepper email purpose code now s ≡ (s, otp_not_found)
  unfolding verify
  verify_dead code now s none_live = rw (verify, lock_live-none email purpose s none_live) refl

  run_guesses_dead :
      (gs : Guesses) (s : Store) → live_rows email purpose s ≡ [] → run_guesses gs s ≡ s
  run_guesses_dead [] s h = refl
  run_guesses_dead (g ∷ gs) s h = rw (verify_dead g.1 g.0 s h) (run_guesses_dead gs s h)

  check_live_open :
      (now : ℕ) (c : Challenge)
      → now < c.expires_at
      → c.attempts < c.max_attempts
      → check_live now c ≡ none
  unfolding check_live
  check_live_open now c h k = ground arith

  verify_wrong :
      (code : Bytes) (now : ℕ) (s : Store) (c : Challenge)
      → live_rows email purpose s ≡ c ∷ []
      → now < c.expires_at
      → c.attempts < c.max_attempts
      → verify_code hmac pepper email code c.code_hash ≡ false
      → (verify hmac pepper email purpose code now s).0 ≡ (record_failure c.id now s).0
  unfolding verify
  verify_wrong code now s c sole in_time open_ wrong =
      rw (verify, lock_live_sole email purpose s c sole, check_live_open now c in_time open_, wrong)
        refl

  record_failure_sole :
      (now : ℕ) (s : Store) (c : Challenge)
      → live_rows email purpose s ≡ c ∷ []
      → live_rows email purpose (record_failure c.id now s).0
        ≡ live_of (normalize_email email) (purpose_or_login purpose) (failed_attempt now c ∷ [])
  unfolding record_failure
  record_failure_sole now s c sole =
      let e = normalize_email email in
      let p = purpose_or_login purpose in
      let g = update_id c.id (failed_attempt now) in
      live_of-map e p g s.rows (failed_dead e p c.id now)
      ∙ ap (λ rows. live_of e p (map g rows)) sole
      ∙ ap (λ d. live_of e p (d ∷ [])) (update_self c.id (failed_attempt now) c refl)

  -- A wrong guess at the one live challenge counts, in its row only.
  wrong_guess :
      (code : Bytes) (now : ℕ) (s : Store) (c : Challenge)
      → live_rows email purpose s ≡ c ∷ []
      → now < c.expires_at
      → c.attempts < c.max_attempts
      → verify_code hmac pepper email code c.code_hash ≡ false
      → live_rows email purpose (verify hmac pepper email purpose code now s).0
        ≡ live_of (normalize_email email) (purpose_or_login purpose) (failed_attempt now c ∷ [])
  wrong_guess code now s c sole in_time open_ wrong =
      ap (live_rows email purpose) (verify_wrong code now s c sole in_time open_ wrong)
      ∙ record_failure_sole now s c sole

  failed_live :
      (now : ℕ) (c : Challenge)
      → is_live (normalize_email email) (purpose_or_login purpose) c ≡ true
      → c.attempts + 1 < c.max_attempts
      → live_of (normalize_email email) (purpose_or_login purpose) (failed_attempt now c ∷ [])
        ≡ failed_attempt now c ∷ []
  unfolding live_of is_live failed_attempt
  failed_live now c h k = ground arith

  failed_retired :
      (now : ℕ) (c : Challenge)
      → c.max_attempts ≤ c.attempts + 1
      → live_of (normalize_email email) (purpose_or_login purpose) (failed_attempt now c ∷ []) ≡ []
  unfolding live_of is_live failed_attempt
  failed_retired now c k = ground arith

  still_live :
      (now : ℕ) (c : Challenge)
      → is_live (normalize_email email) (purpose_or_login purpose) c ≡ true
      → c.attempts + 1 < c.max_attempts
      → is_live (normalize_email email) (purpose_or_login purpose) (failed_attempt now c) ≡ true
  unfolding is_live failed_attempt
  still_live now c h k = ground arith

  -- Below the cap the challenge stays the one that is live, with its wrong guesses counted.
  run_guesses_below :
      (gs : Guesses) (s : Store) (c : Challenge)
      → live_rows email purpose s ≡ c ∷ []
      → is_live (normalize_email email) (purpose_or_login purpose) c ≡ true
      → AllWrong c.expires_at c.code_hash gs
      → c.attempts + length gs < c.max_attempts
      → live_rows email purpose (run_guesses gs s) ≡ tried gs c ∷ []
  unfolding failed_attempt
  run_guesses_below [] s c sole live wrong below = sole
  run_guesses_below (g ∷ gs) s c sole live wrong below =
      run_guesses_below gs (verify hmac pepper email purpose g.1 g.0 s).0 (failed_attempt g.0 c)
        (wrong_guess g.1 g.0 s c sole wrong.0 (omega arith) wrong.1
          ∙ failed_live g.0 c live (omega arith))
        (still_live g.0 c live (omega arith)) wrong.2 (omega arith)

  -- From the cap on none is live.
  run_guesses_above :
      (gs : Guesses) (s : Store) (c : Challenge)
      → live_rows email purpose s ≡ c ∷ []
      → is_live (normalize_email email) (purpose_or_login purpose) c ≡ true
      → AllWrong c.expires_at c.code_hash gs
      → c.attempts < c.max_attempts
      → c.max_attempts ≤ c.attempts + length gs
      → live_rows email purpose (run_guesses gs s) ≡ []
  unfolding failed_attempt
  run_guesses_above [] s c sole live wrong below above =
      let no_room : ⊥ = omega arith in elim no_room [ ]
  run_guesses_above (g ∷ gs) s c sole live wrong below above =
      let s' = (verify hmac pepper email purpose g.1 g.0 s).0 in
      let after = wrong_guess g.1 g.0 s c sole wrong.0 below wrong.1 in
      elim (lt-cases (c.attempts + 1) c.max_attempts) [
        | inl more ↦
            run_guesses_above gs s' (failed_attempt g.0 c) (after ∙ failed_live g.0 c live more)
              (still_live g.0 c live more) wrong.2 more (omega arith)
        | inr last ↦
            let gone = after ∙ failed_retired g.0 c last in rw (run_guesses_dead gs s' gone) gone
      ]

  right_code :
      (code : Bytes)
      → verify_code hmac pepper email code (hash_code hmac pepper (normalize_email email) code)
        ≡ true
  unfolding verify_code hash_code
  right_code code =
      rw (normalize_email-normalize_email email)
        (same_bytes_refl (hash_code hmac pepper email code))

  verify_right :
      (code : Bytes) (now : ℕ) (s : Store) (c : Challenge)
      → live_rows email purpose s ≡ c ∷ []
      → now < c.expires_at
      → c.attempts < c.max_attempts
      → verify_code hmac pepper email code c.code_hash ≡ true
      → verify hmac pepper email purpose code now s ≡ (consume c.id now s, verified c)
  unfolding verify
  verify_right code now s c sole in_time open_ right =
      rw (verify, lock_live_sole email purpose s c sole, check_live_open now c in_time open_, right)
        refl

  issued_sole :
      (invitation : Option ℕ) (code : Bytes) (now : ℕ) (s : Store)
      → live_rows email purpose (issue hmac pepper email purpose invitation code now s)
        ≡ new_challenge hmac pepper email purpose invitation code now s.next_id ∷ []
  issued_sole invitation code now s =
      live_of-issue_sole hmac pepper email purpose invitation code now s

  -- A code tried in time after a series of wrong guesses in time signs in if these were fewer than
  -- `OTPMaxAttempts`, with the guesses counted in the challenge it returns; from the cap on there
  -- is no challenge to try it on. The guesses are those that come after the code was issued.
  pub verify-after_guesses :
      (invitation : Option ℕ) (code : Bytes) (issued_at : ℕ) (s : Store) (gs : Guesses) (now : ℕ)
      → AllWrong (issued_at + otp_ttl) (hash_code hmac pepper (normalize_email email) code) gs
      → now < issued_at + otp_ttl
      → (verify hmac pepper email purpose code now
          (run_guesses gs (issue hmac pepper email purpose invitation code issued_at s))).1
        ≡ (if ltb (length gs) otp_max_attempts
            then verified (
                tried gs
                  (new_challenge hmac pepper email purpose invitation code issued_at s.next_id))
            else otp_not_found)
  unfolding new_challenge
  verify-after_guesses invitation code issued_at s gs now wrong in_time =
      let c = new_challenge hmac pepper email purpose invitation code issued_at s.next_id in
      let s' = issue hmac pepper email purpose invitation code issued_at s in
      let sole = issued_sole invitation code issued_at s in
      let live = new_live hmac pepper email purpose invitation code issued_at s.next_id in
      let (e, h, m, a) = tried_fields gs c in
      elim (lt-cases (length gs) otp_max_attempts) [
        | inl below ↦
            let t =
              verify_right code now (run_guesses gs s') (tried gs c)
                (run_guesses_below gs s' c sole live wrong (omega arith)) (omega (arith, e))
                (omega (arith, m, a))
                (ap (verify_code hmac pepper email code) h ∙ right_code code) in
            rw t (ground (arith, below))
        | inr above ↦
            let t =
              verify_dead code now (run_guesses gs s')
                (run_guesses_above gs s' c sole live wrong (omega arith) (omega arith)) in
            rw t (ground (arith, above))
      ]
