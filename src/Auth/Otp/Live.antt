-- ===== src/Auth/Otp/Live.antt =====
-- internal/auth/otp.go: which challenges of an address are live after each write of a row.
use tourney_api.Prelude.{
  ℕ, ◌≡◌, refl, sym, ◌∙◌, inl, inr, true, false, Bool-cases, Option, List, [], ◌∷◌, map, arith,
}
use tourney_api.Auth.Email.{Bytes, normalize_email, same_bytes-eq, same_bytes_refl}
use tourney_api.Auth.Otp.{
  Challenge, Store, is_live, live_of, purpose_or_login, retire, update_id, consumed, failed_attempt,
  new_challenge, issue,
}

-- A write of rows that revives none leaves the live rows to be found among those that were.
pub live_of-map :
    (email purpose : Bytes) (g : Challenge → Challenge) (rows : List Challenge)
    → ((c : Challenge) → is_live email purpose c ≡ false → is_live email purpose (g c) ≡ false)
    → live_of email purpose (map g rows)
      ≡ live_of email purpose (map g (live_of email purpose rows))
unfolding live_of
live_of-map email purpose g [] dead = refl
live_of-map email purpose g (c ∷ rows) dead = elim (Bool-cases (is_live email purpose c)) [
  | inl h ↦ rw h (rw (live_of-map email purpose g rows dead) refl)
  | inr h ↦ rw (h, dead c h) (live_of-map email purpose g rows dead)
]

-- The rows that a write does not touch stay as live as they were.
live_of_same :
    (email purpose : Bytes) (g : Challenge → Challenge) (rows : List Challenge)
    → ((c : Challenge) → is_live email purpose c ≡ false → is_live email purpose (g c) ≡ false)
    → ((c : Challenge) → is_live email purpose c ≡ true → g c ≡ c)
    → live_of email purpose (map g rows) ≡ live_of email purpose rows
unfolding live_of
live_of_same email purpose g [] dead same = refl
live_of_same email purpose g (c ∷ rows) dead same = elim (Bool-cases (is_live email purpose c)) [
  | inl h ↦ rw (same c h, h) (rw (live_of_same email purpose g rows dead same) refl)
  | inr h ↦ rw (h, dead c h) (live_of_same email purpose g rows dead same)
]

pub consumed_dead :
    (email purpose : Bytes) (id now : ℕ) (c : Challenge)
    → is_live email purpose c ≡ false
    → is_live email purpose (update_id id (consumed now) c) ≡ false
unfolding is_live update_id consumed
consumed_dead email purpose id now c h = ground arith

pub failed_dead :
    (email purpose : Bytes) (id now : ℕ) (c : Challenge)
    → is_live email purpose c ≡ false
    → is_live email purpose (update_id id (failed_attempt now) c) ≡ false
unfolding is_live update_id failed_attempt
failed_dead email purpose id now c h = ground arith

retire_dead :
    (email purpose e p : Bytes) (now : ℕ) (c : Challenge)
    → is_live e p c ≡ false
    → is_live e p (retire email purpose now c) ≡ false
unfolding is_live retire
retire_dead email purpose e p now c h = ground arith

retired : (e p : Bytes) (now : ℕ) (c : Challenge) → is_live e p (retire e p now c) ≡ false
unfolding is_live retire
retired e p now c = ground arith

live_of-retire :
    (email purpose : Bytes) (now : ℕ) (rows : List Challenge)
    → live_of email purpose (map (retire email purpose now) rows) ≡ []
unfolding live_of
live_of-retire email purpose now [] = refl
live_of-retire email purpose now (c ∷ rows) =
    rw (retired email purpose now c) (live_of-retire email purpose now rows)

live_key : (e p : Bytes) (c : Challenge) → is_live e p c ≡ true → (c.email ≡ e) × (c.purpose ≡ p)
unfolding is_live
live_key e p c h =
    (same_bytes-eq c.email e (ground arith), same_bytes-eq c.purpose p (ground arith))

-- A challenge has one address and one purpose.
live_elsewhere :
    (email purpose e p : Bytes) (now : ℕ) (c : Challenge)
    → ¬ ((email ≡ e) × (purpose ≡ p))
    → is_live e p c ≡ true
    → retire email purpose now c ≡ c
unfolding retire
live_elsewhere email purpose e p now c other h = elim (Bool-cases (is_live email purpose c)) [
  | inl here ↦
      let (e1, p1) = live_key e p c h in
      let (e2, p2) = live_key email purpose c here in elim (other (sym e2 ∙ e1, sym p2 ∙ p1)) [ ]
  | inr away ↦ rw away refl
]

module _ (hmac : Bytes → Bytes → Bytes) (pepper : Bytes) where
  pub new_live :
      (email purpose : Bytes) (invitation : Option ℕ) (code : Bytes) (now id : ℕ)
      → is_live
          (normalize_email email)
          (purpose_or_login purpose)
          (new_challenge hmac pepper email purpose invitation code now id)
        ≡ true
  unfolding is_live new_challenge
  new_live email purpose invitation code now id =
      rw (same_bytes_refl (normalize_email email), same_bytes_refl (purpose_or_login purpose)) refl

  new_away :
      (email purpose : Bytes) (invitation : Option ℕ) (code : Bytes) (now id : ℕ) (e p : Bytes)
      → ¬ ((normalize_email email ≡ e) × (purpose_or_login purpose ≡ p))
      → is_live e p (new_challenge hmac pepper email purpose invitation code now id) ≡ false
  unfolding new_challenge
  new_away email purpose invitation code now id e p other =
      let c = new_challenge hmac pepper email purpose invitation code now id in
      elim (Bool-cases (is_live e p c)) [ inl h ↦ elim (other (live_key e p c h)) [ ] | inr h ↦ h ]

  pub live_of-issue_sole :
      (email purpose : Bytes) (invitation : Option ℕ) (code : Bytes) (now : ℕ) (s : Store)
      → live_of
          (normalize_email email)
          (purpose_or_login purpose)
          (issue hmac pepper email purpose invitation code now s).rows
        ≡ new_challenge hmac pepper email purpose invitation code now s.next_id ∷ []
  unfolding issue live_of
  live_of-issue_sole email purpose invitation code now s =
      rw
        (
          new_live email purpose invitation code now s.next_id,
          live_of-retire (normalize_email email) (purpose_or_login purpose) now s.rows,
        )
        refl

  -- After `Issue` the one live challenge of its address and purpose is the new one, whatever was
  -- live before, and the live challenges of any other address or purpose are as they were.
  pub live_of-issue :
      (email purpose : Bytes) (invitation : Option ℕ) (code : Bytes) (now : ℕ) (s : Store)
      (e p : Bytes)
      → ¬ ((normalize_email email ≡ e) × (purpose_or_login purpose ≡ p))
      → let s' = issue hmac pepper email purpose invitation code now s in
        (live_of (normalize_email email) (purpose_or_login purpose) s'.rows
          ≡ new_challenge hmac pepper email purpose invitation code now s.next_id ∷ [])
        × (live_of e p s'.rows ≡ live_of e p s.rows)
  unfolding issue live_of
  live_of-issue email purpose invitation code now s e p other =
      let e0 = normalize_email email in
      let p0 = purpose_or_login purpose in
      (
        live_of-issue_sole email purpose invitation code now s,
        rw (new_away email purpose invitation code now s.next_id e p other) (
            live_of_same e p (retire e0 p0 now) s.rows (retire_dead e0 p0 e p now)
              (λ c. live_elsewhere e0 p0 e p now c other)),
      )
