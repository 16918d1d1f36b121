-- ===== src/Auth/SignIn/Limits.antt =====
-- internal/auth/otp_service.go: the limits on requests show nothing of the allowlist.
use tourney_api.Prelude.{
  ℕ, ◌≡◌, ◌⊎◌, refl, sym, ap, ◌∙◌, inl, inr, Bool, Bool-cases, true, false, if◌then◌else◌,
}
use tourney_api.Auth.Email.{Bytes, normalize_email}
use tourney_api.Auth.Limiter.{Limiter, allow}
use tourney_api.Auth.Invitations.{
  Invitation, Found, invited, not_invited, invitation_expired, find_active_by_email,
}
use tourney_api.Auth.SignIn.{
  AuthStore, RequestResult, rate_limited, looks_like_email, otp_per_email_limit,
  otp_per_email_window, email_key, allow_ip, is_suspended, find_by_email, send_code,
  request_invited, request_code,
}

abbrev pub is_rate_limited : RequestResult → Bool
is_rate_limited rate_limited = true
is_rate_limited _ = false

pub Found-cases :
    (f : Found)
    → (f ≡ not_invited) ⊎ ((f ≡ invitation_expired) ⊎ ((inv : Invitation) × (f ≡ invited inv)))
Found-cases not_invited = inl refl
Found-cases invitation_expired = inr (inl refl)
Found-cases (invited inv) = inr (inr (inv, refl))

-- The limiter after a request, and whether the request is turned away for its limits.
abbrev pub limits : Bytes → Bytes → ℕ → Limiter → Limiter × Bool
limits email ip now l =
    let addr = normalize_email email in
    if looks_like_email addr
    then (let (l1, by_email) =
          allow (email_key addr) otp_per_email_limit otp_per_email_window now l in
        let (l2, by_ip) = allow_ip ip now l1 in
        if by_email then (if by_ip then (l2, false) else (l2, true)) else (l1, true))
    else (l, false)

module _ (hmac : Bytes → Bytes → Bytes) (pepper : Bytes) (delivers : Bytes → Bytes → Bool) where
  abbrev seen : AuthStore × RequestResult → Limiter × Bool
  seen answer = let (s, result) = answer in (s.limiter, is_rate_limited result)

  send_code-seen :
      (addr : Bytes) (invitation : ℕ) (code : Bytes) (now : ℕ) (s : AuthStore)
      → seen (send_code hmac pepper delivers addr invitation code now s) ≡ (s.limiter, false)
  unfolding send_code
  send_code-seen addr invitation code now s = elim (Bool-cases (delivers addr code)) [
    | inl e ↦ rw e refl
    | inr e ↦ rw e refl
  ]

  request_invited-seen :
      (addr code : Bytes) (now : ℕ) (s : AuthStore)
      → seen (request_invited hmac pepper delivers addr code now s) ≡ (s.limiter, false)
  unfolding request_invited
  request_invited-seen addr code now s =
      elim (Found-cases (find_active_by_email addr now s.allowlist)) [
        | inl e ↦ rw (request_invited, e) refl
        | inr (inl e) ↦ rw (request_invited, e) refl
        | inr (inr (inv, e)) ↦ elim (Bool-cases (is_suspended (find_by_email addr s))) [
          | inl f ↦ rw (request_invited, e, f) refl
          | inr f ↦ rw (request_invited, e, f) (send_code-seen addr inv.id code now s)
        ]
      ]

  request_code-seen :
      (email ip code : Bytes) (now : ℕ) (s : AuthStore)
      → seen (request_code hmac pepper delivers email ip code now s) ≡ limits email ip now s.limiter
  unfolding request_code
  request_code-seen email ip code now s =
      let addr = normalize_email email in
      let (l1, by_email) =
        allow (email_key addr) otp_per_email_limit otp_per_email_window now s.limiter in
      let (l2, by_ip) = allow_ip ip now l1 in
      elim (Bool-cases (looks_like_email addr)) [
        | inr e ↦ rw e refl
        | inl e ↦ elim (Bool-cases by_email) [
          | inr f ↦ rw (e, f) refl
          | inl f ↦ elim (Bool-cases by_ip) [
            | inr g ↦ rw (e, f, g) refl
            | inl g ↦ rw (e, f, g) (request_invited-seen addr code now (record s { limiter = l2 }))
          ]
        ]
      ]

  -- Two stores with one limiter, whatever their invitations and accounts, answer a request alike as
  -- far as its limits go: both turn it away for them or neither does, and their limiters are one
  -- again.
  pub request_code_limits :
      (email ip code code' : Bytes) (now : ℕ) (s t : AuthStore)
      → s.limiter ≡ t.limiter
      → (let (s', answer) = request_code hmac pepper delivers email ip code now s in
          let (t', answer') = request_code hmac pepper delivers email ip code' now t in
          (s'.limiter ≡ t'.limiter) × (is_rate_limited answer ≡ is_rate_limited answer'))
  request_code_limits email ip code code' now s t same =
      let both =
        request_code-seen email ip code now s
        ∙ ap (limits email ip now) same
        ∙ sym (request_code-seen email ip code' now t) in
      (ap (λ p. p.0) both, ap (λ p. p.1) both)
