-- ===== src/Auth/SignIn/Tests.antt =====
-- Tests of the sign-in: one address on the allowlist, its code, and the limits.
use tourney_api.Prelude.{◌+◌, ◌≡◌, refl, true, false, none, some, List, [], ◌∷◌, ◌++◌}
use tourney_api.Auth.Email.{Bytes, normalize_email}
use tourney_api.Auth.Limiter.{Limiter}
use tourney_api.Auth.Invitations.{Invitation, invite_pending}
use tourney_api.Auth.Otp.{Challenge, otp_purpose_login}
use tourney_api.Auth.Sessions.{organizer}
use tourney_api.Auth.SignIn.{
  AuthStore, request_code, verify_and_sign_in, looks_like_email, index_of, count_of, has_blank,
  is_domain, starts_with_dot, ends_with_dot,
}
use tourney_api.Auth.SignIn.Limits.{is_rate_limited, request_code_limits}
use tourney_api.Auth.SignIn.Whole.{Whole, verify_and_sign_in-Whole}

-- "a@b.co".
abbrev address : Bytes
address = 97 ∷ 64 ∷ 98 ∷ 46 ∷ 99 ∷ 111 ∷ []

address_shape : looks_like_email address ≡ true
unfolding looks_like_email index_of count_of has_blank is_domain starts_with_dot ends_with_dot
address_shape = refl

-- "a@b.": no domain ends with a dot.
odd_shape : looks_like_email (97 ∷ 64 ∷ 98 ∷ 46 ∷ []) ≡ false
unfolding looks_like_email index_of count_of has_blank is_domain starts_with_dot ends_with_dot
odd_shape = refl

-- A digest that keeps what it is given.
abbrev plain : Bytes → Bytes → Bytes
plain key text = key ++ text

abbrev the_invitation : Invitation
the_invitation = record {
  id = 4;
  email = address;
  status = invite_pending;
  accepted_at = none;
  revoked_at = none;
  expires_at = 9000;
}

abbrev the_code : Bytes
the_code = 49 ∷ 50 ∷ 51 ∷ 52 ∷ 53 ∷ 54 ∷ []

abbrev the_challenge : Challenge
the_challenge = record {
  id = 6;
  email = address;
  purpose = otp_purpose_login;
  code_hash = address ++ 58 ∷ the_code;
  invitation_id = some 4;
  attempts = 0;
  max_attempts = 5;
  created_at = 100;
  expires_at = 5000;
  consumed_at = none;
  invalidated_at = none;
  last_attempt_at = none;
}

abbrev no_attempts : Limiter
no_attempts = record { buckets = []; max_keys = 100 }

abbrev desk : List Invitation → AuthStore
desk invitations = record {
  accounts = [];
  next_user = 1;
  allowlist = record { rows = invitations; next_id = 5 };
  terms = λ id. record { role = organizer; organization_id = some 2; email_display = none };
  codes = record { rows = the_challenge ∷ []; next_id = 7 };
  sessions = record { users = []; rows = []; next_id = 1 };
  limiter = no_attempts;
  audit = [];
}

request_code_limits_example :
    (let (s', answer) =
        request_code plain []
          (λ to code. true)
          address
          []
          the_code
          200
          (desk (the_invitation ∷ [])) in
      let (t', answer') =
        request_code plain [] (λ to code. true) address [] the_code 200 (desk []) in
      (s'.limiter ≡ t'.limiter) × (is_rate_limited answer ≡ is_rate_limited answer'))
request_code_limits_example =
    request_code_limits plain [] (λ to code. true) address [] the_code the_code 200
      (desk (the_invitation ∷ [])) (desk []) refl

verify_and_sign_in-Whole_example :
    Whole plain []
      (normalize_email address)
      the_code
      77
      (300 + 1000)
      300
      (desk (the_invitation ∷ []))
      (verify_and_sign_in plain [] address the_code 77 1000 300 (desk (the_invitation ∷ [])))
verify_and_sign_in-Whole_example =
    verify_and_sign_in-Whole plain [] address the_code 77 1000 300 (desk (the_invitation ∷ []))
