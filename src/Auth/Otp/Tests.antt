-- ===== src/Auth/Otp/Tests.antt =====
-- A run of the one-time codes, at which their theorems are applied. The hash of the runs sets the
-- key before the message.
use tourney_api.Prelude.{◌+◌, ◌<◌, ◌≤◌, ◌≡◌, refl, true, none, [], ◌∷◌, ◌++◌, length, arith}
use tourney_api.Auth.Email.{
  Bytes, normalize_email, trim_left, trim_right, put_before, lower_byte, is_space, same_bytes,
}
use tourney_api.Auth.Otp.{
  Store, verified, otp_not_found, live_of, is_live, newest, lock_live, check_live, hash_code,
  verify_code, new_challenge, issue, verify, otp_ttl, otp_purpose_login, purpose_or_login, consume,
  generate_code, digits,
}
use tourney_api.Auth.Otp.Live.{live_of-issue}
use tourney_api.Auth.Otp.Guesses.{
  Guesses, tried, live_rows, run_guesses, AllWrong, verify-after_guesses,
}
use tourney_api.Auth.Otp.Once.{verify_once}

abbrev hash : Bytes → Bytes → Bytes
hash key message = key ++ message

abbrev pepper : Bytes
pepper = 7 ∷ []

-- " A@b".
abbrev address : Bytes
address = 32 ∷ 65 ∷ 64 ∷ 98 ∷ []

abbrev code : Bytes
code = 48 ∷ 48 ∷ 52 ∷ []

abbrev no_rows : Store
no_rows = record { rows = []; next_id = 1 }

leading_zeros : generate_code 4821 ≡ 48 ∷ 48 ∷ 52 ∷ 56 ∷ 50 ∷ 49 ∷ []
unfolding generate_code digits
leading_zeros = refl

issued : Store
issued = issue hash pepper address [] none code 100 no_rows

abbrev wrong : Guesses
wrong = (101, 49 ∷ []) ∷ (102, 50 ∷ []) ∷ (103, 51 ∷ []) ∷ (104, 52 ∷ []) ∷ []

all_wrong :
    AllWrong hash pepper address []
      (100 + otp_ttl)
      (hash_code hash pepper (normalize_email address) code)
      wrong
unfolding verify_code hash_code normalize_email trim_left trim_right put_before lower_byte is_space
    same_bytes
all_wrong = (omega arith, refl, (omega arith, refl, (omega arith, refl, (omega arith, refl, tt))))

verify-after_guesses_example :
    (verify hash pepper address [] code 200 (
      run_guesses hash pepper address [] wrong
        (issue hash pepper address [] none code 100 no_rows))).1
    ≡ verified (tried wrong (new_challenge hash pepper address [] none code 100 1))
verify-after_guesses_example =
    verify-after_guesses hash pepper address [] none code 100 no_rows wrong 200 all_wrong
      (omega arith)

elsewhere : ¬ ((normalize_email address ≡ 99 ∷ []) × (purpose_or_login [] ≡ otp_purpose_login))
unfolding normalize_email trim_left trim_right put_before lower_byte is_space same_bytes
elsewhere h = let clash = h.0 in ground (arith, clash)

live_of-issue_example :
    (live_of
        (normalize_email address)
        otp_purpose_login
        (issue hash pepper address [] none code 300 issued).rows
      ≡ new_challenge hash pepper address [] none code 300 issued.next_id ∷ [])
    × (live_of (99 ∷ []) otp_purpose_login (issue hash pepper address [] none code 300 issued).rows
        ≡ live_of (99 ∷ []) otp_purpose_login issued.rows)
live_of-issue_example =
    live_of-issue hash pepper address [] none code 300 issued (99 ∷ []) otp_purpose_login elsewhere

used : Store
used = consume 1 200 issued

verify_runs :
    verify hash pepper address [] code 200 issued
    ≡ (used, verified (new_challenge hash pepper address [] none code 100 1))
unfolding verify lock_live live_of is_live newest check_live verify_code hash_code new_challenge
    issue issued used normalize_email trim_left trim_right put_before lower_byte is_space same_bytes
verify_runs = refl

one_live : length (live_rows address [] issued) ≤ 1
unfolding live_of is_live issue issued new_challenge normalize_email trim_left trim_right put_before
    lower_byte is_space same_bytes
one_live = omega arith

verify_once_example :
    (verify_code hash pepper address code (hash_code hash pepper (normalize_email address) code)
      ≡ true)
    × (200 < 100 + otp_ttl)
    × (0 < 5)
    × (verify hash pepper address [] code 201 used ≡ (used, otp_not_found))
unfolding new_challenge
verify_once_example =
    verify_once hash pepper address [] code 200 issued used
      (new_challenge hash pepper address [] none code 100 1) code 201 one_live verify_runs
