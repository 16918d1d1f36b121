-- ===== src/Auth/Otp.antt =====
-- internal/auth/otp.go: the life of a one-time code over the rows of `otp_challenges`, newest
-- first. Times are microseconds, and the database and the process read one clock; a call is a step
-- of its own, as the row lock and the transactions make it. HMAC-SHA256 and the pepper are
-- parameters, and so is the number that `crypto/rand` draws.
mod Tests
pub mod Live
pub mod Guesses
pub mod Once
use tourney_api.Prelude.{
  ℕ, zero, suc, ◌+◌, ◌/◌, ◌%◌, Bool, true, false, ◌&&◌, Option, none, some, List, [], ◌∷◌, ◌++◌,
  map, ltb, leb, ◌==◌, if◌then◌else◌,
}
use tourney_api.Auth.Email.{Bytes, normalize_email, same_bytes}

-- "login".
abbrev pub otp_purpose_login : Bytes
otp_purpose_login = 108 ∷ 111 ∷ 103 ∷ 105 ∷ 110 ∷ []

abbrev pub otp_ttl : ℕ
otp_ttl = 600000000

abbrev pub otp_max_attempts : ℕ
otp_max_attempts = 5

-- `%0*d`: the last `n` decimal digits.
pub digits : ℕ → ℕ → Bytes
digits zero n = []
digits (suc k) n = digits k (n / 10) ++ (48 + n % 10) ∷ []

-- `GenerateCode`, from the number drawn.
pub generate_code : ℕ → Bytes
generate_code drawn = digits 6 drawn

pub record Challenge : Type 0 where
  pub id : ℕ
  pub email : Bytes
  pub purpose : Bytes
  pub code_hash : Bytes
  pub invitation_id : Option ℕ
  pub attempts : ℕ
  pub max_attempts : ℕ
  pub created_at : ℕ
  pub expires_at : ℕ
  pub consumed_at : Option ℕ
  pub invalidated_at : Option ℕ
  pub last_attempt_at : Option ℕ

pub record Store : Type 0 where
  pub rows : List Challenge
  pub next_id : ℕ

pub data VerifyResult : Type 0 where
  verified : Challenge → VerifyResult
  otp_not_found otp_expired otp_invalid otp_locked otp_no_rows : VerifyResult

abbrev pub is_null {ℓ} : {A : Type ℓ} → Option A → Bool
is_null none = true
is_null (some x) = false

abbrev pub purpose_or_login : Bytes → Bytes
purpose_or_login [] = otp_purpose_login
purpose_or_login (c ∷ s) = c ∷ s

-- The `WHERE` of a live challenge.
pub is_live : Bytes → Bytes → Challenge → Bool
is_live email purpose c =
    same_bytes c.email email
    && (same_bytes c.purpose purpose && (is_null c.consumed_at && is_null c.invalidated_at))

pub live_of : Bytes → Bytes → List Challenge → List Challenge
live_of email purpose [] = []
live_of email purpose (c ∷ rows) =
    let rest = live_of email purpose rows in if is_live email purpose c then c ∷ rest else rest

-- `ORDER BY created_at DESC LIMIT 1`.
pub newest : List Challenge → Option Challenge
newest [] = none
newest (c ∷ rows) = elim (newest rows) [
  | none ↦ some c
  | some d ↦ if ltb c.created_at d.created_at then some d else some c
]

pub retire : Bytes → Bytes → ℕ → Challenge → Challenge
retire email purpose now c =
    if is_live email purpose c then record c { invalidated_at = some now } else c

-- `UPDATE … WHERE id = $1`.
pub update_id : ℕ → (Challenge → Challenge) → Challenge → Challenge
update_id id f c = if c.id == id then f c else c

pub consumed : ℕ → Challenge → Challenge
consumed now c = record c { consumed_at = some now; last_attempt_at = some now }

pub consume : ℕ → ℕ → Store → Store
consume id now s = record s { rows = map (update_id id (consumed now)) s.rows }

pub failed_attempt : ℕ → Challenge → Challenge
failed_attempt now c = record c {
  attempts = c.attempts + 1;
  last_attempt_at = some now;
  invalidated_at = if leb c.max_attempts (c.attempts + 1) then some now else c.invalidated_at;
}

-- `RETURNING attempts >= max_attempts`; no row is an error.
pub is_locked_row : ℕ → List Challenge → Option Bool
is_locked_row id [] = none
is_locked_row id (c ∷ rows) =
    if c.id == id then some (leb c.max_attempts c.attempts) else is_locked_row id rows

pub record_failure : ℕ → ℕ → Store → Store × Option Bool
record_failure id now s = (record s { rows = rows }, is_locked_row id rows)
  where
    rows : List Challenge
    rows = map (update_id id (failed_attempt now)) s.rows

-- Nothing for a challenge that may be tried.
pub check_live : ℕ → Challenge → Option VerifyResult
check_live now c =
    if leb c.expires_at now
    then some otp_expired
    else (if leb c.max_attempts c.attempts then some otp_locked else none)

abbrev pub after_failure : Option Bool → VerifyResult
after_failure none = otp_no_rows
after_failure (some true) = otp_locked
after_failure (some false) = otp_invalid

pub lock_live : Bytes → Bytes → Store → Option Challenge
lock_live email purpose s =
    newest (live_of (normalize_email email) (purpose_or_login purpose) s.rows)

module _ (hmac : Bytes → Bytes → Bytes) (pepper : Bytes) where
  pub hash_code : Bytes → Bytes → Bytes
  hash_code email code = hmac pepper (normalize_email email ++ 58 ∷ code)

  pub verify_code : Bytes → Bytes → Bytes → Bool
  verify_code email code stored_hash = same_bytes (hash_code email code) stored_hash

  -- The row that `Issue` inserts.
  pub new_challenge : Bytes → Bytes → Option ℕ → Bytes → ℕ → ℕ → Challenge
  new_challenge email purpose invitation code now id = record {
    id = id;
    email = normalize_email email;
    purpose = purpose_or_login purpose;
    code_hash = hash_code (normalize_email email) code;
    invitation_id = invitation;
    attempts = 0;
    max_attempts = otp_max_attempts;
    created_at = now;
    expires_at = now + otp_ttl;
    consumed_at = none;
    invalidated_at = none;
    last_attempt_at = none;
  }

  pub issue : Bytes → Bytes → Option ℕ → Bytes → ℕ → Store → Store
  issue email purpose invitation code now s = record {
    rows =
        new_challenge email purpose invitation code now s.next_id
        ∷ map (retire (normalize_email email) (purpose_or_login purpose) now) s.rows;
    next_id = suc s.next_id;
  }

  -- A wrong code has rolled back the transaction before the failure is recorded.
  pub verify : Bytes → Bytes → Bytes → ℕ → Store → Store × VerifyResult
  verify email purpose code now s = elim (lock_live email purpose s) [
    | none ↦ (s, otp_not_found)
    | some c ↦ elim (check_live now c) [
      | some refusal ↦ (s, refusal)
      | none ↦
          if verify_code email code c.code_hash
          then (consume c.id now s, verified c)
          else (let (s', locked) = record_failure c.id now s in (s', after_failure locked))
    ]
  ]
