-- ===== src/Auth/Limiter.antt =====
-- internal/auth/ratelimit.go: a sliding window of attempts for each key. Times are microseconds and
-- a step's `now` is an argument; the mutex makes each call a step of its own.
mod Tests
pub mod Window
use tourney_api.Prelude.{
  ℕ, suc, ◌+◌, ◌-◌, Bool, true, false, not, ◌&&◌, Option, none, some, List, [], ◌∷◌, ◌++◌, ltb, leb,
  ◌==◌, if◌then◌else◌, length,
}
use tourney_api.Auth.Email.{Bytes, same_bytes}

abbrev pub otp_per_ip_window : ℕ
otp_per_ip_window = 3600000000

-- The map as an association list with each key once; a key that is missing has no stamps.
abbrev pub Buckets : Type 0
Buckets = List (Bytes × List ℕ)

pub record Limiter : Type 0 where
  pub buckets : Buckets
  pub max_keys : ℕ

pub new_limiter : Limiter
new_limiter = record { buckets = []; max_keys = 10000 }

pub stamps_of : Bytes → Buckets → List ℕ
stamps_of key [] = []
stamps_of key (b ∷ buckets) = if same_bytes b.0 key then b.1 else stamps_of key buckets

pub put : Bytes → List ℕ → Buckets → Buckets
put key stamps [] = (key, stamps) ∷ []
put key stamps (b ∷ buckets) =
    let rest = put key stamps buckets in
    if same_bytes b.0 key then (b.0, stamps) ∷ buckets else b ∷ rest

pub delete : Bytes → Buckets → Buckets
delete key [] = []
delete key (b ∷ buckets) =
    let rest = delete key buckets in if same_bytes b.0 key then rest else b ∷ rest

-- `t.After(now - window)`, on both sides `window` later.
pub is_recent : ℕ → ℕ → ℕ → Bool
is_recent now window t = ltb now (t + window)

pub recent : ℕ → ℕ → List ℕ → List ℕ
recent now window [] = []
recent now window (t ∷ stamps) =
    let rest = recent now window stamps in if is_recent now window t then t ∷ rest else rest

pub last_of : List ℕ → Option ℕ
last_of [] = none
last_of (t ∷ stamps) = elim (last_of stamps) [ none ↦ some t | some u ↦ some u ]

-- No stamps, or the newest is before the cutoff.
pub is_stale : ℕ → List ℕ → Bool
is_stale now stamps = elim (last_of stamps) [
  | none ↦ true
  | some t ↦ ltb (t + otp_per_ip_window) now
]

pub sweep : ℕ → Buckets → Buckets
sweep now [] = []
sweep now (b ∷ buckets) =
    let rest = sweep now buckets in if is_stale now b.1 then rest else b ∷ rest

-- The bound on the keys, before a call records its own.
pub bounded : ℕ → Limiter → Buckets
bounded now l =
    let swept = sweep now l.buckets in
    if ltb l.max_keys (length l.buckets)
    then (if ltb l.max_keys (length swept) then [] else swept)
    else l.buckets

-- The limiter after the call, and whether the attempt is within the limit. A limit that is not
-- positive allows nothing, as 0 does.
pub allow : Bytes → ℕ → ℕ → ℕ → Limiter → Limiter × Bool
allow key limit window now l =
    (record l { buckets = put key (kept ++ now ∷ []) buckets }, ltb (length kept) limit)
  where
    buckets : Buckets
    buckets = bounded now l

    kept : List ℕ
    kept = recent now window (stamps_of key buckets)

-- 0 where an attempt need not wait.
pub retry_after : Bytes → ℕ → ℕ → Limiter → ℕ
retry_after key window now l = elim (stamps_of key l.buckets) [
  | [] ↦ 0
  | t ∷ stamps ↦ t + window - now
]

pub reset : Bytes → Limiter → Limiter
reset key l = record l { buckets = delete key l.buckets }
