-- ===== src/Auth/Limiter/Window.antt =====
-- internal/auth/ratelimit.go: the attempts that a call of `Allow` counts.
use tourney_api.Prelude.{
  ℕ, ◌+◌, ◌≤◌, ◌≡◌, refl, ap, sym, ◌⊎◌, ◌∙◌, inl, inr, true, false, Bool-cases, ◌&&◌, List, [], ◌∷◌,
  ◌++◌, ltb, if◌then◌else◌, arith, length, length-append,
}
use tourney_api.Auth.Email.{Bytes, same_bytes, same_bytes-eq, same_bytes_refl}
use tourney_api.Auth.Limiter.{Buckets, Limiter, stamps_of, put, is_recent, recent, bounded, allow}

-- A call of `Allow`.
pub record Attempt : Type 0 where
  pub key : Bytes
  pub limit : ℕ
  pub window : ℕ
  pub at : ℕ

abbrev pub run : List Attempt → Limiter → Limiter
run [] l = l
run (a ∷ attempts) l = run attempts (allow a.key a.limit a.window a.at l).0

-- How many attempts for the key, allowed or not, `now` is within the window of.
abbrev pub attempts_in : Bytes → ℕ → ℕ → List Attempt → ℕ
attempts_in key window now [] = 0
attempts_in key window now (a ∷ attempts) =
    (if same_bytes a.key key && is_recent now window a.at then 1 else 0)
    + attempts_in key window now attempts

-- Attempts of the past, those for the key with its window.
abbrev pub Fits : Bytes → ℕ → ℕ → List Attempt → Type 0
Fits key window now [] = Unit
Fits key window now (a ∷ attempts) =
    (a.at ≤ now)
    × ((same_bytes a.key key ≡ false) ⊎ (a.window ≡ window))
    × Fits key window now attempts

recent-append :
    (now window : ℕ) (xs ys : List ℕ)
    → recent now window (xs ++ ys) ≡ recent now window xs ++ recent now window ys
unfolding recent
recent-append now window [] ys = refl
recent-append now window (x ∷ xs) ys = elim (Bool-cases (is_recent now window x)) [
  | inl h ↦ rw (h, recent-append now window xs ys) refl
  | inr h ↦ rw (h, recent-append now window xs ys) refl
]

gone :
    (t now window x : ℕ) → t ≤ now → is_recent t window x ≡ false → is_recent now window x ≡ false
unfolding is_recent
gone t now window x h r = ground (arith, r)

-- What has left the window by an earlier time has left it by a later one.
recent-recent :
    (t now window : ℕ) (xs : List ℕ)
    → t ≤ now
    → recent now window (recent t window xs) ≡ recent now window xs
unfolding recent
recent-recent t now window [] h = refl
recent-recent t now window (x ∷ xs) h = elim (Bool-cases (is_recent t window x)) [
  | inl r ↦
      rw r
        (ap (λ ys. if is_recent now window x then x ∷ ys else ys) (recent-recent t now window xs h))
  | inr r ↦ rw (r, gone t now window x h r) (recent-recent t now window xs h)
]

single :
    (now window t : ℕ)
    → length (recent now window (t ∷ [])) ≡ (if is_recent now window t then 1 else 0)
unfolding recent
single now window t = elim (Bool-cases (is_recent now window t)) [
  | inl h ↦ rw h refl
  | inr h ↦ rw h refl
]

stamps_of-put : (key : Bytes) (st : List ℕ) (bs : Buckets) → stamps_of key (put key st bs) ≡ st
unfolding stamps_of put
stamps_of-put key st [] = rw (same_bytes_refl key) refl
stamps_of-put key st (b ∷ bs) = elim (Bool-cases (same_bytes b.0 key)) [
  | inl h ↦ rw (h, h) refl
  | inr h ↦ rw (h, h) (stamps_of-put key st bs)
]

stamps_of_other :
    (key other : Bytes) (st : List ℕ) (bs : Buckets)
    → same_bytes other key ≡ false
    → stamps_of key (put other st bs) ≡ stamps_of key bs
unfolding stamps_of put
stamps_of_other key other st [] h = rw h refl
stamps_of_other key other st (b ∷ bs) h = elim (Bool-cases (same_bytes b.0 other)) [
  | inl e ↦
      let away : same_bytes b.0 key ≡ false = rw (same_bytes-eq b.0 other e) h in rw (e, away) refl
  | inr n ↦
      rw n (ap (λ st'. if same_bytes b.0 key then b.1 else st') (stamps_of_other key other st bs h))
]

length-put : (key : Bytes) (st : List ℕ) (bs : Buckets) → length (put key st bs) ≤ length bs + 1
unfolding put
length-put key st [] = omega arith
length-put key st (b ∷ bs) = elim (Bool-cases (same_bytes b.0 key)) [
  | inl h ↦ rw h (omega arith)
  | inr h ↦ rw h (omega (arith, length-put key st bs))
]

bounded_idle : (now : ℕ) (l : Limiter) → length l.buckets ≤ l.max_keys → bounded now l ≡ l.buckets
unfolding bounded
bounded_idle now l h = ground (arith, h)

own_count :
    (now window t : ℕ) (st : List ℕ)
    → t ≤ now
    → length (recent now window (recent t window st ++ t ∷ []))
      ≡ length (recent now window st) + (if is_recent now window t then 1 else 0)
own_count now window t st past =
    rw (recent-append now window (recent t window st) (t ∷ []), recent-recent t now window st past)
      (length-append (recent now window st) (recent now window (t ∷ []))
        ∙ ap (λ n. length (recent now window st) + n) (single now window t))

allow_own :
    (key : Bytes) (a : Attempt) (l : Limiter)
    → length l.buckets ≤ l.max_keys
    → a.key ≡ key
    → stamps_of key (allow a.key a.limit a.window a.at l).0.buckets
      ≡ recent a.at a.window (stamps_of key l.buckets) ++ a.at ∷ []
unfolding allow
allow_own key a l room e = rw (e, bounded_idle a.at l room) (stamps_of-put key _ l.buckets)

allow_other :
    (key : Bytes) (a : Attempt) (l : Limiter)
    → length l.buckets ≤ l.max_keys
    → same_bytes a.key key ≡ false
    → stamps_of key (allow a.key a.limit a.window a.at l).0.buckets ≡ stamps_of key l.buckets
unfolding allow
allow_other key a l room h = rw (bounded_idle a.at l room) (stamps_of_other key a.key _ l.buckets h)

allow_verdict :
    (key : Bytes) (limit window now : ℕ) (l : Limiter)
    → length l.buckets ≤ l.max_keys
    → (allow key limit window now l).1
      ≡ ltb (length (recent now window (stamps_of key l.buckets)) + 0) limit
unfolding allow
allow_verdict key limit window now l room =
    rw (bounded_idle now l room) (ap (λ n. ltb n limit) (omega arith))

-- A call of the past changes the count of a later one by itself.
count_after :
    (key : Bytes) (window now : ℕ) (a : Attempt) (l : Limiter)
    → length l.buckets ≤ l.max_keys
    → a.at ≤ now
    → (same_bytes a.key key ≡ false) ⊎ (a.window ≡ window)
    → length (recent now window (stamps_of key (allow a.key a.limit a.window a.at l).0.buckets))
      ≡ length (recent now window (stamps_of key l.buckets))
        + (if same_bytes a.key key && is_recent now window a.at then 1 else 0)
count_after key window now a l room past fits = elim (Bool-cases (same_bytes a.key key)) [
  | inl h ↦ elim fits [
    | inl away ↦ let clash : true ≡ false = sym h ∙ away in cc
    | inr w ↦ rw h (
        ap (λ st. length (recent now window st))
          (allow_own key a l room (same_bytes-eq a.key key h))
        ∙ ap
            (λ v. length (recent now window (recent a.at v (stamps_of key l.buckets) ++ a.at ∷ [])))
            w
        ∙ own_count now window a.at (stamps_of key l.buckets) past)
  ]
  | inr h ↦
      rw h (ap (λ st. length (recent now window st)) (allow_other key a l room h) ∙ omega arith)
]

room_after :
    (a : Attempt) (l : Limiter)
    → length l.buckets ≤ l.max_keys
    → length (allow a.key a.limit a.window a.at l).0.buckets ≤ length l.buckets + 1
unfolding allow
room_after a l room = rw (bounded_idle a.at l room) (length-put a.key _ l.buckets)

max_keys_after :
    (a : Attempt) (l : Limiter) → (allow a.key a.limit a.window a.at l).0.max_keys ≡ l.max_keys
unfolding allow
max_keys_after a l = refl

-- While the keys fit in the limiter, `Allow` grants an attempt exactly when fewer than `limit` of
-- the attempts for its key lie within the window before it: those that the limiter has a stamp of
-- and those of the calls since, granted and denied alike, whatever calls for other keys come
-- between. The calls are of the past, and those for the key use its window.
pub allow-attempts_in :
    (key : Bytes) (limit window now : ℕ) (attempts : List Attempt) (l : Limiter)
    → length l.buckets + length attempts ≤ l.max_keys
    → Fits key window now attempts
    → (allow key limit window now (run attempts l)).1
      ≡ ltb
          (length (recent now window (stamps_of key l.buckets))
            + attempts_in key window now attempts)
          limit
allow-attempts_in key limit window now [] l room fits =
    allow_verdict key limit window now l (omega arith)
allow-attempts_in key limit window now (a ∷ attempts) l room fits =
    let l' = (allow a.key a.limit a.window a.at l).0 in
    let step = count_after key window now a l (omega arith) fits.0 fits.1 in
    let rest =
      allow-attempts_in key limit window now attempts l'
        (omega (arith, room_after a l (omega arith), max_keys_after a l)) fits.2 in
    rest ∙ ap (λ n. ltb n limit) (omega (arith, step))
