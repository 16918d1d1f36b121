-- ===== src/Auth/Email.antt =====
-- internal/auth/email.go: one spelling of an address, over its bytes. `strings.TrimSpace` and
-- `strings.ToLower` are written out for ASCII.
use tourney_api.Prelude.{
  ℕ, ◌+◌, ◌≡◌, refl, ap, inl, inr, Bool, Bool-cases, true, false, ◌&&◌, ◌||◌, List, [], ◌∷◌, map,
  leb, ◌==◌, if◌then◌else◌, arith,
}

abbrev pub Bytes : Type 0
Bytes = List ℕ

unfoldable pub is_space : ℕ → Bool
is_space c = c == 32 || (leb 9 c && leb c 13)

unfoldable pub trim_left : Bytes → Bytes
trim_left [] = []
trim_left (c ∷ s) = let rest = trim_left s in if is_space c then rest else c ∷ s

unfoldable pub put_before : ℕ → Bytes → Bytes
put_before c [] = if is_space c then [] else c ∷ []
put_before c (d ∷ rest) = c ∷ d ∷ rest

-- What stands before the trailing white space.
unfoldable pub trim_right : Bytes → Bytes
trim_right [] = []
trim_right (c ∷ s) = put_before c (trim_right s)

unfoldable pub lower_byte : ℕ → ℕ
lower_byte c = if leb 65 c && leb c 90 then c + 32 else c

unfoldable pub normalize_email : Bytes → Bytes
normalize_email email = map lower_byte (trim_right (trim_left email))

unfoldable pub same_bytes : Bytes → Bytes → Bool
same_bytes [] [] = true
same_bytes [] (d ∷ t) = false
same_bytes (c ∷ s) [] = false
same_bytes (c ∷ s) (d ∷ t) = c == d && same_bytes s t

pub same_bytes_refl : (s : Bytes) → same_bytes s s ≡ true
unfolding same_bytes
same_bytes_refl [] = refl
same_bytes_refl (c ∷ s) = ground (arith, same_bytes_refl s)

pub same_bytes-eq : (s t : Bytes) → same_bytes s t ≡ true → s ≡ t
unfolding same_bytes
same_bytes-eq [] [] h = refl
same_bytes-eq [] (d ∷ t) h = ground arith
same_bytes-eq (c ∷ s) [] h = ground arith
same_bytes-eq (c ∷ s) (d ∷ t) h =
    let same : c ≡ d = ground (arith, h) in let rest = same_bytes-eq s t (ground (arith, h)) in cc

is_space-lower : (c : ℕ) → is_space (lower_byte c) ≡ is_space c
unfolding is_space lower_byte
is_space-lower c = ground arith

lower-lower : (c : ℕ) → lower_byte (lower_byte c) ≡ lower_byte c
unfolding lower_byte
lower-lower c = ground arith

map-lower-lower : (s : Bytes) → map lower_byte (map lower_byte s) ≡ map lower_byte s
map-lower-lower [] = refl
map-lower-lower (c ∷ s) = rw (lower-lower c, map-lower-lower s) refl

trim_left-lower : (s : Bytes) → trim_left (map lower_byte s) ≡ map lower_byte (trim_left s)
unfolding trim_left
trim_left-lower [] = refl
trim_left-lower (c ∷ s) = elim (Bool-cases (is_space c)) [
  | inl h ↦ rw (is_space-lower c, h) (trim_left-lower s)
  | inr h ↦ rw (is_space-lower c, h) refl
]

put_before-lower :
    (c : ℕ) (s : Bytes)
    → put_before (lower_byte c) (map lower_byte s) ≡ map lower_byte (put_before c s)
unfolding put_before
put_before-lower c [] = elim (Bool-cases (is_space c)) [
  | inl h ↦ rw (is_space-lower c, h) refl
  | inr h ↦ rw (is_space-lower c, h) refl
]
put_before-lower c (d ∷ s) = refl

trim_right-lower : (s : Bytes) → trim_right (map lower_byte s) ≡ map lower_byte (trim_right s)
unfolding trim_right
trim_right-lower [] = refl
trim_right-lower (c ∷ s) = rw (trim_right-lower s) (put_before-lower c (trim_right s))

trim_right-put_before :
    (c : ℕ) (s : Bytes) → trim_right s ≡ s → trim_right (put_before c s) ≡ put_before c s
unfolding trim_right put_before
trim_right-put_before c [] e = elim (Bool-cases (is_space c)) [
  | inl h ↦ rw h refl
  | inr h ↦ rw (h, h) refl
]
trim_right-put_before c (d ∷ s) e = ap (put_before c) e

trim_right-trim_right : (s : Bytes) → trim_right (trim_right s) ≡ trim_right s
unfolding trim_right
trim_right-trim_right [] = refl
trim_right-trim_right (c ∷ s) = trim_right-put_before c (trim_right s) (trim_right-trim_right s)

trim_left-put_before :
    (c : ℕ) (s : Bytes) → is_space c ≡ false → trim_left (put_before c s) ≡ put_before c s
unfolding trim_left put_before
trim_left-put_before c [] h = rw (h, h) refl
trim_left-put_before c (d ∷ s) h = rw h refl

trim_left-trim : (s : Bytes) → trim_left (trim_right (trim_left s)) ≡ trim_right (trim_left s)
unfolding trim_left trim_right
trim_left-trim [] = refl
trim_left-trim (c ∷ s) = elim (Bool-cases (is_space c)) [
  | inl h ↦ rw h (trim_left-trim s)
  | inr h ↦ rw h (trim_left-put_before c (trim_right s) h)
]

-- A normalized address stays as it is.
pub normalize_email-normalize_email :
    (email : Bytes) → normalize_email (normalize_email email) ≡ normalize_email email
unfolding normalize_email
normalize_email-normalize_email email =
    let x = trim_right (trim_left email) in
    rw
      (
        trim_left-lower x,
        trim_left-trim email,
        trim_right-lower x,
        trim_right-trim_right (trim_left email),
      )
      (map-lower-lower x)
