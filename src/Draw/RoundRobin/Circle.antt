-- ===== src/Draw/RoundRobin/Circle.antt =====
-- `GenerateRoundRobin` of internal/draw/round_robin.go: how many matches it makes.
use tourney_api.Prelude.{
  ℕ, zero, suc, ◌+◌, ◌-◌, ◌*◌, ◌/◌, ◌%◌, ◌≤◌, ◌≡◌, refl, ap, sym, ◌∙◌, inl, inr, Bool-cases, Option,
  none, some, List, [], ◌∷◌, ◌++◌, map, ltb, ◌==◌, length, length-append, length-map, take, drop,
  take-append-drop, length-drop, arith,
}
use mathlib.Core.List.{reverse, reverse-cons, reverse-append}
use tourney_api.Draw.{Entry}
use tourney_api.Draw.RoundRobin.{
  round_matches, last_first, rotate, play_rounds, circle_of, generate_round_robin,
}

-- The byes of a circle.
abbrev pub byes : List (Option Entry) → ℕ
byes [] = 0
byes (none ∷ xs) = suc (byes xs)
byes (some e ∷ xs) = byes xs

byes-append : (xs ys : List (Option Entry)) → byes (xs ++ ys) ≡ byes xs + byes ys
byes-append [] ys = omega arith
byes-append (none ∷ xs) ys = omega (arith, byes-append xs ys)
byes-append (some e ∷ xs) ys = byes-append xs ys

byes-reverse : (xs : List (Option Entry)) → byes (reverse xs) ≡ byes xs
byes-reverse [] = refl
byes-reverse (none ∷ xs) =
    rw (reverse-cons none xs) (omega (arith, byes-append (reverse xs) (none ∷ []), byes-reverse xs))
byes-reverse (some e ∷ xs) =
    rw (reverse-cons (some e) xs)
      (omega (arith, byes-append (reverse xs) (some e ∷ []), byes-reverse xs))

length-reverse : (xs : List (Option Entry)) → length (reverse xs) ≡ length xs
length-reverse [] = refl
length-reverse (x ∷ xs) =
    rw (reverse-cons x xs) (omega (arith, length-append (reverse xs) (x ∷ []), length-reverse xs))

-- A round has a match for each place but those of a bye, where no place has two.
length-round_matches :
    (n r k : ℕ) (front back : List (Option Entry))
    → n ≤ length front
    → n ≤ length back
    → byes (take n front) + byes (take n back) ≤ 1
    → length (round_matches n r k front back) + (byes (take n front) + byes (take n back)) ≡ n
unfolding round_matches
length-round_matches zero r k front back hf hb one = omega arith
length-round_matches (suc n) r k [] back hf hb one =
    let no_place : ⊥ = omega arith in elim no_place [ ]
length-round_matches (suc n) r k (a ∷ front) [] hf hb one =
    let no_place : ⊥ = omega arith in elim no_place [ ]
length-round_matches (suc n) r k (none ∷ front) (none ∷ back) hf hb one =
    let no_place : ⊥ = omega arith in elim no_place [ ]
length-round_matches (suc n) r k (none ∷ front) (some y ∷ back) hf hb one =
    omega (arith, length-round_matches n r k front back (omega arith) (omega arith) (omega arith))
length-round_matches (suc n) r k (some x ∷ front) (none ∷ back) hf hb one =
    omega (arith, length-round_matches n r k front back (omega arith) (omega arith) (omega arith))
length-round_matches (suc n) r k (some x ∷ front) (some y ∷ back) hf hb one =
    omega
      (arith, length-round_matches n r (k + 1) front back (omega arith) (omega arith) (omega arith))

length-last_first :
    (a : Option Entry) (xs : List (Option Entry)) → length (last_first a xs) ≡ length xs + 1
unfolding last_first
length-last_first a [] = omega arith
length-last_first a (x ∷ xs) = omega (arith, length-reverse xs)

byes-last_first :
    (a : Option Entry) (xs : List (Option Entry)) → byes (last_first a xs) ≡ byes (a ∷ xs)
unfolding last_first
byes-last_first none [] = refl
byes-last_first (some e) [] = refl
byes-last_first none (none ∷ xs) = omega (arith, byes-reverse xs)
byes-last_first none (some x ∷ xs) = omega (arith, byes-reverse xs)
byes-last_first (some e) (none ∷ xs) = omega (arith, byes-reverse xs)
byes-last_first (some e) (some x ∷ xs) = omega (arith, byes-reverse xs)

rotate_counts :
    (xs : List (Option Entry)) → (length (rotate xs) ≡ length xs) × (byes (rotate xs) ≡ byes xs)
unfolding rotate
rotate_counts [] = (refl, refl)
rotate_counts (none ∷ xs) = (
  omega (arith, length-last_first none (reverse xs), length-reverse xs),
  omega (arith, byes-last_first none (reverse xs), byes-reverse xs),
)
rotate_counts (some e ∷ xs) = (
  omega (arith, length-last_first (some e) (reverse xs), length-reverse xs),
  omega (arith, byes-last_first (some e) (reverse xs), byes-reverse xs),
)

take-append_self : (n : ℕ) (xs ys : List (Option Entry)) → length xs ≡ n → take n (xs ++ ys) ≡ xs
take-append_self zero [] ys e = refl
take-append_self zero (x ∷ xs) ys e = let no_item : ⊥ = omega arith in elim no_item [ ]
take-append_self (suc n) [] ys e = let no_item : ⊥ = omega arith in elim no_item [ ]
take-append_self (suc n) (x ∷ xs) ys e = ap (λ l. x ∷ l) (take-append_self n xs ys (omega arith))

-- The front half of a circle of `h + h` places, and the back half read from the end, are the circle.
byes_halves :
    (h : ℕ) (circle : List (Option Entry))
    → length circle ≡ h + h
    → byes (take h circle) + byes (take h (reverse circle)) ≡ byes circle
byes_halves h circle e =
    let front = take h circle in
    let back = drop h circle in
    let whole = take-append-drop h circle in
    let turned : take h (reverse circle) ≡ reverse back =
      ap (λ l. take h (reverse l)) (sym whole)
      ∙ ap (take h) (reverse-append front back)
      ∙ take-append_self h (reverse back) (reverse front)
          (omega (arith, length-reverse back, length-drop h circle)) in
    omega (arith, ap byes turned, byes-reverse back, byes-append front back, ap byes whole)

round_and_rest :
    (n b h round rest all : ℕ)
    → all ≡ round + rest
    → round + b ≡ h
    → rest + n * b ≡ n * h
    → all + suc n * b ≡ suc n * h
round_and_rest n b h round rest all e f g = grind arith

length-play_rounds :
    (n r h b : ℕ) (circle : List (Option Entry))
    → length circle ≡ h + h
    → byes circle ≡ b
    → b ≤ 1
    → length (play_rounds n r circle) + n * b ≡ n * h
unfolding play_rounds
length-play_rounds zero r h b circle e f one = omega arith
length-play_rounds (suc n) r h b circle e f one =
    let back = reverse circle in
    let half : length circle / 2 ≡ h = omega arith in
    let (same_length, same_byes) = rotate_counts circle in
    let rest =
      length-play_rounds n (r + 1) h b (rotate circle) (same_length ∙ e) (same_byes ∙ f) one in
    let halves = byes_halves h circle e in
    let round =
      length-round_matches h r 0 circle back (omega arith) (omega (arith, length-reverse circle))
        (omega (arith, halves)) in
    rw half (
      round_and_rest n b h (length (round_matches h r 0 circle back))
        (length (play_rounds n (r + 1) (rotate circle))) _
        (length-append (round_matches h r 0 circle back) (play_rounds n (r + 1) (rotate circle)))
        (omega (arith, round, halves)) rest)

circle_counts :
    (entries : List Entry)
    → (length (circle_of entries) ≡ length entries + length entries % 2)
      × (byes (circle_of entries) ≡ length entries % 2)
unfolding circle_of
circle_counts entries = elim (Bool-cases (length entries % 2 == 1)) [
  | inl odd ↦
      let is_odd : length entries % 2 ≡ 1 = ground arith in
      rw odd (
        omega (arith, length-append (map some entries) (none ∷ []), length-map entries some),
        omega (arith, byes-append (map some entries) (none ∷ []), byes-some entries),
      )
  | inr even ↦
      let is_even : length entries % 2 ≡ 0 = ground (arith, even) in
      rw even (omega (arith, length-map entries some), omega (arith, byes-some entries))
]
  where
    byes-some : (es : List Entry) → byes (map some es) ≡ 0
    byes-some [] = refl
    byes-some (e ∷ es) = byes-some es

-- An even number `r + 1` of entries plays `r` rounds of `h` matches.
total_even : (m r h : ℕ) → m + r * 0 ≡ r * h → suc r ≡ h + h → m * 2 ≡ suc r * r
total_even m r h e f =
    let doubled : r * (h + h) ≡ r * suc r = ap (λ x. r * x) (sym f) in grind arith

-- An odd number `r + 1` of entries plays `r + 1` rounds, in each of which one sits out.
total_odd : (m r h : ℕ) → m + suc r * 1 ≡ suc r * h → suc (suc r) ≡ h + h → m * 2 ≡ suc r * r
total_odd m r h e f =
    let doubled : suc r * (h + h) ≡ suc r * suc (suc r) = ap (λ x. suc r * x) (sym f) in grind arith

total_rounds :
    (m n b h : ℕ)
    → n % 2 ≡ b
    → 2 ≤ n
    → m + (n + b - 1) * b ≡ (n + b - 1) * h
    → n + b ≡ h + h
    → m * 2 ≡ n * (n - 1)
total_rounds m zero b h p two e f = let no_entries : ⊥ = omega arith in elim no_entries [ ]
total_rounds m (suc r) zero h p two e f =
    let rounds : suc r + 0 - 1 ≡ r = omega arith in
    let before : suc r - 1 ≡ r = omega arith in
    rw before (total_even m r h (rw (sym rounds) e) (omega (arith, f)))
total_rounds m (suc r) (suc zero) h p two e f =
    let rounds : suc r + 1 - 1 ≡ suc r = omega arith in
    let before : suc r - 1 ≡ r = omega arith in
    rw before (total_odd m r h (rw (sym rounds) e) (omega (arith, f)))
total_rounds m (suc r) (suc (suc b)) h p two e f = let no_rest : ⊥ = omega arith in elim no_rest [ ]

-- A round robin of `n` entries has as many matches as there are pairs of them, an odd number of
-- entries included: `n * (n - 1) / 2`.
pub length-generate_round_robin :
    (entries : List Entry)
    → length (generate_round_robin entries) * 2 ≡ length entries * (length entries - 1)
unfolding generate_round_robin
length-generate_round_robin entries = elim (Bool-cases (ltb (length entries) 2)) [
  | inl few ↦ rw few (few_entries (length entries) (ground (arith, few)))
  | inr enough ↦
      let two : 2 ≤ length entries = ground (arith, enough) in
      let (size, rest) = circle_counts entries in
      let half = (length entries + length entries % 2) / 2 in
      let halves : length entries + length entries % 2 ≡ half + half = omega arith in
      let rounds = length entries + length entries % 2 - 1 in
      let played : length (play_rounds rounds 1 (circle_of entries)) + rounds * (length entries % 2)
          ≡ rounds * half =
        length-play_rounds rounds 1 half (length entries % 2) (circle_of entries)
          (omega (arith, size, halves)) rest (omega arith) in
      rw (enough, size)
        (total_rounds (length (play_rounds rounds 1 (circle_of entries))) (length entries)
          (length entries % 2) half refl two played halves)
]
  where
    few_entries : (n : ℕ) → n ≤ 1 → 0 * 2 ≡ n * (n - 1)
    few_entries zero le = refl
    few_entries (suc zero) le = refl
    few_entries (suc (suc n)) le = let no_more : ⊥ = omega arith in elim no_more [ ]
