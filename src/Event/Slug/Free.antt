-- ===== src/Event/Slug/Free.antt =====
-- `buildSlug` of internal/event/slug.go: its unbounded loop ends, with a slug that is free.
use tourney_api.Prelude.{
  ℕ, zero, suc, ◌+◌, ◌-◌, ◌*◌, ◌/◌, ◌%◌, ◌≡◌, ◌≢◌, ◌≤◌, ◌<◌, refl, sym, ap, ◌∙◌, ◌⊎◌, inl, inr,
  Bool, true, false, Bool-cases, ◌||◌, none, some, List, [], ◌∷◌, ◌++◌, ltb, if◌then◌else◌, length,
  arith,
}
use mathlib.Core.Path.{subst}
use tourney_api.Prelude.Decide.{ℕ-cases}
use tourney_api.Auth.Email.{same_bytes, same_bytes-eq}
use tourney_api.Event.Slug.{
  Runes, reserved_slugs, is_in, is_blocked, itoa_from, itoa, numbered, first_free, or_division,
  slugify, qualified, pick, build_slug,
}

-- The number that digits denote, after a number.
value : ℕ → Runes → ℕ
value acc [] = acc
value acc (r ∷ s) = value (acc * 10 + (r - 48)) s

value-append : (acc : ℕ) (s : Runes) (c : ℕ) → value acc (s ++ c ∷ []) ≡ value acc s * 10 + (c - 48)
unfolding value
value-append acc [] c = refl
value-append acc (r ∷ s) c = value-append (acc * 10 + (r - 48)) s c

value-itoa_from : (fuel n : ℕ) → n ≤ fuel → value 0 (itoa_from fuel n) ≡ n
unfolding value itoa_from
value-itoa_from zero n le = omega arith
value-itoa_from (suc fuel) n le = elim (Bool-cases (ltb n 10)) [
  | inl small ↦ rw small (omega arith)
  | inr big ↦
      let ten : 10 ≤ n = ground (arith, big) in
      rw big (
        omega (
          arith,
          value-append 0 (itoa_from fuel (n / 10)) (48 + n % 10),
          value-itoa_from fuel (n / 10) (omega arith),
        ))
]

itoa_injective : (m n : ℕ) → itoa m ≡ itoa n → m ≡ n
unfolding itoa
itoa_injective m n e =
    sym (value-itoa_from m m (omega arith)) ∙ ap (value 0) e ∙ value-itoa_from n n (omega arith)

abbrev after : Runes → Runes
after [] = []
after (r ∷ s) = s

numbered_injective : (base : Runes) (m n : ℕ) → numbered base m ≡ numbered base n → m ≡ n
unfolding numbered
numbered_injective [] m n e = itoa_injective m n (ap after e)
numbered_injective (r ∷ base) m n e = numbered_injective base m n (ap after e)

remove : Runes → List Runes → List Runes
remove c [] = []
remove c (t ∷ taken) = if same_bytes t c then taken else t ∷ remove c taken

length-remove :
    (c : Runes) (taken : List Runes)
    → is_in c taken ≡ true
    → suc (length (remove c taken)) ≡ length taken
unfolding remove is_in
length-remove c [] h = let no_slug : ⊥ = ground (arith, h) in elim no_slug [ ]
length-remove c (t ∷ taken) h = elim (Bool-cases (same_bytes t c)) [
  | inl here ↦ rw here refl
  | inr elsewhere ↦
      rw elsewhere (omega (arith, length-remove c taken (ground (arith, h, elsewhere))))
]

is_in-remove :
    (c d : Runes) (taken : List Runes)
    → d ≢ c
    → is_in d taken ≡ true
    → is_in d (remove c taken) ≡ true
unfolding remove is_in
is_in-remove c d [] ne h = h
is_in-remove c d (t ∷ taken) ne h = elim (Bool-cases (same_bytes t c)) [
  | inl here ↦ elim (Bool-cases (same_bytes t d)) [
    | inl also ↦ absurd (ne (sym (same_bytes-eq t d also) ∙ same_bytes-eq t c here))
    | inr other ↦ rw here (ground (arith, h, other))
  ]
  | inr elsewhere ↦ rw elsewhere (ground (arith, h, is_in-remove c d taken ne))
]

-- Numbered slugs that all stand in a list are no more than it is long.
crowded :
    (k n : ℕ) (base : Runes) (taken : List Runes)
    → ((i : ℕ) → n ≤ i → i < n + k → is_in (numbered base i) taken ≡ true)
    → k ≤ length taken
crowded zero n base taken each = omega arith
crowded (suc k) n base taken each =
    let here = each n (omega arith) (omega arith) in
    let rest = crowded k (n + 1) base (remove (numbered base n) taken) (λ i lo hi.
      is_in-remove (numbered base n) (numbered base i) taken
        (λ e. let same = numbered_injective base i n e in let no_step : ⊥ = omega arith in no_step)
        (each i (omega arith) (omega arith))) in
    omega (arith, rest, length-remove (numbered base n) taken here)

first_free-cases :
    (k n : ℕ) (taken : List Runes) (base : Runes)
    → ((c : Runes) × (first_free k taken base n ≡ some c) × (is_blocked taken c ≡ false))
      ⊎ ((i : ℕ) → n ≤ i → i < n + k → is_blocked taken (numbered base i) ≡ true)
unfolding first_free
first_free-cases zero n taken base =
    inr (λ i lo hi. let no_step : ⊥ = omega arith in elim no_step [ ])
first_free-cases (suc k) n taken base = elim (Bool-cases (is_blocked taken (numbered base n))) [
  | inr open_ ↦ inl (numbered base n, rw (first_free, open_) refl, open_)
  | inl blocked ↦ elim (first_free-cases k (n + 1) taken base) [
    | inl (c, e, open_) ↦ inl (c, rw (first_free, blocked) e, open_)
    | inr each ↦ inr (λ i lo hi. elim (ℕ-cases n i) [
      | inl same ↦ subst (λ j. is_blocked taken (numbered base j) ≡ true) same blocked
      | inr ne ↦ each i (omega arith) (omega arith)
    ])
  ]
]

pick-cases :
    (taken candidates : List Runes)
    → ((c : Runes) × (pick taken candidates ≡ some c) × (is_blocked taken c ≡ false))
      ⊎ (pick taken candidates ≡ none)
unfolding pick
pick-cases taken [] = inr refl
pick-cases taken (c ∷ candidates) = elim (Bool-cases (is_blocked taken c)) [
  | inr open_ ↦ inl (c, rw (pick, open_) refl, open_)
  | inl blocked ↦ rw (pick, blocked) (pick-cases taken candidates)
]

is_in-append : (c : Runes) (xs ys : List Runes) → is_in c (xs ++ ys) ≡ is_in c xs || is_in c ys
unfolding is_in
is_in-append c [] ys = refl
is_in-append c (x ∷ xs) ys = ground (arith, is_in-append c xs ys)

open_sides :
    (taken : List Runes) (c : Runes)
    → is_blocked taken c ≡ false
    → (is_in c taken ≡ false) × (is_in c reserved_slugs ≡ false)
open_sides taken c h =
    let sides = sym (is_in-append c taken reserved_slugs) ∙ h in neither _ _ sides
  where
    neither : (a b : Bool) → a || b ≡ false → (a ≡ false) × (b ≡ false)
    neither a b e = ground (arith, e)

-- `buildSlug` ends: its loop needs no more rounds than there are slugs to avoid and one. The slug
-- that it returns is not taken and is not a reserved word.
pub build_slug_lem :
    (fold : Runes → Runes) (name category : Runes) (taken : List Runes)
    → (c : Runes) × (build_slug fold name category taken ≡ some c)
      × (is_in c taken ≡ false)
      × (is_in c reserved_slugs ≡ false)
unfolding build_slug
build_slug_lem fold name category taken =
    let base = or_division (slugify fold name) in
    let avoid = taken ++ reserved_slugs in
    elim (pick-cases taken (base ∷ qualified fold base name category)) [
      | inl (c, e, open_) ↦
          let (free, allowed) = open_sides taken c open_ in
          (c, rw (build_slug, e) refl, free, allowed)
      | inr none_free ↦ elim (first_free-cases (suc (length avoid)) 2 taken base) [
        | inl (c, e, open_) ↦
            let (free, allowed) = open_sides taken c open_ in
            (c, rw (build_slug, none_free) e, free, allowed)
        | inr each ↦
            let few = crowded (suc (length avoid)) 2 base avoid each in
            let no_room : ⊥ = omega arith in elim no_room [ ]
      ]
    ]
