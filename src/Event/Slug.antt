-- ===== src/Event/Slug.antt =====
-- internal/event/slug.go: the slug of a division. A text is the list of its runes. The accents
-- dropped by golang.org/x/text and the case folding of `strings.ToLower` follow Unicode's tables:
-- together they are the parameter `fold`. The set of slugs that are taken is a list.
mod Tests
pub mod Shape
pub mod Free
use tourney_api.Prelude.{
  ℕ, zero, suc, ◌+◌, ◌/◌, ◌%◌, Bool, true, false, not, ◌&&◌, ◌||◌, Option, none, some, List, [],
  ◌∷◌, ◌++◌, ltb, leb, ◌==◌, if◌then◌else◌, length,
}
use tourney_api.Auth.Email.{same_bytes}

abbrev pub Runes : Type 0
Runes = List ℕ

pub is_slug_rune : ℕ → Bool
is_slug_rune r = (leb 97 r && leb r 122) || (leb 48 r && leb r 57)

-- The loop; the flag is `lastDash`.
pub dash_others : Bool → Runes → Runes
dash_others last_dash [] = []
dash_others last_dash (r ∷ s) = elim (is_slug_rune r) [
  | true ↦ r ∷ dash_others false s
  | false ↦ elim last_dash [ true ↦ dash_others true s | false ↦ 45 ∷ dash_others true s ]
]

-- `strings.TrimSuffix(s, "-")`.
pub trim_dash : Runes → Runes
trim_dash [] = []
trim_dash (r ∷ []) = if r == 45 then [] else r ∷ []
trim_dash (r ∷ q ∷ s) = r ∷ trim_dash (q ∷ s)

-- `schedule`, `players`, `participants`, `matches`, `bracket`, `groups`, `about`, `admin`, `api`.
abbrev pub reserved_slugs : List Runes
reserved_slugs =
    (115 ∷ 99 ∷ 104 ∷ 101 ∷ 100 ∷ 117 ∷ 108 ∷ 101 ∷ [])
    ∷ (112 ∷ 108 ∷ 97 ∷ 121 ∷ 101 ∷ 114 ∷ 115 ∷ [])
    ∷ (112 ∷ 97 ∷ 114 ∷ 116 ∷ 105 ∷ 99 ∷ 105 ∷ 112 ∷ 97 ∷ 110 ∷ 116 ∷ 115 ∷ [])
    ∷ (109 ∷ 97 ∷ 116 ∷ 99 ∷ 104 ∷ 101 ∷ 115 ∷ [])
    ∷ (98 ∷ 114 ∷ 97 ∷ 99 ∷ 107 ∷ 101 ∷ 116 ∷ [])
    ∷ (103 ∷ 114 ∷ 111 ∷ 117 ∷ 112 ∷ 115 ∷ [])
    ∷ (97 ∷ 98 ∷ 111 ∷ 117 ∷ 116 ∷ [])
    ∷ (97 ∷ 100 ∷ 109 ∷ 105 ∷ 110 ∷ [])
    ∷ (97 ∷ 112 ∷ 105 ∷ [])
    ∷ []

pub is_in : Runes → List Runes → Bool
is_in c [] = false
is_in c (t ∷ taken) = same_bytes t c || is_in c taken

abbrev pub is_blocked : List Runes → Runes → Bool
is_blocked taken c = is_in c (taken ++ reserved_slugs)

-- `strconv.Itoa`, with its argument as fuel.
pub itoa_from : ℕ → ℕ → Runes
itoa_from zero n = (48 + n) ∷ []
itoa_from (suc fuel) n =
    if ltb n 10 then (48 + n) ∷ [] else itoa_from fuel (n / 10) ++ (48 + n % 10) ∷ []

pub itoa : ℕ → Runes
itoa n = itoa_from n n

pub numbered : Runes → ℕ → Runes
numbered base n = base ++ 45 ∷ itoa n

-- The unbounded loop, from `n` on, for at most `fuel` rounds.
pub first_free : ℕ → List Runes → Runes → ℕ → Option Runes
first_free zero taken base n = none
first_free (suc fuel) taken base n =
    let rest = first_free fuel taken base (n + 1) in
    if is_blocked taken (numbered base n) then rest else some (numbered base n)

abbrev pub or_division : Runes → Runes
or_division [] = 100 ∷ 105 ∷ 118 ∷ 105 ∷ 115 ∷ 105 ∷ 111 ∷ 110 ∷ []
or_division (r ∷ s) = r ∷ s

-- The first candidate that is free.
pub pick : List Runes → List Runes → Option Runes
pick taken [] = none
pick taken (c ∷ candidates) =
    let rest = pick taken candidates in if is_blocked taken c then rest else some c

module _ (fold : Runes → Runes) where
  pub slugify : Runes → Runes
  slugify s = trim_dash (dash_others true (fold s))

  -- The slug with the category, if there is one and it says more.
  pub qualified : Runes → Runes → Runes → List Runes
  qualified base name [] = []
  qualified base name (r ∷ category) = elim (slugify (name ++ 32 ∷ r ∷ category)) [
    | [] ↦ []
    | x ∷ rest ↦ if same_bytes (x ∷ rest) base then [] else (x ∷ rest) ∷ []
  ]

  -- One more round than there are slugs to avoid.
  pub build_slug : Runes → Runes → List Runes → Option Runes
  build_slug name category taken =
      let base = or_division (slugify name) in
      elim (pick taken (base ∷ qualified base name category)) [
        | some c ↦ some c
        | none ↦ first_free (suc (length (taken ++ reserved_slugs))) taken base 2
      ]
