-- ===== src/Event/Slug/Shape.antt =====
-- `Slugify` of internal/event/slug.go: what a slug looks like.
use tourney_api.Prelude.{
  ℕ, ◌≡◌, ◌≢◌, refl, sym, ap, ◌∙◌, ◌⊎◌, inl, inr, Bool, true, false, Bool-cases, [], ◌∷◌, arith,
}
use tourney_api.Event.Slug.{Runes, is_slug_rune, dash_others, trim_dash, slugify}

-- Letters, digits and single dashes between them; the flag says that a dash stands before.
abbrev pub IsSlugAfter : Bool → Runes → Type 0
IsSlugAfter last_dash [] = Unit
IsSlugAfter last_dash (r ∷ s) =
    ((is_slug_rune r ≡ true) × IsSlugAfter false s)
    ⊎ ((r ≡ 45) × (last_dash ≡ false) × (s ≢ []) × IsSlugAfter true s)

abbrev pub IsSlug : Runes → Type 0
IsSlug s = IsSlugAfter true s

trim_dash-kept : (r : ℕ) (s : Runes) → r ≢ 45 → trim_dash (r ∷ s) ≡ r ∷ trim_dash s
unfolding trim_dash
trim_dash-kept r [] ne = ground (arith, ne)
trim_dash-kept r (q ∷ s) ne = refl

slug_rune_ne : (r : ℕ) → is_slug_rune r ≡ true → r ≢ 45
unfolding is_slug_rune
slug_rune_ne r h e = ground (arith, h, e)

-- After a dash the loop stops or goes on with a letter or digit.
starts :
    (s : Runes)
    → (dash_others true s ≡ [])
      ⊎ ((r : ℕ) × (rest : Runes) × (dash_others true s ≡ r ∷ rest) × (is_slug_rune r ≡ true))
unfolding dash_others
starts [] = inl refl
starts (r ∷ s) = elim (Bool-cases (is_slug_rune r)) [
  | inl fits ↦ inr (r, dash_others false s, rw (dash_others, fits) refl, fits)
  | inr other ↦ rw (dash_others, other) (starts s)
]

trim_dash-more :
    (r : ℕ) (s : Runes) (q : ℕ) (rest : Runes) → s ≡ q ∷ rest → trim_dash (r ∷ s) ≡ r ∷ trim_dash s
unfolding trim_dash
trim_dash-more r [] q rest e = let no_rune : ⊥ = ground (arith, e) in elim no_rune [ ]
trim_dash-more r (x ∷ s) q rest e = refl

not_empty :
    (s : Runes) (q : ℕ) (rest : Runes) → s ≡ q ∷ rest → is_slug_rune q ≡ true → trim_dash s ≢ []
not_empty s q rest e fits none_left =
    let clash =
      sym (trim_dash-kept q rest (slug_rune_ne q fits)) ∙ ap trim_dash (sym e) ∙ none_left in
    ground (arith, clash)

trimmed :
    (last_dash : Bool) (s : Runes) → IsSlugAfter last_dash (trim_dash (dash_others last_dash s))
unfolding dash_others trim_dash
trimmed last_dash [] = tt
trimmed true (r ∷ s) = elim (Bool-cases (is_slug_rune r)) [
  | inl fits ↦
      rw (dash_others, fits, trim_dash-kept r (dash_others false s) (slug_rune_ne r fits))
        (inl (fits, trimmed false s))
  | inr other ↦ rw (dash_others, other) (trimmed true s)
]
trimmed false (r ∷ s) = elim (Bool-cases (is_slug_rune r)) [
  | inl fits ↦
      rw (dash_others, fits, trim_dash-kept r (dash_others false s) (slug_rune_ne r fits))
        (inl (fits, trimmed false s))
  | inr other ↦ elim (starts s) [
    | inl stops ↦ rw (dash_others, other, stops) tt
    | inr (q, rest, e, fits) ↦
        rw (dash_others, other, trim_dash-more 45 (dash_others true s) q rest e)
          (inr (refl, refl, not_empty (dash_others true s) q rest e fits, trimmed true s))
  ]
]

-- What `Slugify` returns has letters and digits only, and single dashes between two of them: none at
-- either end and no two in a row.
pub slugify-IsSlug : (fold : Runes → Runes) (name : Runes) → IsSlug (slugify fold name)
unfolding slugify
slugify-IsSlug fold name = trimmed true (fold name)
