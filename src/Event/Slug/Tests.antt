-- ===== src/Event/Slug/Tests.antt =====
-- Slugs of internal/event/slug.go: a name that is taken, with its second number too.
use tourney_api.Prelude.{◌≡◌, false, some, List, [], ◌∷◌, map}
use tourney_api.Auth.Email.{lower_byte}
use tourney_api.Event.Slug.{Runes, reserved_slugs, is_in, slugify, build_slug}
use tourney_api.Event.Slug.Shape.{IsSlug, slugify-IsSlug}
use tourney_api.Event.Slug.Free.{build_slug_lem}

-- "API", a reserved word.
abbrev name : Runes
name = 65 ∷ 80 ∷ 73 ∷ []

-- "api-2".
abbrev taken : List Runes
taken = (97 ∷ 112 ∷ 105 ∷ 45 ∷ 50 ∷ []) ∷ []

build_slug_lem_example :
    (c : Runes) × (build_slug (map lower_byte) name [] taken ≡ some c)
    × (is_in c taken ≡ false)
    × (is_in c reserved_slugs ≡ false)
build_slug_lem_example = build_slug_lem (map lower_byte) name [] taken

slugify-IsSlug_example : IsSlug (slugify (map lower_byte) (32 ∷ 65 ∷ 38 ∷ 32 ∷ 66 ∷ 33 ∷ []))
slugify-IsSlug_example = slugify-IsSlug (map lower_byte) (32 ∷ 65 ∷ 38 ∷ 32 ∷ 66 ∷ 33 ∷ [])
