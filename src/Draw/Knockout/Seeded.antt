-- ===== src/Draw/Knockout/Seeded.antt =====
-- internal/draw/group_knockout.go: the generator of a group stage by seeds, which only its tests
-- call. `letter` is the text of rune('A'+i); a count below 0 is refused as 0 is.
mod Tests
use tourney_api.Prelude.{
  ℕ, zero, suc, ◌+◌, ◌-◌, ◌*◌, ◌/◌, ◌%◌, ◌^◌, Bool, true, false, ◌||◌, Option, none, some, List, [],
  ◌∷◌, ◌++◌, map, ltb, ◌==◌, if◌then◌else◌, length, modify, replicate, String,
}
use Prim.Native.String
use tourney_api.Draw.{Entry, Slot, Match, empty_slot, bye_slot}
use tourney_api.Draw.Build.{is_empty_text}
use tourney_api.Draw.RoundRobin.{generate_round_robin}
use tourney_api.Draw.Knockout.{build_knockout_from_slots, in_group, after_groups}

-- An entry without a seed comes last.
abbrev seed_key : Entry → ℕ
seed_key e = if e.seed == 0 then 2 ^ 30 else e.seed

-- The inner loop: an entry goes left past those with a greater key.
insert_seed : Entry → List Entry → List Entry
insert_seed e [] = e ∷ []
insert_seed e (x ∷ xs) =
    let rest = insert_seed e xs in if ltb (seed_key e) (seed_key x) then e ∷ x ∷ xs else x ∷ rest

sort_from : List Entry → List Entry → List Entry
sort_from sorted [] = sorted
sort_from sorted (e ∷ entries) = sort_from (insert_seed e sorted) entries

sort_by_seed : List Entry → List Entry
sort_by_seed entries = sort_from [] entries

-- The group of entry `i` among `n`: every other pass goes back.
pub snake_position : ℕ → ℕ → ℕ
snake_position n i = if (i / n) % 2 == 1 then n - 1 - i % n else i % n

deal : ℕ → ℕ → List Entry → List (List Entry) → List (List Entry)
deal n i [] groups = groups
deal n i (e ∷ order) groups =
    deal n (suc i) order (modify (snake_position n i) (λ g. g ++ e ∷ []) groups)

-- The round robins, from group `g` on.
robin_matches : ℕ → List (List Entry) → List Match
robin_matches g [] = []
robin_matches g (entries ∷ groups) =
    map (in_group g) (generate_round_robin entries) ++ robin_matches (suc g) groups

label_slot : String → Slot
label_slot label =
    if is_empty_text label then bye_slot else record empty_slot { source_label = label }

-- The configuration, `GroupKnockoutConfig`.
record GroupKnockoutConfig : Type 0 where
  groups : ℕ
  advance : ℕ

module _ (letter : ℕ → String) where
  pub group_label : String → ℕ → String
  group_label place g = String.◌++◌ place (String.◌++◌ " Group " (letter g))

  -- The loop over the groups, from `g` on, `n` of `count` left.
  pub labels_from : ℕ → ℕ → ℕ → ℕ → List String
  labels_from count advance g zero = []
  labels_from count advance g (suc n) =
      group_label "Winner" g
        ∷ (if ltb 1 advance then group_label "Runner-up" ((g + 1) % count) ∷ [] else [])
      ++ labels_from count advance (suc g) n

  pub knockout_seed_labels : ℕ → ℕ → List String
  knockout_seed_labels count advance = labels_from count advance 0 count

  build_knockout_from_labels : List String → List Match
  build_knockout_from_labels labels = build_knockout_from_slots (map label_slot labels)

  generate_group_knockout : List Entry → GroupKnockoutConfig → List Match
  generate_group_knockout entries cfg =
      let n = length entries in
      let total = cfg.groups * cfg.advance in
      let dealt = deal cfg.groups 0 (sort_by_seed entries) (replicate cfg.groups []) in
      let matches = robin_matches 0 dealt in
      let labels = knockout_seed_labels cfg.groups cfg.advance in
      if ltb n 4 || (ltb cfg.groups 2 || ltb cfg.advance 1)
      then []
      else (if ltb total 2 || ltb n total
          then []
          else matches ++ map (after_groups (length matches)) (build_knockout_from_labels labels))
