-- ===== src/Draw/Knockout.antt =====
-- internal/draw: the knockout of a group-knockout event, `buildKnockoutFromSlots` of
-- group_knockout.go, and `SetGroups` of manual_setup.go with what it is made of.
pub mod Places
pub mod Seeded
mod Tests
use tourney_api.Prelude.{
  ℕ, zero, suc, ◌+◌, ◌-◌, ◌*◌, ◌/◌, ◌%◌, Bool, true, false, not, ◌&&◌, ◌||◌, Option, none, some,
  List, [], ◌∷◌, ◌++◌, map, ltb, leb, ◌==◌, if◌then◌else◌, length, get_or, modify, replicate,
  String,
}
use Prim.Native.String
use tourney_api.Prelude.Int.{ℤ, is_positive, pos_part}
use tourney_api.Draw.{Entry, Slot, Match, empty_slot, bye_slot}
use tourney_api.Draw.Bracket.{next_power_of_two, log2, first_round, wire_rounds}
use tourney_api.Draw.RoundRobin.{generate_round_robin}
use tourney_api.Draw.Fixtures.{
  Format, group_knockout, Result, ok, err, not_found, forbidden, unsupported_form, bad_request,
  require, ◌>>=◌, ◌>>◌, may_act,
}
use tourney_api.Draw.Tables.{EventRow, PlayerRow, Tables, find_event}
use tourney_api.Draw.Build.{is_entrant, persist_with_groups, stored}

abbrev pub no_next : Match → Match
no_next m = record m { next_match_idx = none }

-- The slots, with byes up to a power of two, as a bracket.
unfoldable pub build_knockout_from_slots : List Slot → List Match
build_knockout_from_slots entries =
    let size = next_power_of_two (length entries) in
    let padded = entries ++ replicate (size - length entries) bye_slot in
    let wired =
      (wire_rounds (log2 size - 1) 2 (record {
        matches = first_round 0 padded;
        prev_round_start = 0;
        prev_round_count = size / 2;
      })).matches in
    modify (length wired - 1) no_next wired

pub record GroupSpec : Type 0 where
  pub name : String
  pub advance_count : ℤ
  pub team_ids : List ℕ

abbrev pub decimal_digit : ℕ → String
decimal_digit d = get_or ("0" ∷ "1" ∷ "2" ∷ "3" ∷ "4" ∷ "5" ∷ "6" ∷ "7" ∷ "8" ∷ "9" ∷ []) d ""

-- `%d`; a number has no more digits than the fuel, one more than itself.
unfoldable pub decimal_from : ℕ → ℕ → String
decimal_from zero n = ""
decimal_from (suc fuel) n =
    let rest = decimal_from fuel (n / 10) in
    String.◌++◌ (if ltb n 10 then "" else rest) (decimal_digit (n % 10))

unfoldable pub place_name : ℕ → String
place_name zero = "Winner"
place_name (suc zero) = "Runner-up"
place_name (suc (suc p)) = String.◌++◌ "#" (decimal_from (p + 4) (p + 3))

abbrev pub no_spec : GroupSpec
no_spec = record { name = ""; advance_count = ℤ.pos 0; team_ids = [] }

-- `placement(g, rank)`, the rank counted from 0.
unfoldable pub placement_slot : List GroupSpec → ℕ → ℕ → Slot
placement_slot specs g p = record empty_slot {
  source_label = String.◌++◌ (place_name p) (String.◌++◌ " " ((get_or specs g no_spec).name));
  source_group_idx = g;
  source_rank = suc p;
}

-- `for p := 2; p < AdvanceCount; p++`, `n` more rounds.
unfoldable pub further_slots : List GroupSpec → ℕ → ℕ → ℕ → List Slot
further_slots specs g p zero = []
further_slots specs g p (suc n) = placement_slot specs g p ∷ further_slots specs g (suc p) n

-- The loop over the groups, from index `g` on.
unfoldable pub advancers_from : List GroupSpec → ℕ → List GroupSpec → List Slot
advancers_from specs g [] = []
advancers_from specs g (s ∷ rest) =
    let count = pos_part s.advance_count in
    placement_slot specs g 0
      ∷ (if ltb 1 count then placement_slot specs ((g + 1) % length specs) 1 ∷ [] else [])
    ++ further_slots specs g 2 (count - 2)
    ++ advancers_from specs (suc g) rest

unfoldable pub advancer_slots : List GroupSpec → List Slot
advancer_slots specs = advancers_from specs 0 specs

abbrev pub unseeded_entry : ℕ → Entry
unseeded_entry id = record { participant_id = id; seed = 0 }

abbrev pub in_group : ℕ → Match → Match
in_group g m = record m { group_index = some g; next_match_idx = none }

-- The round robins, from group `g` on.
unfoldable pub group_matches : ℕ → List GroupSpec → List Match
group_matches g [] = []
group_matches g (s ∷ specs) =
    map (in_group g) (generate_round_robin (map unseeded_entry s.team_ids))
    ++ group_matches (suc g) specs

abbrev pub after_groups : ℕ → Match → Match
after_groups start m = record m {
  next_match_idx = elim m.next_match_idx [ none ↦ none | some j ↦ some (j + start) ];
  group_index = none;
}

unfoldable pub group_knockout_from_assignment : List GroupSpec → List Match
group_knockout_from_assignment specs =
    let groups = group_matches 0 specs in
    groups ++ map (after_groups (length groups)) (build_knockout_from_slots (advancer_slots specs))

abbrev pub is_member : ℕ → List ℕ → Bool
is_member id [] = false
is_member id (x ∷ xs) = id == x || is_member id xs

-- The teams of a group against those `seen`, which are returned with them; nothing for a bad one.
unfoldable pub take_teams : (ℕ → Bool) → List ℕ → List ℕ → Option (List ℕ)
take_teams valid seen [] = some seen
take_teams valid seen (id ∷ ids) =
    let rest = take_teams valid (id ∷ seen) ids in
    if not (valid id) || is_member id seen then none else rest

abbrev pub is_group_size : GroupSpec → Bool
is_group_size s =
    leb 2 (length s.team_ids)
    && (is_positive s.advance_count && leb (pos_part s.advance_count) (length s.team_ids))

-- The loop over the groups; the sum of their advance counts.
unfoldable pub check_groups : (ℕ → Bool) → List ℕ → ℕ → List GroupSpec → Option ℕ
check_groups valid seen total [] = some total
check_groups valid seen total (s ∷ specs) = elim (take_teams valid seen s.team_ids) [
  | none ↦ none
  | some seen' ↦
      let rest = check_groups valid seen' (total + pos_part s.advance_count) specs in
      if is_group_size s then rest else none
]

abbrev pub is_group_knockout : Format → Bool
is_group_knockout group_knockout = true
is_group_knockout _ = false

abbrev pub enough_advance : Option ℕ → Bool
enough_advance none = false
enough_advance (some total) = leb 2 total

module _ (default_name : ℕ → String) where
  unfoldable pub store_groups : ℕ → List GroupSpec → List Match → Tables → Result (Tables × ℕ)
  store_groups event specs [] db = err bad_request
  store_groups event specs (m ∷ matches) db = stored (length (m ∷ matches)) (
      persist_with_groups default_name event (m ∷ matches) (map (λ s. s.name) specs)
        (map (λ s. pos_part s.advance_count) specs) db)

  -- `SetGroups`, with the number of matches.
  unfoldable pub set_groups : ℕ → Option ℕ → List GroupSpec → Tables → Result (Tables × ℕ)
  set_groups event org specs db = elim (find_event event db.events) [
    | none ↦ err not_found
    | some e ↦ do
      require (may_act org db.org_id) forbidden
      require (is_group_knockout e.format) unsupported_form
      require (leb 1 (length specs)) bad_request
      require (enough_advance (check_groups (is_entrant event db.players) [] 0 specs)) bad_request
      store_groups event specs (group_knockout_from_assignment specs) db
  ]
