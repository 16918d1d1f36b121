-- ===== src/Draw/Bracket.antt =====
-- internal/draw/single_elim.go and manual.go: brackets of single elimination.
pub mod Powers
pub mod Feeds
pub mod Progress
pub mod Seeds
pub mod Placement
mod Tests
use tourney_api.Prelude.{
  ℕ, zero, suc, ◌+◌, ◌-◌, ◌*◌, ◌/◌, ◌%◌, Bool, true, false, Option, none, some, List, [], ◌∷◌, ◌++◌,
  map, ltb, leb, ◌==◌, if◌then◌else◌, length, modify,
}
use tourney_api.Draw.{Entry, Slot, Match, empty_slot, bye_slot, filled_slot, fresh_match}

-- `for p < n { p <<= 1 }`, on fuel.
unfoldable pub double_until : ℕ → ℕ → ℕ → ℕ
double_until zero n p = p
double_until (suc fuel) n p = let rest = double_until fuel n (2 * p) in if ltb p n then rest else p

unfoldable pub next_power_of_two : ℕ → ℕ
next_power_of_two n = double_until n n 1

-- `for n > 1 { n >>= 1; r++ }`, on fuel.
unfoldable pub halve_until : ℕ → ℕ → ℕ → ℕ
halve_until zero n r = r
halve_until (suc fuel) n r =
    let rest = halve_until fuel (n / 2) (r + 1) in if ltb 1 n then rest else r

unfoldable pub log2 : ℕ → ℕ
log2 n = halve_until n n 0

-- One doubling of the seed order, `total` the sum of a pair.
pub double_seeds : ℕ → List ℕ → List ℕ
double_seeds total [] = []
double_seeds total (s ∷ seeds) = s ∷ (total - s) ∷ double_seeds total seeds

pub grow_seeds : ℕ → ℕ → List ℕ → List ℕ
grow_seeds zero size seeds = seeds
grow_seeds (suc fuel) size seeds =
    let rest = grow_seeds fuel size (double_seeds (length seeds * 2 + 1) seeds) in
    if ltb (length seeds) size then rest else seeds

pub seed_positions : ℕ → List ℕ
seed_positions size = grow_seeds size size (1 ∷ 2 ∷ [])

-- The last entry of a seed: `bySeed` is a map that later entries overwrite.
pub by_seed : ℕ → List Entry → Option Entry
by_seed rank [] = none
by_seed rank (e ∷ entries) = elim (by_seed rank entries) [
  | some later ↦ some later
  | none ↦ if ltb 0 e.seed then (if e.seed == rank then some e else none) else none
]

pub unseeded : List Entry → List Entry
unseeded [] = []
unseeded (e ∷ entries) = let rest = unseeded entries in if ltb 0 e.seed then rest else e ∷ rest

-- The loop over the order; `waiting` holds the unseeded entries not yet placed.
pub fill_slots : List Entry → List ℕ → List Entry → List (Option Entry)
fill_slots entries [] waiting = []
fill_slots entries (rank ∷ order) waiting = elim (by_seed rank entries) [
  | some e ↦ some e ∷ fill_slots entries order waiting
  | none ↦ elim waiting [
    | [] ↦ none ∷ fill_slots entries order []
    | u ∷ us ↦ some u ∷ fill_slots entries order us
  ]
]

pub place_entries : List Entry → List ℕ → List (Option Entry)
place_entries entries order = fill_slots entries order (unseeded entries)

abbrev pub entry_to_slot : Option Entry → Slot
entry_to_slot none = bye_slot
entry_to_slot (some e) = filled_slot e.participant_id

-- Round 1: slots 2i and 2i + 1 make match i.
unfoldable pub first_round : ℕ → List Slot → List Match
first_round i [] = []
first_round i (s ∷ []) = []
first_round i (s ∷ t ∷ slots) = fresh_match 1 i s t ∷ first_round (i + 1) slots

-- `for i < n { append Match{Round: r, MatchInRound: i} }`, `i` counting up.
unfoldable pub fed_matches : ℕ → ℕ → ℕ → List Match
fed_matches r i zero = []
fed_matches r i (suc n) = fresh_match r i empty_slot empty_slot ∷ fed_matches r (i + 1) n

abbrev pub feed : ℕ → ℕ → Match → Match
feed next slot m = record m { next_match_idx = some next; next_slot = slot }

-- The inner loop that wires match `start + i` into the round at `next_start`, for `n` more values.
unfoldable pub wire_feeds : ℕ → ℕ → ℕ → ℕ → List Match → List Match
wire_feeds zero i start next_start matches = matches
wire_feeds (suc n) i start next_start matches =
    wire_feeds n (i + 1) start next_start
      (modify (start + i) (feed (next_start + i / 2) (i % 2 + 1)) matches)

-- The variables of the outer loop.
pub record Wiring : Type 0 where
  pub matches : List Match
  pub prev_round_start : ℕ
  pub prev_round_count : ℕ

unfoldable pub wire_round : ℕ → Wiring → Wiring
wire_round r w = record {
  matches =
      wire_feeds w.prev_round_count 0 w.prev_round_start round_start
        (w.matches ++ fed_matches r 0 round_count);
  prev_round_start = round_start;
  prev_round_count = round_count;
}
  where
    round_count : ℕ
    round_count = w.prev_round_count / 2

    round_start : ℕ
    round_start = length w.matches

-- The outer loop, from round `r` on, for `n` more rounds.
unfoldable pub wire_rounds : ℕ → ℕ → Wiring → Wiring
wire_rounds zero r w = w
wire_rounds (suc n) r w = wire_rounds n (r + 1) (wire_round r w)

abbrev pub final_match : Match → Match
final_match m = record m { next_match_idx = none; next_slot = 0 }

abbrev pub knockout_match : Match → Match
knockout_match m = record m { group_index = none }

-- Rounds 2 to `log2(2 * first_round_count)`, then the final, then the group index.
unfoldable pub wire_fed_rounds : List Match → ℕ → List Match
wire_fed_rounds matches first_round_count =
    map knockout_match (modify (length wired - 1) final_match wired)
  where
    wired : List Match
    wired =
        (wire_rounds (log2 (first_round_count * 2) - 1) 2 (record {
          matches = matches;
          prev_round_start = 0;
          prev_round_count = first_round_count;
        })).matches

pub generate_single_elimination : List Entry → List Match
generate_single_elimination entries =
    if ltb (length entries) 2
    then []
    else wire_fed_rounds
        (first_round 0 (map entry_to_slot (place_entries entries (seed_positions size)))) (size / 2)
  where
    size : ℕ
    size = next_power_of_two (length entries)

-- manual.go.
pub record Pair : Type 0 where
  pub a : Option ℕ
  pub b : Option ℕ

unfoldable pub pair_slot : Option ℕ → Slot
pair_slot none = bye_slot
pair_slot (some id) = filled_slot id

abbrev pub is_empty_pair : Pair → Bool
is_empty_pair p = elim p.a [ some x ↦ false | none ↦ elim p.b [ some y ↦ false | none ↦ true ] ]

unfoldable pub clean_pairs : List Pair → List Pair
clean_pairs [] = []
clean_pairs (p ∷ pairs) = let rest = clean_pairs pairs in if is_empty_pair p then rest else p ∷ rest

-- `n` matches from index `i` on; a pair that is missing is all byes.
unfoldable pub pair_matches : ℕ → ℕ → List Pair → List Match
pair_matches zero i pairs = []
pair_matches (suc n) i [] = fresh_match 1 i bye_slot bye_slot ∷ pair_matches n (i + 1) []
pair_matches (suc n) i (p ∷ pairs) =
    fresh_match 1 i (pair_slot p.a) (pair_slot p.b) ∷ pair_matches n (i + 1) pairs

unfoldable pub generate_from_pairs : List Pair → List Match
generate_from_pairs pairs = elim (clean_pairs pairs) [
  | [] ↦ []
  | p ∷ cleaned ↦
      let count = next_power_of_two (length (p ∷ cleaned)) in
      wire_fed_rounds (pair_matches count 0 (p ∷ cleaned)) count
]
