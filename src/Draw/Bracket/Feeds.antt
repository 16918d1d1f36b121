-- ===== src/Draw/Bracket/Feeds.antt =====
-- `wireFedRounds`: where the winner of each match goes.
use mathlib.Core.Option
use tourney_api.Prelude.{
  ℕ, zero, suc, ◌+◌, ◌-◌, ◌*◌, ◌/◌, ◌%◌, ◌^◌, ◌≤◌, ◌<◌, ◌≡◌, ◌≢◌, refl, ◌∙◌, sym, ap, ◌⊎◌, inl, inr,
  Option, none, some, List, [], ◌∷◌, ◌++◌, map, arith, length, get_elem?, modify, length-modify,
  length-append, length-map, get_elem?-modify_self, get_elem?-modify_ne, get_elem?-append_left,
}
use tourney_api.Prelude.Decide.{ℕ-cases, lt-cases}
use tourney_api.Draw.{Match}
use tourney_api.Draw.Bracket.{
  feed, fed_matches, wire_feeds, Wiring, wire_round, wire_rounds, final_match, knockout_match,
  wire_fed_rounds, log2,
}
use tourney_api.Draw.Bracket.Powers.{pow2_suc, pow2_pos, log2-pow}

length-fed_matches : (r i n : ℕ) → length (fed_matches r i n) ≡ n
unfolding fed_matches
length-fed_matches r i zero = refl
length-fed_matches r i (suc n) = ap suc (length-fed_matches r (i + 1) n)

length-wire_feeds :
    (n i start next : ℕ) (ms : List Match) → length (wire_feeds n i start next ms) ≡ length ms
unfolding wire_feeds
length-wire_feeds zero i start next ms = refl
length-wire_feeds (suc n) i start next ms =
    length-wire_feeds n (i + 1) start next _ ∙ length-modify (start + i) _ ms

wire_feeds_outside :
    (n i start next j : ℕ) (ms : List Match)
    → (j < start + i) ⊎ (start + i + n ≤ j)
    → get_elem? (wire_feeds n i start next ms) j ≡ get_elem? ms j
unfolding wire_feeds
wire_feeds_outside zero i start next j ms h = refl
wire_feeds_outside (suc n) i start next j ms h =
    wire_feeds_outside n (i + 1) start next j _ (omega arith)
    ∙ get_elem?-modify_ne (start + i) j _ ms (omega arith)

wire_feeds_inside :
    (n i start next j : ℕ) (ms : List Match)
    → start + i ≤ j
    → j < start + i + n
    → get_elem? (wire_feeds n i start next ms) j
      ≡ Option.map (feed (next + (j - start) / 2) ((j - start) % 2 + 1)) (get_elem? ms j)
unfolding wire_feeds
wire_feeds_inside zero i start next j ms h k = absurd (omega arith)
wire_feeds_inside (suc n) i start next j ms h k = elim (ℕ-cases (start + i) j) [
  | inl e ↦
      let d : j - start ≡ i = omega arith in
      rw (d, ← e)
        (wire_feeds_outside n (i + 1) start next (start + i) _ (omega arith)
          ∙ get_elem?-modify_self (start + i) _ ms)
  | inr ne ↦
      wire_feeds_inside n (i + 1) start next j _ (omega arith) (omega arith)
      ∙ ap (Option.map _) (get_elem?-modify_ne (start + i) j _ ms ne)
]

-- With `k` rounds to go: the matches before the last round are wired to `first + x / 2`.
pub record IsWired (first k : ℕ) (w : Wiring) : Type 0 where
  pub count : w.prev_round_count ≡ 2 ^ k
  pub shape : w.prev_round_start + 2 * w.prev_round_count ≡ 2 * first
  pub size : length w.matches ≡ w.prev_round_start + w.prev_round_count
  pub wired :
      (x : ℕ) (m : Match)
      → x < w.prev_round_start
      → get_elem? w.matches x ≡ some m
      → (m.next_match_idx ≡ some (first + x / 2)) × (m.next_slot ≡ x % 2 + 1)

some_match :
    (next slot : ℕ) (o : Option Match) (m : Match)
    → Option.map (feed next slot) o ≡ some m
    → (m.next_match_idx ≡ some next) × (m.next_slot ≡ slot)
some_match next slot none m e = cc
some_match next slot (some m') m e = ground arith

wire_round-wired :
    (first k r x : ℕ) (w : Wiring) (m : Match)
    → IsWired first (suc k) w
    → x < (wire_round r w).prev_round_start
    → get_elem? (wire_round r w).matches x ≡ some m
    → (m.next_match_idx ≡ some (first + x / 2)) × (m.next_slot ≡ x % 2 + 1)
unfolding wire_round
wire_round-wired first k r x w m v h e = elim (lt-cases x w.prev_round_start) [
  | inl old ↦ v.wired x m old (
      sym (
        wire_feeds_outside w.prev_round_count 0 w.prev_round_start (length w.matches) x
          (w.matches ++ fed_matches r 0 (w.prev_round_count / 2)) (inl (omega arith))
        ∙ get_elem?-append_left w.matches _ x h)
      ∙ e)
  | inr new ↦
      let (a, b) = some_match _ _ _ m (
        sym (
          wire_feeds_inside w.prev_round_count 0 w.prev_round_start (length w.matches) x
            (w.matches ++ fed_matches r 0 (w.prev_round_count / 2)) (omega arith)
            (omega (arith, v.size)))
        ∙ e) in
      (
        a ∙ ap some (omega (arith, v.count, v.shape, v.size, pow2_suc k)),
        b ∙ omega (arith, v.count, v.shape, pow2_suc k),
      )
]

wire_round-IsWired :
    (first k r : ℕ) (w : Wiring) → IsWired first (suc k) w → IsWired first k (wire_round r w)
unfolding wire_round
wire_round-IsWired first k r w v = record {
  count = omega (arith, v.count, pow2_suc k);
  shape = omega (arith, v.count, v.shape, v.size, pow2_suc k);
  size = omega (
    arith,
    length-wire_feeds w.prev_round_count 0 w.prev_round_start (length w.matches)
        (w.matches ++ fed_matches r 0 (w.prev_round_count / 2)),
    length-append w.matches (fed_matches r 0 (w.prev_round_count / 2)),
    length-fed_matches r 0 (w.prev_round_count / 2),
  );
  wired = λ x m h e. wire_round-wired first k r x w m v h e;
}

wire_rounds-IsWired :
    (first k r : ℕ) (w : Wiring) → IsWired first k w → IsWired first 0 (wire_rounds k r w)
unfolding wire_rounds
wire_rounds-IsWired first zero r w v = v
wire_rounds-IsWired first (suc k) r w v =
    wire_rounds-IsWired first k (r + 1) (wire_round r w) (wire_round-IsWired first k r w v)

abbrev rounds_of : List Match → ℕ → ℕ → List Match
rounds_of ms k n =
    (wire_rounds n 2
      (record { matches = ms; prev_round_start = 0; prev_round_count = 2 ^ k })).matches

abbrev pub wiring : List Match → ℕ → Wiring
wiring ms k =
    wire_rounds k 2 (record { matches = ms; prev_round_start = 0; prev_round_count = 2 ^ k })

abbrev pub finish : List Match → List Match
finish ms = map knockout_match (modify (length ms - 1) final_match ms)

pub wiring-IsWired : (ms : List Match) (k : ℕ) → length ms ≡ 2 ^ k → IsWired (2 ^ k) 0 (wiring ms k)
wiring-IsWired ms k e = wire_rounds-IsWired (2 ^ k) k 2 _ (record {
  count = refl;
  shape = omega arith;
  size = omega arith;
  wired = λ x m h. absurd (omega arith);
})

pub wire_fed_rounds_lem :
    (ms : List Match) (k : ℕ) → wire_fed_rounds ms (2 ^ k) ≡ finish (wiring ms k).matches
unfolding wire_fed_rounds
wire_fed_rounds_lem ms k =
    let rounds : log2 (2 ^ k * 2) - 1 ≡ k =
      ap (λ n. log2 n - 1) (omega (arith, pow2_suc k))
      ∙ ap (λ n. n - 1) (log2-pow (suc k))
      ∙ omega arith in
    ap (λ n. finish (rounds_of ms k n)) rounds

pub length-wire_fed_rounds :
    (ms : List Match) (k : ℕ)
    → length ms ≡ 2 ^ k
    → length (wire_fed_rounds ms (2 ^ k)) + 1 ≡ 2 * 2 ^ k
length-wire_fed_rounds ms k e =
    let w = wiring ms k in
    let v = wiring-IsWired ms k e in
    omega (
      arith,
      ap length (wire_fed_rounds_lem ms k),
      length-map (modify (length w.matches - 1) final_match w.matches) knockout_match,
      length-modify (length w.matches - 1) final_match w.matches,
      v.count,
      v.shape,
      v.size,
      pow2_pos k,
    )

-- The winner of match `x` goes to slot `s` of match `y`.
abbrev pub Advances : List Match → ℕ → ℕ → ℕ → Type 0
Advances ms x y s =
    (m : Match) × (get_elem? ms x ≡ some m) × (m.next_match_idx ≡ some y) × (m.next_slot ≡ s)

get_elem?-map {ℓ κ} :
    {A : Type ℓ} {B : Type κ} (f : A → B) (xs : List A) (i : ℕ)
    → get_elem? (map f xs) i ≡ Option.map f (get_elem? xs i)
get_elem?-map f [] i = refl
get_elem?-map f (x ∷ xs) zero = refl
get_elem?-map f (x ∷ xs) (suc i) = get_elem?-map f xs i

-- The last match is the final; the others keep their feed.
pub finish_last :
    (ms : List Match) (m : Match) (y : ℕ)
    → get_elem? (finish ms) (length ms - 1) ≡ some m
    → m.next_match_idx ≢ some y
finish_last ms m y e =
    let p : Option.map knockout_match (Option.map final_match (get_elem? ms (length ms - 1)))
        ≡ some m =
      sym (
        get_elem?-map knockout_match _ (length ms - 1)
        ∙ ap (Option.map knockout_match) (get_elem?-modify_self (length ms - 1) final_match ms))
      ∙ e in
    go (get_elem? ms (length ms - 1)) p
  where
    go :
        (o : Option Match)
        → Option.map knockout_match (Option.map final_match o) ≡ some m
        → m.next_match_idx ≢ some y
    go none p q = cc
    go (some m') p q = ground arith

pub finish_other :
    (ms : List Match) (x : ℕ)
    → length ms - 1 ≢ x
    → get_elem? (finish ms) x ≡ Option.map knockout_match (get_elem? ms x)
finish_other ms x ne =
    get_elem?-map knockout_match _ x
    ∙ ap (Option.map knockout_match) (get_elem?-modify_ne (length ms - 1) x final_match ms ne)
