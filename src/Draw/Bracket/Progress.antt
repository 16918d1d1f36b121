-- ===== src/Draw/Bracket/Progress.antt =====
-- `wireFedRounds`: the graph of the progression, and what stays of round 1.
use mathlib.Core.Option
use tourney_api.Prelude.{
  ℕ, ◌+◌, ◌-◌, ◌*◌, ◌^◌, ◌≤◌, ◌<◌, ◌≡◌, refl, ◌∙◌, sym, ap, ◌⊎◌, inl, inr, ◌↔◌, Option, none, some,
  List, arith, length, get_elem?, get_elem?-lt, get_elem?-some,
}
use tourney_api.Prelude.Decide.{ℕ-cases}
use tourney_api.Draw.{Match}
use tourney_api.Draw.Bracket.{knockout_match, wire_fed_rounds}
use tourney_api.Draw.Bracket.Feeds.{
  wiring, finish, wiring-IsWired, wire_fed_rounds_lem, finish_last, finish_other, Advances,
  length-wire_fed_rounds,
}
use tourney_api.Draw.Bracket.Powers.{pow2_pos}

-- Slot `s` of match `y` is fed, and match `x` is the one that feeds it.
abbrev pub FeederOf : ℕ → ℕ → ℕ → ℕ → Type 0
FeederOf first x y s =
    (first ≤ y)
    × (y + 1 < 2 * first)
    × (((x ≡ 2 * (y - first)) × (s ≡ 1)) ⊎ ((x ≡ 2 * (y - first) + 1) × (s ≡ 2)))

unwrap :
    (o : Option Match) (m : Match)
    → Option.map knockout_match o ≡ some m
    → (m' : Match) × (o ≡ some m')
      × (m'.next_match_idx ≡ m.next_match_idx)
      × (m'.next_slot ≡ m.next_slot)
unwrap none m e = cc
unwrap (some m') m e = (m', refl, ground arith, ground arith)

module _ (ms : List Match) (k : ℕ) (full : length ms ≡ 2 ^ k) where
  last_index : length (wiring ms k).matches + 1 ≡ 2 * 2 ^ k
  last_index =
      let v = wiring-IsWired ms k full in omega (arith, v.count, v.shape, v.size, pow2_pos k)

  feeder : (x y s : ℕ) → Advances (wire_fed_rounds ms (2 ^ k)) x y s → FeederOf (2 ^ k) x y s
  feeder x y s (m, e, n, t) =
      let v = wiring-IsWired ms k full in
      let w = wiring ms k in
      let lt = get_elem?-lt (wire_fed_rounds ms (2 ^ k)) x e in
      let e' : get_elem? (finish w.matches) x ≡ some m =
        ap (λ l. get_elem? l x) (sym (wire_fed_rounds_lem ms k)) ∙ e in
      elim (ℕ-cases (length w.matches - 1) x) [
        | inl last ↦
            absurd (finish_last w.matches m y (ap (get_elem? (finish w.matches)) last ∙ e') n)
        | inr ne ↦
            let (m', f, a, b) = unwrap _ m (sym (finish_other w.matches x ne) ∙ e') in
            let (c, d) =
              v.wired x m'
                (omega (arith, lt, length-wire_fed_rounds ms k full, last_index, v.count, v.size))
                f in
            ground
              (arith, last_index, v.count, v.size, v.shape, lt, length-wire_fed_rounds ms k full)
      ]

  advances : (x y s : ℕ) → FeederOf (2 ^ k) x y s → Advances (wire_fed_rounds ms (2 ^ k)) x y s
  advances x y s (lo, hi, h) =
      let v = wiring-IsWired ms k full in
      let w = wiring ms k in
      let before : x < w.prev_round_start = omega (arith, v.count, v.shape) in
      let (m, e) = get_elem?-some w.matches x (omega (arith, v.size)) in
      let (c, d) = v.wired x m before e in
      (
        knockout_match m,
        ap (λ l. get_elem? l x) (wire_fed_rounds_lem ms k)
            ∙ finish_other w.matches x (omega (arith, v.size, v.count))
            ∙ ap (Option.map knockout_match) e,
        c ∙ ap some (omega arith),
        d ∙ omega arith,
      )

-- Above a first round of `2 ^ k` matches, match `x` sends its winner to slot `s` of match `y`
-- exactly when `y` is one of the `2 ^ k - 1` later matches and `x` is its feeder for that slot: so
-- each slot of a later match has one feeder, and only the final sends its winner nowhere.
pub wire_fed_rounds-FeederOf :
    (ms : List Match) (k : ℕ)
    → length ms ≡ 2 ^ k
    → (x y s : ℕ) → Advances (wire_fed_rounds ms (2 ^ k)) x y s ↔ FeederOf (2 ^ k) x y s
wire_fed_rounds-FeederOf ms k full x y s = (feeder ms k full x y s, advances ms k full x y s)
