-- ===== src/Draw/Bracket/Powers.antt =====
-- `nextPowerOfTwo` and `log2`: the fuel is enough, and what they compute.
use native.Mathlib.Nat.{pow-suc}
use tourney_api.Prelude.{
  ℕ, zero, suc, ◌+◌, ◌*◌, ◌/◌, ◌^◌, ◌≤◌, ◌<◌, ◌≡◌, refl, ◌∙◌, ◌⊎◌, inl, inr, true, arith, ltb,
  ltb→lt, lt→ltb, Bool-cases, sym,
}
use tourney_api.Draw.Bracket.{double_until, next_power_of_two, halve_until, log2}

pub pow2_suc : (k : ℕ) → 2 ^ suc k ≡ 2 * 2 ^ k
pow2_suc k = omega (arith, pow-suc 2 k)

pub pow2_pos : (k : ℕ) → 0 < 2 ^ k
pow2_pos zero = omega arith
pow2_pos (suc k) = omega (arith, pow2_pos k, pow2_suc k)

-- From `2 ^ j` below twice `n`, the loop ends at a power of two that is not below `n`.
double_until_lem :
    (fuel n j : ℕ)
    → n ≤ 2 ^ j + fuel
    → (2 ^ j < 2 * n) ⊎ (j ≡ 0)
    → (k : ℕ) × (double_until fuel n (2 ^ j) ≡ 2 ^ k) × (n ≤ 2 ^ k) × ((2 ^ k < 2 * n) ⊎ (k ≡ 0))
unfolding double_until
double_until_lem zero n j f b = (j, refl, omega arith, b)
double_until_lem (suc fuel) n j f b = elim (Bool-cases (ltb (2 ^ j) n)) [
  | inl more ↦
      let lt = ltb→lt (2 ^ j) n more in
      rw (more, sym (pow2_suc j))
        (double_until_lem fuel n (suc j) (omega (arith, pow2_pos j, pow2_suc j))
          (inl (omega (arith, pow2_suc j))))
  | inr enough ↦ rw enough (j, refl, ground arith, b)
]

-- `nextPowerOfTwo` is a power of two, not below `n`, and the least such.
pub next_power_of_two_lem :
    (n : ℕ) → (k : ℕ) × (next_power_of_two n ≡ 2 ^ k) × (n ≤ 2 ^ k) × ((2 ^ k < 2 * n) ⊎ (k ≡ 0))
unfolding next_power_of_two
next_power_of_two_lem n = double_until_lem n n 0 (omega arith) (inr refl)

halve_until_lem : (fuel k r : ℕ) → 2 ^ k ≤ fuel + 1 → halve_until fuel (2 ^ k) r ≡ r + k
unfolding halve_until
halve_until_lem zero zero r f = omega arith
halve_until_lem zero (suc k) r f = absurd (omega (arith, pow2_suc k, pow2_pos k))
halve_until_lem (suc fuel) zero r f = omega arith
halve_until_lem (suc fuel) (suc k) r f =
    let half : 2 ^ suc k / 2 ≡ 2 ^ k = omega (arith, pow2_suc k) in
    let two : ltb 1 (2 ^ suc k) ≡ true = lt→ltb _ _ (omega (arith, pow2_suc k, pow2_pos k)) in
    rw (two, half)
      (halve_until_lem fuel k (r + 1) (omega (arith, pow2_suc k, pow2_pos k)) ∙ omega arith)

-- `log2` of a power of two is its exponent.
pub log2-pow : (k : ℕ) → log2 (2 ^ k) ≡ k
unfolding log2
log2-pow k = halve_until_lem (2 ^ k) k 0 (omega arith) ∙ omega arith

pub pow2_lt : (j d : ℕ) → 2 ^ j < 2 ^ (suc j + d)
pow2_lt j zero =
    let e : suc j + 0 ≡ suc j = omega arith in rw e (omega (arith, pow2_suc j, pow2_pos j))
pow2_lt j (suc d) =
    let e : suc j + suc d ≡ suc (suc j + d) = omega arith in
    rw e (omega (arith, pow2_suc (suc j + d), pow2_lt j d))

pub lt-pow2 : (k : ℕ) → k < 2 ^ k
lt-pow2 zero = omega arith
lt-pow2 (suc k) = omega (arith, lt-pow2 k, pow2_suc k)
