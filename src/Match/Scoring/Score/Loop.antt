-- ===== src/Match/Scoring/Score/Loop.antt =====
-- The loop of `ValidateScore` over the ordered sets.
use tourney_api.Prelude.{ℕ, ◌+◌, ◌<◌, ◌≡◌, ◌≢◌, refl, ◌⊎◌, List, [], ◌∷◌, ◌++◌, map, arith}
use tourney_api.Match.Scoring.{ScoringConfig, SetScore, Completion}
use tourney_api.Match.Scoring.Set.{SetResult}
use tourney_api.Match.Scoring.Score.{Tally, sets_to_win, stamp, tally_set, tally_sets}

-- While the match is open neither side has the sets it needs; once decided, exactly one has.
pub record IsFairTally (need : ℕ) (t : Tally) : Type 0 where
  pub open_match : t.decided_after ≡ 0 → (t.won1 < need) × (t.won2 < need)
  pub decided :
      0 < t.decided_after
      → ((t.won1 ≡ need) × (t.won2 < need)) ⊎ ((t.won2 ≡ need) × (t.won1 < need))

pub tally_set-IsFairTally :
    (cfg : ScoringConfig) (n : ℕ) (st : SetScore) (r : SetResult) (t : Tally)
    → 0 < n
    → IsFairTally (sets_to_win cfg) t
    → IsFairTally (sets_to_win cfg) (tally_set cfg n st r t)
unfolding tally_set
tally_set-IsFairTally cfg n st r t p v = ground (arith, v.open_match, v.decided)

pub tally_sets-IsFairTally :
    (cfg : ScoringConfig) (c : Completion) (total i : ℕ) (sets : List SetScore) (t : Tally)
    → IsFairTally (sets_to_win cfg) t
    → IsFairTally (sets_to_win cfg) (tally_sets cfg c total i sets t)
unfolding tally_sets
tally_sets-IsFairTally cfg c total i [] t v = v
tally_sets-IsFairTally cfg c total i (st ∷ sets) t v =
    tally_sets-IsFairTally cfg c total (i + 1) sets _
      (tally_set-IsFairTally cfg (i + 1) st _ t (omega arith) v)

pub append-eq_nil {ℓ} : {A : Type ℓ} (xs ys : List A) → xs ++ ys ≡ [] → (xs ≡ []) × (ys ≡ [])
append-eq_nil [] ys e = (refl, e)
append-eq_nil (x ∷ xs) ys e = cc

pub map-eq_nil {ℓ κ} : {A : Type ℓ} {B : Type κ} (f : A → B) (xs : List A) → map f xs ≡ [] → xs ≡ []
map-eq_nil f [] e = refl
map-eq_nil f (x ∷ xs) e = cc

-- A violation that is found stays found.
pub clean_before_set :
    (cfg : ScoringConfig) (i : ℕ) (st : SetScore) (r : SetResult) (t : Tally)
    → (tally_set cfg i st r t).violations ≡ []
    → (t.violations ≡ []) × (r.violations ≡ [])
unfolding tally_set
clean_before_set cfg i st r t h = ground (
  arith,
  append-eq_nil (t.violations ++ map (stamp i) r.violations),
  append-eq_nil t.violations (map (stamp i) r.violations),
  map-eq_nil (stamp i) r.violations,
)

pub clean_before :
    (cfg : ScoringConfig) (c : Completion) (total i : ℕ) (sets : List SetScore) (t : Tally)
    → (tally_sets cfg c total i sets t).violations ≡ []
    → t.violations ≡ []
unfolding tally_sets
clean_before cfg c total i [] t h = h
clean_before cfg c total i (st ∷ sets) t h =
    (clean_before_set cfg (i + 1) st _ t (clean_before cfg c total (i + 1) sets _ h)).0

pub append-ne_nil {ℓ} : {A : Type ℓ} (xs : List A) (y : A) → xs ++ y ∷ [] ≢ []
append-ne_nil [] y e = cc
append-ne_nil (x ∷ xs) y e = cc
