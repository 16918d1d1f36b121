-- ===== src/Match/Scoring/Score/Normal.antt =====
-- What a score must be for a normal completion, stated apart from the code, and `ValidateScore`
-- against it.
use tourney_api.Prelude.{
  ℕ, suc, ◌+◌, ◌<◌, ◌≤◌, ◌≡◌, ◌≢◌, refl, ap, ◌∙◌, ◌⊎◌, inl, inr, Bool, true, Option, none, some,
  List, [], ◌∷◌, ◌++◌, map, arith, ltb, ltb→lt, ◌==◌, if◌then◌else◌, Bool-cases,
}
use tourney_api.Prelude.Int.{pos}
use tourney_api.Match.Scoring.{ScoringConfig, SetScore, normal}
use tourney_api.Match.Scoring.Set.{
  SetResult, validate_set, validate_decider, validate_regular, validate_tiebreak,
}
use tourney_api.Match.Scoring.Set.Legal.{Wins, validate_set-Wins, complete-no_violation}
use tourney_api.Match.Scoring.Set.Sides.{winner_side}
use tourney_api.Match.Scoring.Score.{
  Tally, sets_to_win, is_decider, allow_partial, count_win, tally_set, tally_sets, stamp,
}
use tourney_api.Match.Scoring.Score.Loop.{
  IsFairTally, tally_set-IsFairTally, clean_before, clean_before_set, append-ne_nil,
}

-- The sides that win the sets from index `i` on, by the rules of a won set.
abbrev pub WonSets : ScoringConfig → ℕ → List SetScore → List ℕ → Type 0
WonSets cfg i [] [] = Unit
WonSets cfg i (st ∷ sets) (w ∷ ws) =
    Wins (is_decider cfg (i + 1)) st w × WonSets cfg (i + 1) sets ws
WonSets _ _ _ _ = ⊥

abbrev pub sets_of : ℕ → List ℕ → ℕ
sets_of w [] = 0
sets_of w (x ∷ xs) = if x == w then suc (sets_of w xs) else sets_of w xs

abbrev pub last? : List ℕ → Option ℕ
last? [] = none
last? (x ∷ []) = some x
last? (x ∷ y ∷ ys) = last? (y ∷ ys)

-- With `a` and `b` sets won before, the last of `ws` is the one that gives `w` its `need`-th set.
abbrev pub Settles : ℕ → ℕ → ℕ → List ℕ → ℕ → Type 0
Settles need a b ws w =
    (last? ws ≡ some w)
    × (((w ≡ 1) × (a + sets_of 1 ws ≡ need) × (b + sets_of 2 ws < need))
        ⊎ ((w ≡ 2) × (b + sets_of 2 ws ≡ need) × (a + sets_of 1 ws < need)))

abbrev pub leader : Tally → ℕ
leader t = if ltb t.won1 t.won2 then 2 else 1

no_partial :
    (total n : ℕ) (st : SetScore) (d : Bool)
    → (validate_set st d (allow_partial normal total n)).violations ≡ []
    → (validate_set st d (allow_partial normal total n)).complete ≡ true
unfolding validate_set validate_decider validate_regular validate_tiebreak allow_partial
no_partial total n st d h = ground arith

-- A clean set while the match is open is won and counted.
open_step :
    (cfg : ScoringConfig) (n : ℕ) (st : SetScore) (r : SetResult) (t : Tally)
    → t.decided_after ≡ 0
    → r.complete ≡ true
    → r.violations ≡ []
    → t.violations ≡ []
    → tally_set cfg n st r t ≡ count_win cfg r.winner n t
unfolding tally_set
open_step cfg n st r t o c e v = ground arith

-- Once the match is decided, a set more is a violation.
decided_step :
    (cfg : ScoringConfig) (n : ℕ) (st : SetScore) (r : SetResult) (t : Tally)
    → 0 < t.decided_after
    → r.complete ≡ true
    → (tally_set cfg n st r t).violations ≢ []
unfolding tally_set
decided_step cfg n st r t o c e = ground (
  arith,
  append-ne_nil (t.violations ++ map (stamp n) r.violations)
      (record { set = pos n; field = ""; rule = "sets.after_decided" }),
)

-- So a clean run that goes on from a decided match has no sets left.
decided_ends :
    (cfg : ScoringConfig) (total i : ℕ) (sets : List SetScore) (t : Tally)
    → 0 < t.decided_after
    → (tally_sets cfg normal total i sets t).violations ≡ []
    → sets ≡ []
unfolding tally_sets
decided_ends cfg total i [] t o e = refl
decided_ends cfg total i (st ∷ sets) t o e =
    let r = validate_set st (is_decider cfg (i + 1)) (allow_partial normal total (i + 1)) in
    let clean = clean_before cfg normal total (i + 1) sets (tally_set cfg (i + 1) st r t) e in
    let (_, good) = clean_before_set cfg (i + 1) st r t clean in
    absurd (decided_step cfg (i + 1) st r t o (no_partial total (i + 1) st _ good) clean)

Settles-cons :
    (need a b x w : ℕ) (ws : List ℕ)
    → (x ≡ 1) ⊎ (x ≡ 2)
    → Settles need (if x == 1 then a + 1 else a) (if x == 1 then b else b + 1) ws w
    → Settles need a b (x ∷ ws) w
Settles-cons need a b x w [] s (l, h) = cc
Settles-cons need a b x w (y ∷ ws) s h = ground arith

-- A win that decides an open match settles it for the leader.
Settles-now :
    (cfg : ScoringConfig) (x n : ℕ) (t : Tally)
    → (x ≡ 1) ⊎ (x ≡ 2)
    → IsFairTally (sets_to_win cfg) t
    → t.decided_after ≡ 0
    → 0 < (count_win cfg x n t).decided_after
    → Settles (sets_to_win cfg) t.won1 t.won2 (x ∷ []) (leader (count_win cfg x n t))
unfolding count_win
Settles-now cfg x n t s v o d = ground (arith, v.open_match)

Settles-later :
    (cfg : ScoringConfig) (x n w : ℕ) (ws : List ℕ) (t t' : Tally)
    → (x ≡ 1) ⊎ (x ≡ 2)
    → t' ≡ count_win cfg x n t
    → Settles (sets_to_win cfg) t'.won1 t'.won2 ws w
    → Settles (sets_to_win cfg) t.won1 t.won2 (x ∷ ws) w
unfolding count_win
Settles-later cfg x n w ws t t' s e h =
    Settles-cons (sets_to_win cfg) t.won1 t.won2 x w ws s (ground arith)

-- What a clean set in an open match of a normal completion comes to.
clean_set :
    (cfg : ScoringConfig) (total i : ℕ) (st : SetScore) (t : Tally)
    → let r = validate_set st (is_decider cfg (i + 1)) (allow_partial normal total (i + 1)) in
      t.decided_after ≡ 0
      → (tally_set cfg (i + 1) st r t).violations ≡ []
      → (tally_set cfg (i + 1) st r t ≡ count_win cfg r.winner (i + 1) t)
        × ((r.winner ≡ 1) ⊎ (r.winner ≡ 2))
        × Wins (is_decider cfg (i + 1)) st r.winner
clean_set cfg total i st t o e =
    let d = is_decider cfg (i + 1) in
    let p = allow_partial normal total (i + 1) in
    let r = validate_set st d p in
    let (clean, good) = clean_before_set cfg (i + 1) st r t e in
    let full = no_partial total (i + 1) st d good in
    (
      open_step cfg (i + 1) st r t o full good clean,
      winner_side st d p full,
      (validate_set-Wins st d p r.winner).0 (full, refl),
    )

-- A clean run over sets that decide the match: each set is won, and the last one settles it.
pub run-Settles :
    (cfg : ScoringConfig) (total i : ℕ) (sets : List SetScore) (t : Tally)
    → IsFairTally (sets_to_win cfg) t
    → t.decided_after ≡ 0
    → (tally_sets cfg normal total i sets t).violations ≡ []
    → 0 < (tally_sets cfg normal total i sets t).decided_after
    → (ws : List ℕ) × WonSets cfg i sets ws
      × Settles (sets_to_win cfg) t.won1 t.won2 ws (leader (tally_sets cfg normal total i sets t))
unfolding tally_sets
run-Settles cfg total i [] t v o e d = absurd (omega arith)
run-Settles cfg total i (st ∷ []) t v o e d =
    let x =
      (validate_set st (is_decider cfg (i + 1)) (allow_partial normal total (i + 1))).winner in
    let (step, side, won) = clean_set cfg total i st t o e in
    (x ∷ [], (won, tt), rw step (Settles-now cfg x (i + 1) t side v o (rw step at d)))
run-Settles cfg total i (st ∷ y ∷ sets) t v o e d =
    let r = validate_set st (is_decider cfg (i + 1)) (allow_partial normal total (i + 1)) in
    let t' = tally_set cfg (i + 1) st r t in
    let clean = clean_before cfg normal total (i + 1) (y ∷ sets) t' e in
    let (step, side, won) = clean_set cfg total i st t o clean in
    let still : t'.decided_after ≡ 0 = elim (Bool-cases (ltb 0 t'.decided_after)) [
      | inl over ↦ cc (decided_ends cfg total (i + 1) (y ∷ sets) t' (ltb→lt _ _ over) e)
      | inr open_match ↦ ground arith
    ] in
    let fair = tally_set-IsFairTally cfg (i + 1) st r t (omega arith) v in
    let (ws, rest, s) = run-Settles cfg total (i + 1) (y ∷ sets) t' fair still e d in
    (r.winner ∷ ws, (won, rest), Settles-later cfg r.winner (i + 1) _ ws t t' side step s)

last-counts : (w : ℕ) (ws : List ℕ) → last? ws ≡ some w → 1 ≤ sets_of w ws
last-counts w [] h = cc
last-counts w (x ∷ []) h = ground arith
last-counts w (x ∷ y ∷ ws) h = ground (arith, last-counts w (y ∷ ws))

decides_now :
    (cfg : ScoringConfig) (x n w : ℕ) (t t' : Tally)
    → 0 < n
    → IsFairTally (sets_to_win cfg) t
    → t.decided_after ≡ 0
    → t' ≡ count_win cfg x n t
    → Settles (sets_to_win cfg) t.won1 t.won2 (x ∷ []) w
    → (t'.violations ≡ t.violations) × (0 < t'.decided_after) × (leader t' ≡ w)
unfolding count_win
decides_now cfg x n w t t' p v o e s = ground (arith, v.open_match)

stays_open :
    (cfg : ScoringConfig) (x y n w : ℕ) (ws : List ℕ) (t t' : Tally)
    → (x ≡ 1) ⊎ (x ≡ 2)
    → t.decided_after ≡ 0
    → t' ≡ count_win cfg x n t
    → Settles (sets_to_win cfg) t.won1 t.won2 (x ∷ y ∷ ws) w
    → (t'.violations ≡ t.violations)
      × (t'.decided_after ≡ 0)
      × Settles (sets_to_win cfg) t'.won1 t'.won2 (y ∷ ws) w
unfolding count_win
stays_open cfg x y n w ws t t' side o e (l, s) = ground (arith, last-counts w (y ∷ ws) l)

-- A set that is won is clean, and counted for its winner.
won_step :
    (cfg : ScoringConfig) (total i x : ℕ) (st : SetScore) (t : Tally)
    → let r = validate_set st (is_decider cfg (i + 1)) (allow_partial normal total (i + 1)) in
      t.decided_after ≡ 0
      → t.violations ≡ []
      → Wins (is_decider cfg (i + 1)) st x
      → tally_set cfg (i + 1) st r t ≡ count_win cfg x (i + 1) t
won_step cfg total i x st t o e won =
    let d = is_decider cfg (i + 1) in
    let p = allow_partial normal total (i + 1) in
    let r = validate_set st d p in
    let (full, win) = (validate_set-Wins st d p x).1 won in
    let step = open_step cfg (i + 1) st r t o full (complete-no_violation st d p full) e in
    step ∙ ap (λ z. count_win cfg z (i + 1) t) win

Wins-side : (d : Bool) (st : SetScore) (x : ℕ) → Wins d st x → (x ≡ 1) ⊎ (x ≡ 2)
Wins-side d st x (inl (e, h)) = inl e
Wins-side d st x (inr (e, h)) = inr e

-- Sets that are won and settle the match make a clean run that is decided for `w`.
pub Settles-run :
    (cfg : ScoringConfig) (total i w : ℕ) (sets : List SetScore) (ws : List ℕ) (t : Tally)
    → IsFairTally (sets_to_win cfg) t
    → t.decided_after ≡ 0
    → t.violations ≡ []
    → WonSets cfg i sets ws
    → Settles (sets_to_win cfg) t.won1 t.won2 ws w
    → ((tally_sets cfg normal total i sets t).violations ≡ [])
      × (0 < (tally_sets cfg normal total i sets t).decided_after)
      × (leader (tally_sets cfg normal total i sets t) ≡ w)
unfolding tally_sets
Settles-run cfg total i w [] [] t v o e h (l, s) = cc
Settles-run cfg total i w (st ∷ sets) [] t v o e h (l, s) = cc
Settles-run cfg total i w [] (x ∷ ws) t v o e h s = absurd h
Settles-run cfg total i w (st ∷ []) (x ∷ []) t v o e h s =
    let step = won_step cfg total i x st t o e h.0 in
    let (a, b, c) = decides_now cfg x (i + 1) w t _ (omega arith) v o step s in (a ∙ e, b, c)
Settles-run cfg total i w (st ∷ []) (x ∷ y ∷ ws) t v o e h s = absurd h.1
Settles-run cfg total i w (st ∷ z ∷ sets) (x ∷ []) t v o e h s = absurd h.1
Settles-run cfg total i w (st ∷ z ∷ sets) (x ∷ y ∷ ws) t v o e h s =
    let r = validate_set st (is_decider cfg (i + 1)) (allow_partial normal total (i + 1)) in
    let t' = tally_set cfg (i + 1) st r t in
    let step = won_step cfg total i x st t o e h.0 in
    let (a, b, c) = stays_open cfg x y (i + 1) w ws t t' (Wins-side _ st x h.0) o step s in
    Settles-run cfg total (i + 1) w (z ∷ sets) (y ∷ ws) t'
      (tally_set-IsFairTally cfg (i + 1) st r t (omega arith) v) b (a ∙ e) h.1 c
