-- ===== src/Match/Scoring/Score/Accept.antt =====
-- Which submissions are accepted as a normal completion, and for which winner.
use mathlib.Core.List.Perm
use mathlib.Core.Path.{subst}
use tourney_api.Prelude.{
  ℕ, ◌≤◌, ◌<◌, ◌≡◌, ◌↔◌, refl, inl, inr, Bool-cases, Option-cases, List, [], ◌∷◌, ◌++◌, ltb, arith,
  length, Perm,
}
use tourney_api.Prelude.Int.{ℤ, pos, pos_part, eq_iff}
use tourney_api.Match.Scoring.{ScoringConfig, SetScore, Violation, normal, status_for_completion}
use tourney_api.Match.Scoring.Score.{
  Outcome, numbering, Tally, accept, refuse, refuse_or, conclude, start, validate_sets,
  validate_score, sort_sets, tally_sets, sets_to_win, winner_violations,
}
use tourney_api.Match.Scoring.Score.Order.{
  Numbered, numbering-Numbered, sort_sets-perm, sort_sets_unique,
}
use tourney_api.Match.Scoring.Score.Loop.{IsFairTally, clean_before}
use tourney_api.Match.Scoring.Score.Normal.{WonSets, Settles, leader, run-Settles, Settles-run}

pub fair_start :
    (cfg : ScoringConfig) (v : List Violation) → IsFairTally (sets_to_win cfg) (start v)
unfolding start sets_to_win
fair_start cfg v = omega arith

conclude_normal :
    (s : ℤ) (total w : ℕ) (t : Tally)
    → (refuse_or t.violations (conclude normal s total t) refuse ≡ accept (pos w) normal)
      ↔ ((t.violations ≡ []) × (0 < t.decided_after) × (leader t ≡ w))
unfolding refuse_or conclude status_for_completion
conclude_normal s total w t = (λ e. ground arith, λ e. ground arith)

-- From the numbering on.
sets_normal :
    (cfg : ScoringConfig) (ordered : List SetScore) (s : ℤ) (v : List Violation) (w : ℕ)
    → let t = tally_sets cfg normal (length ordered) 0 ordered (start v) in
      (validate_sets cfg ordered normal s v ≡ accept (pos w) normal) ↔ (
        Numbered 0 ordered
        × (length ordered ≤ cfg.best_of)
        × (t.violations ≡ [])
        × (0 < t.decided_after)
        × (leader t ≡ w))
unfolding validate_sets status_for_completion
sets_normal cfg ordered s v w = (
  λ e. ground (arith, (numbering-Numbered 0 ordered).0, (conclude_normal s (length ordered) w t).0),
  λ e. ground (arith, (numbering-Numbered 0 ordered).1, (conclude_normal s (length ordered) w t).1),
)
  where
    t : Tally
    t = tally_sets cfg normal (length ordered) 0 ordered (start v)

-- A side has won by the rules: an order of the sets numbered from 1, no more than best-of, each
-- set won, and the last one the winning side's deciding set.
abbrev pub NormalWin : ScoringConfig → List SetScore → ℕ → Type 0
NormalWin cfg sets w =
    (ordered : List SetScore) × Perm ordered sets
    × Numbered 0 ordered
    × (length ordered ≤ cfg.best_of)
    × ((ws : List ℕ) × WonSets cfg 0 ordered ws × Settles (sets_to_win cfg) 0 0 ws w)

-- `w` wins the settled run of `sets` from the start.
WinsRun : ScoringConfig → List SetScore → ℕ → Type 0
WinsRun cfg sets w = (ws : List ℕ) × WonSets cfg 0 sets ws × Settles (sets_to_win cfg) 0 0 ws w

run_wins :
    (cfg : ScoringConfig) (sets : List SetScore) (v : List Violation) (w : ℕ)
    → let t = tally_sets cfg normal (length sets) 0 sets (start v) in
      (t.violations ≡ []) → (0 < t.decided_after) → (leader t ≡ w) → WinsRun cfg sets w
unfolding start WinsRun
run_wins cfg sets v w e d l =
    subst (WinsRun cfg sets) l
      (run-Settles cfg (length sets) 0 sets (start v) (fair_start cfg v) refl e d)

through :
    (cfg : ScoringConfig) (sets : List SetScore) (s : ℤ) (w : ℕ)
    → validate_score cfg sets normal s ≡ accept (pos w) normal
    → validate_sets cfg (sort_sets sets) normal s (winner_violations normal s)
      ≡ accept (pos w) normal
unfolding validate_score status_for_completion
through cfg [] s w e = cc
through cfg (st ∷ sets) s w e = e

no_winner_slot : (s : ℤ) → winner_violations normal s ≡ [] → s ≡ pos 0
unfolding winner_violations
no_winner_slot s e = ground (arith, eq_iff s (pos 0))

normal_sound :
    (cfg : ScoringConfig) (sets : List SetScore) (s : ℤ) (w : ℕ)
    → validate_score cfg sets normal s ≡ accept (pos w) normal
    → (s ≡ pos 0) × NormalWin cfg sets w
unfolding WinsRun start
normal_sound cfg sets s w e =
    let v = winner_violations normal s in
    let (n, le, clean, d, l) =
      (sets_normal cfg (sort_sets sets) s v w).0 (through cfg sets s w e) in
    (
      no_winner_slot s (clean_before cfg normal _ 0 (sort_sets sets) (start v) clean),
      (sort_sets sets, sort_sets-perm sets, n, le, run_wins cfg (sort_sets sets) v w clean d l),
    )

normal_sets :
    (cfg : ScoringConfig) (st : SetScore) (sets : List SetScore) (w : ℕ)
    → NormalWin cfg (st ∷ sets) w
    → validate_sets cfg (sort_sets (st ∷ sets)) normal (pos 0) [] ≡ accept (pos w) normal
unfolding start
normal_sets cfg st sets w (ordered, p, n, le, h) =
    let (a, b, c) =
      Settles-run cfg (length ordered) 0 w ordered h.0 (start []) (fair_start cfg []) refl refl h.1
        h.2 in
    rw (sort_sets_unique (st ∷ sets) ordered p n)
      ((sets_normal cfg ordered (pos 0) [] w).1 (n, le, a, b, c))

normal_complete :
    (cfg : ScoringConfig) (sets : List SetScore) (w : ℕ)
    → NormalWin cfg sets w
    → validate_score cfg sets normal (pos 0) ≡ accept (pos w) normal
unfolding validate_score winner_violations
normal_complete cfg [] w (ordered, p, n, le, (ws, won, fin)) =
    absurd (nothing ordered ws (Perm.eq-nil p) won fin)
  where
    nothing :
        (o : List SetScore) (ws : List ℕ)
        → o ≡ []
        → WonSets cfg 0 o ws
        → ¬ Settles (sets_to_win cfg) 0 0 ws w
    nothing [] [] e won fin = cc
    nothing [] (x ∷ ws) e won fin = won
    nothing (y ∷ o) ws e won fin = cc
normal_complete cfg (st ∷ sets) w h = normal_sets cfg st sets w h

-- A submission for a normal completion is accepted with winner `w` exactly when it names no winner
-- slot and its sets, in some order, are numbered from 1, fit in best-of, are each won by a side,
-- and the last of them gives `w` the sets it needs while the other side has fewer.
pub validate_score-NormalWin :
    (cfg : ScoringConfig) (sets : List SetScore) (s : ℤ) (w : ℕ)
    → (validate_score cfg sets normal s ≡ accept (pos w) normal)
      ↔ ((s ≡ pos 0) × NormalWin cfg sets w)
validate_score-NormalWin cfg sets s w =
    (normal_sound cfg sets s w, λ h. rw h.0 (normal_complete cfg sets w h.1))

-- What has no violation is accepted for one of the winner slots.
abbrev pub Settled : Outcome → Type 0
Settled o =
    o.violations ≡ [] → (o ≡ accept (pos (pos_part o.winner)) normal) × (0 < pos_part o.winner)

refuse-Settled : (v : List Violation) (b : Violation) → Settled (refuse (v ++ b ∷ []))
refuse-Settled [] b h = let clash : ⊥ = cc in elim clash [ ]
refuse-Settled (x ∷ v) b h = let clash : ⊥ = cc in elim clash [ ]

conclude-Settled :
    (s : ℤ) (total : ℕ) (t : Tally)
    → Settled (refuse_or t.violations (conclude normal s total t) refuse)
unfolding refuse_or conclude status_for_completion
conclude-Settled s total t h = ground arith

validate_sets-Settled :
    (cfg : ScoringConfig) (ordered : List SetScore) (s : ℤ) (v : List Violation)
    → Settled (validate_sets cfg ordered normal s v)
unfolding validate_sets
validate_sets-Settled cfg ordered s v = elim (Option-cases (numbering 0 ordered)) [
  | inr (bad, e) ↦ rw (validate_sets, e) (refuse-Settled v bad)
  | inl e ↦ elim (Bool-cases (ltb cfg.best_of (length ordered))) [
    | inl many ↦ rw (validate_sets, e, many) (refuse-Settled v _)
    | inr few ↦
        rw (validate_sets, e, few)
          (conclude-Settled s (length ordered)
            (tally_sets cfg normal (length ordered) 0 ordered (start v)))
  ]
]

pub validate_score-Settled :
    (cfg : ScoringConfig) (sets : List SetScore) (s : ℤ)
    → Settled (validate_score cfg sets normal s)
unfolding validate_score
validate_score-Settled cfg [] s = refuse-Settled (winner_violations normal s) _
validate_score-Settled cfg (x ∷ sets) s =
    validate_sets-Settled cfg (sort_sets (x ∷ sets)) s (winner_violations normal s)
