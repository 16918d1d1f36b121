-- ===== src/Match/Scoring/Score/Sides.antt =====
-- `ValidateScore` treats the two sides alike.
use tourney_api.Prelude.{
  ℕ, ◌+◌, ◌≡◌, refl, ◌∙◌, ap, ◌⊎◌, true, List, [], ◌∷◌, map, arith, length, length-map,
  if◌then◌else◌,
}
use tourney_api.Prelude.Int.{ℤ, pos, ◌==ℤ◌, eq_iff}
use tourney_api.Match.Scoring.{
  ScoringConfig, SetScore, Violation, Completion, normal, other, status_for_completion,
}
use tourney_api.Match.Scoring.Set.{SetResult, validate_set}
use tourney_api.Match.Scoring.Set.Sides.{swap_set, swap_result, validate_set-swap_set, winner_side}
use tourney_api.Match.Scoring.Score.{
  Tally, Outcome, refuse, refuse_or, conclude, numbering, start, validate_sets, validate_score,
  insert_set, sort_sets, tally_set, tally_sets, sets_to_win, winner_violations, is_decider,
  allow_partial,
}
use tourney_api.Match.Scoring.Score.Loop.{IsFairTally, tally_sets-IsFairTally}
use tourney_api.Match.Scoring.Score.Accept.{fair_start}

abbrev pub swap_winner : ℤ → ℤ
swap_winner w = if w ==ℤ pos 1 then pos 2 else (if w ==ℤ pos 2 then pos 1 else w)

abbrev pub swap_outcome : Outcome → Outcome
swap_outcome o = record o { winner = swap_winner o.winner }

abbrev swap_tally : Tally → Tally
swap_tally t = record t { won1 = t.won2; won2 = t.won1 }

insert_set-swap :
    (st : SetScore) (l : List SetScore)
    → insert_set (swap_set st) (map swap_set l) ≡ map swap_set (insert_set st l)
unfolding insert_set
insert_set-swap st [] = refl
insert_set-swap st (x ∷ l) = ground (arith, insert_set-swap st l)

sort_sets-swap : (l : List SetScore) → sort_sets (map swap_set l) ≡ map swap_set (sort_sets l)
unfolding sort_sets
sort_sets-swap [] = refl
sort_sets-swap (st ∷ l) =
    ap (insert_set (swap_set st)) (sort_sets-swap l) ∙ insert_set-swap st (sort_sets l)

numbering-swap : (i : ℕ) (l : List SetScore) → numbering i (map swap_set l) ≡ numbering i l
unfolding numbering
numbering-swap i [] = refl
numbering-swap i (st ∷ l) = ground (arith, numbering-swap (i + 1) l)

tally_set-swap :
    (cfg : ScoringConfig) (n : ℕ) (st : SetScore) (r : SetResult) (t : Tally)
    → (r.complete ≡ true → (r.winner ≡ 1) ⊎ (r.winner ≡ 2))
    → tally_set cfg n (swap_set st) (swap_result r) (swap_tally t)
      ≡ swap_tally (tally_set cfg n st r t)
unfolding tally_set
tally_set-swap cfg n st r t side = ground arith

tally_sets-swap :
    (cfg : ScoringConfig) (c : Completion) (total i : ℕ) (l : List SetScore) (t : Tally)
    → tally_sets cfg c total i (map swap_set l) (swap_tally t)
      ≡ swap_tally (tally_sets cfg c total i l t)
unfolding tally_sets
tally_sets-swap cfg c total i [] t = refl
tally_sets-swap cfg c total i (st ∷ l) t =
    let d = is_decider cfg (i + 1) in
    let p = allow_partial c total (i + 1) in
    ap (tally_sets cfg c total (i + 1) (map swap_set l)) (
      ap (λ r. tally_set cfg (i + 1) (swap_set st) r (swap_tally t)) (validate_set-swap_set st d p)
      ∙ tally_set-swap cfg (i + 1) st (validate_set st d p) t (winner_side st d p))
    ∙ tally_sets-swap cfg c total (i + 1) l (tally_set cfg (i + 1) st (validate_set st d p) t)

conclude-swap :
    (need : ℕ) (c : Completion) (w : ℤ) (total : ℕ) (t : Tally)
    → IsFairTally need t
    → conclude c (swap_winner w) total (swap_tally t) ≡ swap_outcome (conclude c w total t)
unfolding conclude status_for_completion
conclude-swap need normal w total t v = ground (arith, v.decided)
conclude-swap need c w total t v = ground arith

refuse_or-swap :
    (vs : List Violation) (a b : Outcome)
    → a ≡ swap_outcome b
    → refuse_or vs a refuse ≡ swap_outcome (refuse_or vs b refuse)
unfolding refuse_or
refuse_or-swap [] a b e = e
refuse_or-swap (x ∷ xs) a b e = refl

winner_violations-swap :
    (c : Completion) (w : ℤ) → winner_violations c (swap_winner w) ≡ winner_violations c w
unfolding winner_violations
winner_violations-swap Completion.walkover w =
    ground (arith, eq_iff w (pos 1), eq_iff w (pos 2), eq_iff w (pos 0))
winner_violations-swap _ w = ground (arith, eq_iff w (pos 1), eq_iff w (pos 2), eq_iff w (pos 0))

validate_sets-swap :
    (cfg : ScoringConfig) (l : List SetScore) (c : Completion) (w : ℤ) (v : List Violation)
    → validate_sets cfg (map swap_set l) c (swap_winner w) v
      ≡ swap_outcome (validate_sets cfg l c w v)
unfolding validate_sets
validate_sets-swap cfg l c w v = ground (arith, numbering-swap 0 l, length-map l swap_set, run)
  where
    t : Tally
    t = tally_sets cfg c (length l) 0 l (start v)

    loop : tally_sets cfg c (length (map swap_set l)) 0 (map swap_set l) (start v) ≡ swap_tally t
    loop =
        ap (λ n. tally_sets cfg c n 0 (map swap_set l) (start v)) (length-map l swap_set)
        ∙ tally_sets-swap cfg c (length l) 0 l (start v)

    run :
        let t' = tally_sets cfg c (length (map swap_set l)) 0 (map swap_set l) (start v) in
        refuse_or t'.violations (conclude c (swap_winner w) (length (map swap_set l)) t') refuse
        ≡ swap_outcome (refuse_or t.violations (conclude c w (length l) t) refuse)
    run =
        rw (loop, length-map l swap_set)
          (refuse_or-swap t.violations (conclude c (swap_winner w) (length l) (swap_tally t))
            (conclude c w (length l) t)
            (conclude-swap (sets_to_win cfg) c w (length l) t
              (tally_sets-IsFairTally cfg c (length l) 0 l (start v) (fair_start cfg v))))

sorted_sets-swap :
    (cfg : ScoringConfig) (sets : List SetScore) (c : Completion) (w : ℤ)
    → validate_sets cfg
        (sort_sets (map swap_set sets))
        c
        (swap_winner w)
        (winner_violations c (swap_winner w))
      ≡ swap_outcome (validate_sets cfg (sort_sets sets) c w (winner_violations c w))
sorted_sets-swap cfg sets c w =
    rw (sort_sets-swap sets, winner_violations-swap c w)
      (validate_sets-swap cfg (sort_sets sets) c w (winner_violations c w))

-- A score read from the other side of the net, its sets and its winner slot exchanged, has the
-- same verdict with the winner exchanged, whatever the completion, violations included.
pub validate_score-swap :
    (cfg : ScoringConfig) (sets : List SetScore) (c : Completion) (w : ℤ)
    → validate_score cfg (map swap_set sets) c (swap_winner w)
      ≡ swap_outcome (validate_score cfg sets c w)
unfolding validate_score status_for_completion
validate_score-swap cfg sets (other s) w = refl
validate_score-swap cfg [] Completion.walkover w =
    rw (winner_violations-swap Completion.walkover w) (refuse_or-swap _ _ _ refl)
validate_score-swap cfg (st ∷ sets) Completion.walkover w =
    rw (winner_violations-swap Completion.walkover w) (refuse_or-swap _ _ _ refl)
validate_score-swap cfg [] Completion.cancelled w = sorted_sets-swap cfg [] Completion.cancelled w
validate_score-swap cfg [] c w = rw (winner_violations-swap c w)
validate_score-swap cfg (st ∷ sets) c w = sorted_sets-swap cfg (st ∷ sets) c w
