-- ===== src/Match/Scoring/Score.antt =====
-- `ValidateScore` of internal/match/scoring.go: the sets of a submission together.
pub mod Order
pub mod Loop
pub mod Normal
pub mod Accept
pub mod Sides
pub mod Tests
use tourney_api.Prelude.{
  ℕ, ◌+◌, ◌/◌, Bool, true, false, not, ◌&&◌, ◌||◌, Option, none, some, List, [], ◌∷◌, ◌++◌, map,
  ltb, ◌==◌, if◌then◌else◌, length,
}
use tourney_api.Prelude.Int.{ℤ, pos, is_positive, ◌==ℤ◌, ltb_ℤ}
use tourney_api.Match.Scoring.{
  ScoringConfig, DecidingSet, full, match_tiebreak, Violation, violation, Completion, incomplete,
  normal, other, Status, unset, status_for_completion, SetScore,
}
use tourney_api.Match.Scoring.Set.{SetResult, validate_set}

-- `sort.Slice` by set number, as an insertion sort. Sets with one number are refused below, so
-- the order that an unstable sort leaves them in does not matter.
pub insert_set : SetScore → List SetScore → List SetScore
insert_set st [] = st ∷ []
insert_set st (x ∷ xs) =
    if ltb_ℤ x.set_number st.set_number then x ∷ insert_set st xs else st ∷ x ∷ xs

pub sort_sets : List SetScore → List SetScore
sort_sets [] = []
sort_sets (st ∷ sets) = insert_set st (sort_sets sets)

-- The first set, from index `i` on, that is not numbered `i + 1`.
pub numbering : ℕ → List SetScore → Option Violation
numbering i [] = none
numbering i (st ∷ sets) =
    if st.set_number ==ℤ pos (i + 1)
    then numbering (i + 1) sets
    else some (record { set = st.set_number; field = "set_number"; rule = "sets.numbering" })

pub record Tally : Type 0 where
  pub won1 : ℕ
  pub won2 : ℕ
  pub decided_after : ℕ
  pub violations : List Violation

pub sets_to_win : ScoringConfig → ℕ
sets_to_win cfg = cfg.best_of / 2 + 1

abbrev pub is_match_tiebreak : DecidingSet → Bool
is_match_tiebreak full = false
is_match_tiebreak match_tiebreak = true

abbrev pub is_normal : Completion → Bool
is_normal normal = true
is_normal _ = false

-- `won1` or `won2` grows by one, and the match may become decided.
pub count_win : ScoringConfig → ℕ → ℕ → Tally → Tally
count_win cfg winner set_no t =
    if t.decided_after == 0 && (w1 == sets_to_win cfg || w2 == sets_to_win cfg)
    then record t { won1 = w1; won2 = w2; decided_after = set_no }
    else record t { won1 = w1; won2 = w2 }
  where
    w1 : ℕ
    w1 = if winner == 1 then t.won1 + 1 else t.won1

    w2 : ℕ
    w2 = if winner == 1 then t.won2 else t.won2 + 1

-- The sets as `validateSet` sees them: the decider flag, and whether a partial set is allowed.
pub is_decider : ScoringConfig → ℕ → Bool
is_decider cfg set_no =
    is_match_tiebreak cfg.deciding_set && (ltb 1 cfg.best_of && set_no == cfg.best_of)

pub allow_partial : Completion → ℕ → ℕ → Bool
allow_partial completion total set_no = set_no == total && not (is_normal completion)

pub stamp : ℕ → Violation → Violation
stamp set_no v = record v { set = pos set_no }

-- One round of the loop over the ordered sets, given what `validateSet` said.
pub tally_set : ScoringConfig → ℕ → SetScore → SetResult → Tally → Tally
unfolding count_win stamp
tally_set cfg set_no st r t =
    if ltb 0 t.decided_after && (r.complete || (is_positive st.p1_games || is_positive st.p2_games))
    then record noted {
      violations =
          noted.violations
          ++ record { set = pos set_no; field = ""; rule = "sets.after_decided" } ∷ [];
    }
    else (if r.complete then count_win cfg r.winner set_no noted else noted)
  where
    noted : Tally
    noted = record t { violations = t.violations ++ map (stamp set_no) r.violations }

-- The loop; `i` counts the sets that are done, of `total`.
pub tally_sets : ScoringConfig → Completion → ℕ → ℕ → List SetScore → Tally → Tally
tally_sets cfg completion total i [] t = t
tally_sets cfg completion total i (st ∷ sets) t = tally_sets cfg completion total (i + 1) sets (
    tally_set cfg (i + 1) st
      (validate_set st (is_decider cfg (i + 1)) (allow_partial completion total (i + 1))) t)

-- The winner slot (0 for none), the target status and the violations.
pub record Outcome : Type 0 where
  pub winner : ℤ
  pub status : Status
  pub violations : List Violation

abbrev pub refuse : List Violation → Outcome
refuse v = record { winner = pos 0; status = unset; violations = v }

abbrev pub accept : ℤ → Completion → Outcome
unfolding status_for_completion
accept winner completion = record {
  winner = winner;
  status = status_for_completion completion;
  violations = [];
}

-- What is wrong with the winner slot.
pub winner_violations : Completion → ℤ → List Violation
winner_violations Completion.walkover w =
    if w ==ℤ pos 1 || w ==ℤ pos 2 then [] else violation "winner_slot" "winner.required" ∷ []
winner_violations Completion.retired w =
    if w ==ℤ pos 1 || w ==ℤ pos 2 then [] else violation "winner_slot" "winner.required" ∷ []
winner_violations _ w = if w ==ℤ pos 0 then [] else violation "winner_slot" "winner.forbidden" ∷ []

pub start : List Violation → Tally
start v = record { won1 = 0; won2 = 0; decided_after = 0; violations = v }

abbrev pub is_cancelled : Completion → Bool
is_cancelled Completion.cancelled = true
is_cancelled _ = false

abbrev pub is_incomplete : Completion → Bool
is_incomplete incomplete = true
is_incomplete _ = false

-- The last `switch`, for a tally with no violations over `total` sets.
pub conclude : Completion → ℤ → ℕ → Tally → Outcome
conclude normal w total t =
    if t.decided_after == 0
    then refuse (violation "" "sets.unfinished" ∷ [])
    else accept (if ltb t.won1 t.won2 then pos 2 else pos 1) normal
conclude completion w total t =
    if ltb 0 t.decided_after && ltb t.decided_after total
    then refuse (violation "" "sets.after_decided" ∷ [])
    else (if is_incomplete completion && ltb 0 t.decided_after
        then refuse (violation "completion" "completion.decided" ∷ [])
        else accept w completion)

pub refuse_or {ℓ} : {A : Type ℓ} → List A → Outcome → (List A → Outcome) → Outcome
refuse_or [] good bad = good
refuse_or (v ∷ vs) good bad = bad (v ∷ vs)

-- From the numbering on, with `v` what is already wrong.
pub validate_sets : ScoringConfig → List SetScore → Completion → ℤ → List Violation → Outcome
unfolding numbering start conclude refuse_or
validate_sets cfg ordered completion w v = elim (numbering 0 ordered) [
  | some bad ↦ refuse (v ++ bad ∷ [])
  | none ↦
      if ltb cfg.best_of (length ordered)
      then refuse (v ++ violation "" "sets.too_many" ∷ [])
      else (let t = tally_sets cfg completion (length ordered) 0 ordered (start v) in
          refuse_or t.violations (conclude completion w (length ordered) t) refuse)
]

abbrev is_empty {ℓ} : {A : Type ℓ} → List A → Bool
is_empty [] = true
is_empty (x ∷ xs) = false

-- `ValidateScore`.
pub validate_score : ScoringConfig → List SetScore → Completion → ℤ → Outcome
validate_score cfg sets (other s) w = refuse (violation "completion" "completion.invalid" ∷ [])
validate_score cfg sets Completion.walkover w =
    refuse_or
      (winner_violations Completion.walkover w
        ++ (if is_empty sets then [] else violation "" "sets.walkover" ∷ []))
      (accept w Completion.walkover) refuse
validate_score cfg sets completion w =
    if is_empty sets && not (is_cancelled completion)
    then refuse (winner_violations completion w ++ violation "" "sets.required" ∷ [])
    else validate_sets cfg (sort_sets sets) completion w (winner_violations completion w)
