-- ===== src/Match/Scoring/Set.antt =====
-- `validateSet` of internal/match/scoring.go: one set of a submitted score.
pub mod Legal
pub mod Sides
use tourney_api.Prelude.{
  ℕ, ◌-◌, Bool, true, false, not, ◌&&◌, ◌||◌, Option, none, some, List, [], ◌∷◌, String, ltb, leb,
  ◌==◌, if◌then◌else◌,
}
use tourney_api.Prelude.Int.{ℤ, is_negative, pos_part}
use tourney_api.Match.Scoring.{Violation, violation, SetScore}

-- What `validateSet` returns: the side that won (0 for none), whether the set is complete, and
-- what is wrong with it.
pub record SetResult : Type 0 where
  pub winner : ℕ
  pub complete : Bool
  pub violations : List Violation

abbrev pub refuse_set : String → String → SetResult
refuse_set field rule = record {
  winner = 0;
  complete = false;
  violations = violation field rule ∷ [];
}

abbrev pub in_progress : SetResult
in_progress = record { winner = 0; complete = false; violations = [] }

abbrev pub won_by : ℕ → SetResult
won_by side = record { winner = side; complete = true; violations = [] }

abbrev pub is_some {ℓ} : {A : Type ℓ} → Option A → Bool
is_some none = false
is_some (some x) = true

abbrev pub negative_tiebreak : Option ℤ → Bool
negative_tiebreak none = false
negative_tiebreak (some t) = is_negative t

-- The branch for a deciding match tiebreak; the games fields hold its points.
unfoldable pub validate_decider : ℕ → ℕ → Bool → Bool → SetResult
validate_decider a b has_tiebreak allow_partial =
    if has_tiebreak
    then refuse_set "tiebreak" "set.decider_tiebreak_fields"
    else (if leb 10 hi && (leb 2 (hi - lo) && (hi == 10 || hi - lo == 2))
        then (if ltb b a then won_by 1 else won_by 2)
        else (if allow_partial then in_progress else refuse_set "games" "set.decider_illegal"))
  where
    hi : ℕ
    hi = if ltb a b then b else a

    lo : ℕ
    lo = if ltb a b then a else b

-- The tiebreak of a 7-6 set whose winner is `hi_side`.
unfoldable pub validate_tiebreak : ℕ → ℕ → ℕ → SetResult
validate_tiebreak ta tb hi_side =
    if not (leb 7 tw && (leb 2 (tw - tl) && (tw == 7 || tw - tl == 2)))
    then refuse_set "tiebreak" "set.tiebreak_illegal"
    else (if not (tw_side == hi_side)
        then refuse_set "tiebreak" "set.tiebreak_winner_mismatch"
        else won_by hi_side)
  where
    tw : ℕ
    tw = if ltb ta tb then tb else ta

    tl : ℕ
    tl = if ltb ta tb then ta else tb

    tw_side : ℕ
    tw_side = if ltb ta tb then 2 else 1

-- A 7-6 set with its tiebreak fields, which are not negative.
unfoldable pub validate_seven_six : Option ℤ → Option ℤ → ℕ → Bool → SetResult
validate_seven_six (some ta) (some tb) hi_side allow_partial =
    validate_tiebreak (pos_part ta) (pos_part tb) hi_side
validate_seven_six none _ hi_side allow_partial =
    if allow_partial then in_progress else refuse_set "tiebreak" "set.tiebreak_required"
validate_seven_six (some ta) none hi_side allow_partial =
    if allow_partial then in_progress else refuse_set "tiebreak" "set.tiebreak_required"

-- `partialOK`, with its two later assignments.
unfoldable pub partial_ok : ℕ → ℕ → Bool
partial_ok hi lo =
    if ltb 7 hi || (hi == 7 && ltb lo 5)
    then false
    else (if leb hi 5 || (hi == 6 && leb 5 lo)
        then true
        else (leb hi 6 || ((hi == 7 && lo == 6) || (hi == 6 && lo == 6))))

unfoldable pub validate_regular : ℕ → ℕ → Option ℤ → Option ℤ → Bool → SetResult
unfolding validate_seven_six partial_ok
validate_regular a b ta tb allow_partial =
    if hi == 6 && leb lo 4
    then (if is_some ta || is_some tb
        then refuse_set "tiebreak" "set.tiebreak_unexpected"
        else won_by hi_side)
    else (if hi == 7 && lo == 5
        then (if is_some ta || is_some tb
            then refuse_set "tiebreak" "set.tiebreak_unexpected"
            else won_by hi_side)
        else (if hi == 7 && lo == 6
            then validate_seven_six ta tb hi_side allow_partial
            else (if allow_partial && partial_ok hi lo
                then in_progress
                else refuse_set "games" "set.illegal")))
  where
    hi : ℕ
    hi = if ltb a b then b else a

    lo : ℕ
    lo = if ltb a b then a else b

    hi_side : ℕ
    hi_side = if ltb a b then 2 else 1

-- After the first test no number is negative, so `pos_part` loses nothing.
unfoldable pub validate_set : SetScore → Bool → Bool → SetResult
validate_set st is_decider allow_partial =
    if is_negative st.p1_games
      || (is_negative st.p2_games
          || (negative_tiebreak st.p1_tiebreak || negative_tiebreak st.p2_tiebreak))
    then refuse_set "games" "set.negative"
    else (if is_decider
        then validate_decider (pos_part st.p1_games) (pos_part st.p2_games)
            (is_some st.p1_tiebreak || is_some st.p2_tiebreak) allow_partial
        else validate_regular (pos_part st.p1_games) (pos_part st.p2_games) st.p1_tiebreak
            st.p2_tiebreak allow_partial)
