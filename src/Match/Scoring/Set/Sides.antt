-- ===== src/Match/Scoring/Set/Sides.antt =====
-- `validateSet` treats the two sides alike.
use tourney_api.Prelude.{
  ℕ, ◌≡◌, ◌⊎◌, Bool, true, false, Option, none, some, arith, ◌==◌, if◌then◌else◌,
}
use tourney_api.Prelude.Int.{ℤ, pos}
use tourney_api.Match.Scoring.{SetScore}
use tourney_api.Match.Scoring.Set.{
  SetResult, validate_decider, validate_regular, validate_set, validate_tiebreak,
}

-- The same set, read from the other side of the net.
abbrev pub swap_set : SetScore → SetScore
swap_set st = record {
  set_number = st.set_number;
  p1_games = st.p2_games;
  p2_games = st.p1_games;
  p1_tiebreak = st.p2_tiebreak;
  p2_tiebreak = st.p1_tiebreak;
}

abbrev pub swap_side : ℕ → ℕ
swap_side w = if w == 1 then 2 else (if w == 2 then 1 else w)

abbrev pub swap_result : SetResult → SetResult
swap_result r = record r { winner = swap_side r.winner }

abbrev fields : ℤ → ℤ → ℤ → Option ℤ → Option ℤ → SetScore
fields n a b ta tb = record {
  set_number = n;
  p1_games = a;
  p2_games = b;
  p1_tiebreak = ta;
  p2_tiebreak = tb;
}

swap_tiebreak :
    (u v : ℕ)
    → (validate_tiebreak v u 2 ≡ swap_result (validate_tiebreak u v 1))
      × (validate_tiebreak v u 1 ≡ swap_result (validate_tiebreak u v 2))
unfolding validate_tiebreak
swap_tiebreak u v = ground arith

swap_fields :
    (d : Bool) (n a b : ℤ) (ta tb : Option ℤ) (p : Bool)
    → validate_set (fields n b a tb ta) d p ≡ swap_result (validate_set (fields n a b ta tb) d p)
unfolding validate_set validate_decider validate_regular
swap_fields true n (pos a) (pos b) none none p = ground arith
swap_fields false n (pos a) (pos b) none none p = ground arith
swap_fields false n (pos a) (pos b) (some (pos u)) (some (pos v)) p =
    ground (arith, swap_tiebreak u v)
swap_fields _ n _ _ _ _ p = ground arith

pub validate_set-swap_set :
    (st : SetScore) (d p : Bool)
    → validate_set (swap_set st) d p ≡ swap_result (validate_set st d p)
validate_set-swap_set st d p =
    swap_fields d st.set_number st.p1_games st.p2_games st.p1_tiebreak st.p2_tiebreak p

pub winner_side :
    (st : SetScore) (d p : Bool)
    → (validate_set st d p).complete ≡ true
    → ((validate_set st d p).winner ≡ 1) ⊎ ((validate_set st d p).winner ≡ 2)
unfolding validate_set validate_decider validate_regular validate_tiebreak
winner_side st d p h = ground arith
