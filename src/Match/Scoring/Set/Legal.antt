-- ===== src/Match/Scoring/Set/Legal.antt =====
-- The rules of a won set, stated apart from the code, and `validateSet` against them.
use tourney_api.Prelude.{
  ℕ, ◌+◌, ◌≤◌, ◌≡◌, ◌↔◌, ◌⊎◌, Bool, true, false, Option, none, some, [], arith,
}
use tourney_api.Prelude.Int.{ℤ, pos}
use tourney_api.Match.Scoring.{SetScore}
use tourney_api.Match.Scoring.Set.{
  SetResult, validate_decider, validate_regular, validate_set, validate_tiebreak,
}

-- `x` to `y` wins at `need` points with a lead of two, and of exactly two beyond `need`.
abbrev pub Points : ℕ → ℕ → ℕ → Type 0
Points need x y = (need ≤ x) × (y + 2 ≤ x) × ((x ≡ need) ⊎ (x ≡ y + 2))

-- The side with the first games and the first tiebreak wins the set.
abbrev pub SideWins : Bool → ℤ → ℤ → Option ℤ → Option ℤ → Type 0
SideWins true (pos x) (pos y) none none = Points 10 x y
SideWins false (pos x) (pos y) none none = ((x ≡ 6) × (y ≤ 4)) ⊎ ((x ≡ 7) × (y ≡ 5))
SideWins false (pos x) (pos y) (some (pos u)) (some (pos v)) = (x ≡ 7) × (y ≡ 6) × Points 7 u v
SideWins _ _ _ _ _ = ⊥

abbrev pub Wins : Bool → SetScore → ℕ → Type 0
Wins decider st w =
    ((w ≡ 1) × SideWins decider st.p1_games st.p2_games st.p1_tiebreak st.p2_tiebreak)
    ⊎ ((w ≡ 2) × SideWins decider st.p2_games st.p1_games st.p2_tiebreak st.p1_tiebreak)

abbrev sheet : ℤ → ℤ → ℤ → Option ℤ → Option ℤ → SetScore
sheet n a b ta tb = record {
  set_number = n;
  p1_games = a;
  p2_games = b;
  p1_tiebreak = ta;
  p2_tiebreak = tb;
}

abbrev WonAs : SetResult → ℕ → Type 0
WonAs r w = (r.complete ≡ true) × (r.winner ≡ w)

to_Wins :
    (d : Bool) (n a b : ℤ) (ta tb : Option ℤ) (p : Bool) (w : ℕ)
    → WonAs (validate_set (sheet n a b ta tb) d p) w
    → Wins d (sheet n a b ta tb) w
unfolding validate_set validate_decider validate_regular validate_tiebreak
to_Wins true n (pos a) (pos b) none none p w h = ground arith
to_Wins false n (pos a) (pos b) none none p w h = ground arith
to_Wins false n (pos a) (pos b) (some (pos u)) (some (pos v)) p w h = ground arith
to_Wins _ n _ _ _ _ p w h = ground arith

of_Wins :
    (d : Bool) (n a b : ℤ) (ta tb : Option ℤ) (p : Bool) (w : ℕ)
    → Wins d (sheet n a b ta tb) w
    → WonAs (validate_set (sheet n a b ta tb) d p) w
unfolding validate_set validate_decider validate_regular validate_tiebreak
of_Wins true n (pos a) (pos b) none none p w h = ground arith
of_Wins false n (pos a) (pos b) none none p w h = ground arith
of_Wins false n (pos a) (pos b) (some (pos u)) (some (pos v)) p w h = ground arith
of_Wins _ n _ _ _ _ p w h = ground arith

-- A set is complete with winner `w` exactly when `w` is side 1 or 2 and the rules give the set to
-- that side, for a regular set and for a deciding match tiebreak, partial sets allowed or not.
pub validate_set-Wins :
    (st : SetScore) (decider allow_partial : Bool) (w : ℕ)
    → (((validate_set st decider allow_partial).complete ≡ true)
        × ((validate_set st decider allow_partial).winner ≡ w))
      ↔ Wins decider st w
validate_set-Wins st d p w = (
  to_Wins d st.set_number st.p1_games st.p2_games st.p1_tiebreak st.p2_tiebreak p w,
  of_Wins d st.set_number st.p1_games st.p2_games st.p1_tiebreak st.p2_tiebreak p w,
)

-- What a set that is not complete may carry on with.
pub complete-no_violation :
    (st : SetScore) (d p : Bool)
    → (validate_set st d p).complete ≡ true
    → (validate_set st d p).violations ≡ []
unfolding validate_set validate_decider validate_regular validate_tiebreak
complete-no_violation st d p h = ground arith
