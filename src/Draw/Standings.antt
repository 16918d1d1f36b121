-- ===== src/Draw/Standings.antt =====
-- `GetStandings` and `standingsForGroup` of internal/draw/service.go: the table of an event and of
-- a group. Both count the slots of the matches that ended with a result.
use tourney_api.Prelude.{
  ℕ, suc, Bool, true, false, not, ◌&&◌, ◌||◌, Option, none, some, List, [], ◌∷◌, ltb, ◌==◌,
  if◌then◌else◌,
}
use tourney_api.Prelude.Int.{ℤ, pos, ◌+ℤ◌, ◌-ℤ◌, ltb_ℤ}
use tourney_api.Match.Scoring.{SetScore, Status, completed}
use tourney_api.Draw.Tables.{MatchRow, SlotRow, PlayerRow, Tables, find_match, uuid_ptr_eq}

pub record Standing : Type 0 where
  pub participant_id : ℕ
  pub display_name : ℕ
  pub seed : Option ℕ
  pub played : ℕ
  pub won : ℕ
  pub lost : ℕ
  pub sets_for : ℤ
  pub sets_against : ℤ

-- Cancelled matches and byes do not count.
abbrev pub counts_in_standings : Status → Bool
counts_in_standings completed = true
counts_in_standings Status.walkover = true
counts_in_standings Status.retired = true
counts_in_standings _ = false

-- The games of the sets for a slot, and against it.
unfoldable pub sum_games : Bool → List SetScore → ℤ
sum_games first [] = pos 0
sum_games first (s ∷ sets) = (if first then s.p1_games else s.p2_games) +ℤ sum_games first sets

abbrev pub is_winner : ℕ → Option ℕ → Bool
is_winner pid none = false
is_winner pid (some w) = w == pid

abbrev pub is_loser : ℕ → Option ℕ → Bool
is_loser pid none = false
is_loser pid (some w) = not (w == pid)

unfoldable pub add_played : SlotRow → MatchRow → Standing → Standing
add_played s m st = record st {
  played = suc st.played;
  won = if is_winner st.participant_id m.winner_participant_id then suc st.won else st.won;
  lost = if is_loser st.participant_id m.winner_participant_id then suc st.lost else st.lost;
  sets_for = sum_games (s.slot == 1) m.sets +ℤ st.sets_for;
  sets_against = sum_games (not (s.slot == 1)) m.sets +ℤ st.sets_against;
}

-- An event's table counts all its matches, a group's those of the group.
abbrev pub of_event : ℕ → MatchRow → Bool
of_event event m = m.event_id == event

abbrev pub of_group : ℕ → MatchRow → Bool
of_group group m = uuid_ptr_eq m.group_id (some group)

unfoldable pub tally_slots : (MatchRow → Bool) → List MatchRow → List SlotRow → Standing → Standing
tally_slots scope matches [] st = st
tally_slots scope matches (s ∷ slots) st =
    let rest = tally_slots scope matches slots st in
    elim (find_match s.match_id matches) [
      | none ↦ rest
      | some m ↦
          if scope m
            && (counts_in_standings m.status
                && uuid_ptr_eq s.participant_id (some st.participant_id))
          then add_played s m rest
          else rest
    ]

unfoldable pub empty_standing : PlayerRow → Standing
empty_standing p = record {
  participant_id = p.id;
  display_name = p.display_name;
  seed = p.seed;
  played = 0;
  won = 0;
  lost = 0;
  sets_for = pos 0;
  sets_against = pos 0;
}

-- `ORDER BY won DESC, sets_for - sets_against DESC, display_name`.
unfoldable pub ranks_before : Standing → Standing → Bool
ranks_before a b =
    ltb b.won a.won
    || (a.won == b.won
        && (ltb_ℤ (b.sets_for -ℤ b.sets_against) (a.sets_for -ℤ a.sets_against)
            || (not (ltb_ℤ (a.sets_for -ℤ a.sets_against) (b.sets_for -ℤ b.sets_against))
                && ltb a.display_name b.display_name)))

unfoldable pub insert_standing : Standing → List Standing → List Standing
insert_standing a [] = a ∷ []
insert_standing a (b ∷ rest) = if ranks_before b a then b ∷ insert_standing a rest else a ∷ b ∷ rest

unfoldable pub sort_standings : List Standing → List Standing
sort_standings [] = []
sort_standings (a ∷ rest) = insert_standing a (sort_standings rest)

unfoldable pub table_of : (MatchRow → Bool) → Tables → List PlayerRow → List Standing
table_of scope db [] = []
table_of scope db (p ∷ players) =
    tally_slots scope db.matches db.slots (empty_standing p) ∷ table_of scope db players

pub players_of : ℕ → List PlayerRow → List PlayerRow
players_of event [] = []
players_of event (p ∷ players) =
    let rest = players_of event players in if p.event_id == event then p ∷ rest else rest

-- Whether a participant stands in a slot of a match of the group.
unfoldable pub plays_in : ℕ → List MatchRow → List SlotRow → ℕ → Bool
plays_in group matches [] pid = false
plays_in group matches (s ∷ slots) pid =
    (uuid_ptr_eq s.participant_id (some pid) && elim (find_match s.match_id matches) [
      | none ↦ false
      | some m ↦ uuid_ptr_eq m.group_id (some group)
    ])
    || plays_in group matches slots pid

unfoldable pub players_in_group : ℕ → Tables → List PlayerRow → List PlayerRow
players_in_group group db [] = []
players_in_group group db (p ∷ players) =
    let rest = players_in_group group db players in
    if plays_in group db.matches db.slots p.id then p ∷ rest else rest

pub event_standings : ℕ → Tables → List Standing
event_standings event db =
    sort_standings (table_of (of_event event) db (players_of event db.players))

unfoldable pub group_standings : ℕ → Tables → List Standing
group_standings group db =
    sort_standings (table_of (of_group group) db (players_in_group group db db.players))
