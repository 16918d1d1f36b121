-- ===== src/Schedule/Tests.antt =====
-- Tests of the schedule: two courts, three matches, and the writes of one morning.
use tourney_api.Prelude.{
  ℕ, ◌*◌, ◌≡◌, refl, Bool, true, false, ◌&&◌, ◌||◌, ◌==◌, arith, Option, none, some, List, [], ◌∷◌,
}
use tourney_api.Match.Scoring.{pending, decided_status}
use tourney_api.Auth.Email.{Bytes}
use tourney_api.Schedule.{
  Court, find_court, find_tournament, TournamentRow, CourtMatch, CourtSlot, Schedule,
  find_court_match,
}
use tourney_api.Schedule.Conflicts.{
  SlotWrite, ranges_overlap, near, other_slot, some_of, match_players, not_null, occupied, shares,
}
use tourney_api.Schedule.Write.{references, has_match_row, has_tournament, write_slot}
use tourney_api.Schedule.Service.{CreateSlotRequest}
use tourney_api.Schedule.Accept.{is_done, is_known, acceptable, write_slot_accepts}
use tourney_api.Schedule.Kept.{IsSound}
use tourney_api.Schedule.Calls.{Call, book, cancel, calls, calls-IsSound}

abbrev minutes : ℕ → ℕ
minutes n = n * 60000000

abbrev match_row : ℕ → ℕ → ℕ → CourtMatch
match_row id p q = record {
  id = id;
  event_id = 1;
  status = pending;
  scheduled_at = none;
  court_id = none;
  participants = some p ∷ some q ∷ [];
}

abbrev slot_row : ℕ → ℕ → ℕ → ℕ → ℕ → CourtSlot
slot_row id court m starts ends = record {
  id = id;
  tournament_id = 7;
  court_id = court;
  match_id = some m;
  starts_at = minutes starts;
  ends_at = minutes ends;
}

abbrev the_tournament : TournamentRow
the_tournament = record { id = 7; org_id = 2; slug = 97 ∷ []; published = true }

abbrev court_row : ℕ → Court
court_row id = record { id = id; venue_id = 5; name = id; sort_order = id }

-- Match 51, of players 1 and 2, stands on court 11 from 600 to 640.
abbrev morning : Schedule
morning = record {
  tournaments = the_tournament ∷ [];
  venues = record { id = 5; tournament_id = 7 } ∷ [];
  courts = court_row 11 ∷ court_row 12 ∷ [];
  events = [];
  matches = match_row 51 1 2 ∷ match_row 52 2 3 ∷ match_row 53 4 5 ∷ [];
  slots = slot_row 80 11 51 600 640 ∷ [];
  next_id = 81;
  audit = [];
}

abbrev write_at : Option ℕ → ℕ → ℕ → ℕ → ℕ → Bool → SlotWrite
write_at slot court m starts ends override = record {
  slot_id = slot;
  tournament_id = 7;
  court_id = court;
  match_id = some m;
  starts_at = minutes starts;
  ends_at = minutes ends;
  override_rest = override;
  actor = 9;
  org_id = 2;
}

abbrev accepts : SlotWrite → Bool
accepts w = acceptable morning w

-- The next match on the court may start when the first ends.
back_to_back : accepts (write_at none 11 53 640 680 false) ≡ true
unfolding some_of ranges_overlap near other_slot match_players occupied not_null shares
    find_court_match decided_status references has_match_row has_tournament find_court
    find_tournament
back_to_back = refl

same_court : accepts (write_at none 11 53 620 660 true) ≡ false
unfolding some_of ranges_overlap near other_slot match_players occupied not_null shares
    find_court_match decided_status references has_match_row has_tournament find_court
    find_tournament
same_court = refl

-- Player 2 plays until 640 on the other court.
same_player : accepts (write_at none 12 52 620 660 true) ≡ false
unfolding some_of ranges_overlap near other_slot match_players occupied not_null shares
    find_court_match decided_status references has_match_row has_tournament find_court
    find_tournament
same_player = refl

short_rest : accepts (write_at none 12 52 660 700 false) ≡ false
unfolding some_of ranges_overlap near other_slot match_players occupied not_null shares
    find_court_match decided_status references has_match_row has_tournament find_court
    find_tournament
short_rest = refl

rest_overridden : accepts (write_at none 12 52 660 700 true) ≡ true
unfolding some_of ranges_overlap near other_slot match_players occupied not_null shares
    find_court_match decided_status references has_match_row has_tournament find_court
    find_tournament
rest_overridden = refl

-- A slot does not stand in its own way.
moved : accepts (write_at (some 80) 11 51 610 650 false) ≡ true
unfolding some_of ranges_overlap near other_slot match_players occupied not_null shares
    find_court_match decided_status references has_match_row has_tournament find_court
    find_tournament
moved = refl

write_slot_accepts_example :
    is_done (write_slot (write_at none 12 52 660 700 true) morning)
    ≡ (is_known morning none && acceptable morning (write_at none 12 52 660 700 true))
write_slot_accepts_example = write_slot_accepts (write_at none 12 52 660 700 true) morning

-- An id is its one byte, and a time its minutes.
abbrev one_byte : Bytes → Option ℕ
one_byte [] = none
one_byte (b ∷ rest) = some b

abbrev quarter_hours : Bytes → Option ℕ
quarter_hours [] = none
quarter_hours (b ∷ rest) = some (minutes (b * 15))

-- Match 53 on court 12 from 600 to 645.
abbrev booking : CreateSlotRequest
booking = record {
  tournament_id = 7 ∷ [];
  court_id = 12 ∷ [];
  match_id = some (53 ∷ []);
  starts_at = 40 ∷ [];
  ends_at = 43 ∷ [];
  override_rest_buffer = false;
}

abbrev the_calls : List Call
the_calls = book 9 (some 2) booking ∷ book 9 (some 2) booking ∷ cancel 80 9 none ∷ []

-- A correction has left player 2 in two slots at one time.
abbrev crowded : Schedule
crowded = record morning {
  courts = court_row 13 ∷ morning.courts;
  slots = slot_row 79 13 52 600 640 ∷ morning.slots;
}

abbrev left_over : CourtSlot → CourtSlot → Bool
left_over a b = (a.id == 79 && b.id == 80) || (a.id == 80 && b.id == 79)

left_over_sym : (a b : CourtSlot) → left_over a b ≡ left_over b a
left_over_sym a b = ground arith

calls-IsSound_example : IsSound left_over (calls one_byte quarter_hours the_calls crowded)
unfolding some_of ranges_overlap occupied match_players not_null shares find_court_match
    decided_status
calls-IsSound_example =
    calls-IsSound left_over left_over_sym one_byte quarter_hours the_calls crowded
      (refl, (refl, (refl, tt)))

no_court : accepts (write_at none 13 53 640 680 false) ≡ false
unfolding some_of ranges_overlap near other_slot match_players occupied not_null shares
    find_court_match decided_status references has_match_row has_tournament find_court
    find_tournament
no_court = refl
