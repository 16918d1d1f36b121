-- ===== src/Draw.antt =====
-- internal/draw: the generators of the tournament formats. A participant is named by a number, the
-- name of its uuid, and a slice of matches is a list.
pub mod Bracket
pub mod Fixtures
pub mod RoundRobin
pub mod Tables
pub mod Standings
pub mod Rebuild
pub mod Groups
pub mod Pairs
pub mod Build
pub mod Knockout
use tourney_api.Prelude.{ℕ, Bool, true, false, Option, none, some, String}

pub record Entry : Type 0 where
  pub participant_id : ℕ
  pub seed : ℕ

pub record Slot : Type 0 where
  pub participant_id : Option ℕ
  pub is_bye : Bool
  pub source_label : String
  pub source_group_idx : ℕ
  pub source_rank : ℕ

-- A Go index that is -1 or not below 0 is an option: `none` for -1.
pub record Match : Type 0 where
  pub round : ℕ
  pub match_in_round : ℕ
  pub slot1 : Slot
  pub slot2 : Slot
  pub next_match_idx : Option ℕ
  pub next_slot : ℕ
  pub group_index : Option ℕ

-- The zero value of a slot: fed by an earlier match.
abbrev pub empty_slot : Slot
empty_slot = record {
  participant_id = none;
  is_bye = false;
  source_label = "";
  source_group_idx = 0;
  source_rank = 0;
}

abbrev pub bye_slot : Slot
bye_slot = record empty_slot { is_bye = true }

abbrev pub filled_slot : ℕ → Slot
filled_slot p = record empty_slot { participant_id = some p }

-- `Match{Round: r, MatchInRound: i, Slot1: s, Slot2: t}`; the other fields are zero values.
abbrev pub fresh_match : ℕ → ℕ → Slot → Slot → Match
fresh_match r i s t = record {
  round = r;
  match_in_round = i;
  slot1 = s;
  slot2 = t;
  next_match_idx = some 0;
  next_slot = 0;
  group_index = some 0;
}
