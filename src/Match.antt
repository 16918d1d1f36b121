-- ===== src/Match.antt =====
-- internal/match: the score of a match, from its rules to the rows that it changes.
pub mod Scoring
pub mod Config
pub mod Save
pub mod Submit
