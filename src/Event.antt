-- ===== src/Event.antt =====
-- internal/event: the divisions of a tournament.
pub mod Slug
