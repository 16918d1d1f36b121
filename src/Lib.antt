-- ===== src/Lib.antt =====
-- Verification of the tournament API: the rules that decide a match, the draws and fixtures of an
-- event, and the codes that sign a user in.
--
-- The program is an HTTP service over a Postgres database. An organizer draws an event
-- (internal/draw), officials send the sets of a match (internal/match) whose winner then goes on to
-- the next match of the draw, and users sign in with a code sent to their address (internal/auth).
--
-- - Prelude: the names, lists, integers and case splits that the other modules share. Go's `int`
--   is ℕ where the code only counts, and ℤ where it reads a number from a client.
-- - Match/Scoring: internal/match/scoring.go. Scoring/Set has `validateSet`, Scoring/Score has
--   `ValidateScore` with its loop as a `Tally` passed along. Violations keep their set, field and
--   rule; their message texts are left out.
-- - Match/Config: `ParseScoringConfig` of the same file, on a decoded document.
-- - Match/Save: `SaveScore` and `SetStatus` of internal/match/repository.go, as functions of the
--   tables; what it refuses leaves them as they were. Match/Submit: `SubmitScore` and `SetStatus` of
--   internal/match/service.go, which call it, and `GetPublic`.
-- - Draw/Tables: the rows of the tables that these share. Draw/Standings, Draw/Rebuild and
--   Draw/Groups: internal/draw/service.go, its standings, the rebuild of the slots that a score
--   changes (the same code for a winner's slots in internal/match/repository.go), and the finishers
--   of the groups. A query of rows in SQL is a recursive function on the list of them.
-- - Draw/RoundRobin: internal/draw/round_robin.go, with the entries themselves in the circle.
-- - Draw: the types of internal/draw/single_elim.go. Draw/Bracket: its generators, and
--   `GenerateFromPairs` of internal/draw/manual.go. A match refers to its next match by index.
-- - Draw/Fixtures: internal/draw/manual_setup.go, less `SetGroups`. An event is a record with its
--   rows, an SQL statement a function of them, and a call that fails leaves the rows as they were.
--   Draw/Fixtures/Generate has `GenerateRoundRobinFixtures`.
-- - Auth/Email: internal/auth/email.go, for ASCII. Auth/Otp: internal/auth/otp.go, with the
--   hash, the pepper and the random number as parameters, and the times as arguments.
--   Auth/Limiter: internal/auth/ratelimit.go. Auth/Sessions: internal/auth/session.go, the
--   sign-out, suspension and `RevokeInvitation` of internal/auth/service.go,
--   internal/auth/impersonation.go, and `ChangeRole` of internal/platform/admin_users.go; a
--   refresh token and its digest are numbers, with SHA-256 as a parameter. Auth/Invitations:
--   internal/auth/invitation.go. Auth/SignIn: internal/auth/otp_service.go over the stores of
--   these, with the mail service as a parameter.
-- - Draw/Pairs: `validatePairs` of internal/draw/service.go. Draw/Build: its `Build` and
--   `persistWithGroups`, which number the new rows from the next id on. Draw/Knockout: `SetGroups` of
--   internal/draw/manual_setup.go and `buildKnockoutFromSlots` of internal/draw/group_knockout.go;
--   Knockout/Seeded has the rest of that file, which only its tests call.
-- - Event/Slug: internal/event/slug.go, on runes. Its unbounded loop gets as many rounds as there
--   are slugs to avoid, and one more.
-- - Schedule: internal/schedule. The root has the rows, Schedule/Conflicts `validateSlotWrite`,
--   Schedule/Write `WriteSlot` and `DeleteSlot` with the constraints of `schedule_slots`, its
--   foreign keys included, Schedule/Service the calls of service.go, Schedule/Lists the courts and
--   the listings. The advisory lock makes a call one step. `uuid.Parse` and `time.Parse` are
--   parameters.
--
-- Loops over slices are recursion on lists. `nextPowerOfTwo`, `log2` and `seedPositions` loop on
-- numbers: they take their argument as fuel, since each pass at least adds one to the value
-- (`nextPowerOfTwo`, `seedPositions`) or takes one from it (`log2`). Calls are steps of their own,
-- one after the other: the advisory lock of an event and the row lock of a challenge see to that.
-- The calls on sessions have no such lock, and what is said of them is said of calls that do not
-- overlap: two calls of `StartImpersonation` that overlap may both find no impersonation live.
-- Machine integers do not overflow at the sizes of an event, and are not bounded.
--
-- Not modelled: HTTP handlers and middleware, access tokens and passwords, the reads of
-- internal/draw/service.go, the listings of matches, tournaments and their events and participants,
-- the realtime hub, mail, the commands, and errors of the database connection.
pub mod Prelude
pub mod Match
pub mod Draw
pub mod Auth
pub mod Event
pub mod Schedule
