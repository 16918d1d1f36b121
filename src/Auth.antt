-- ===== src/Auth.antt =====
-- internal/auth: addresses, one-time codes and the limiter of attempts.
pub mod Email
pub mod Limiter
pub mod Otp
pub mod Sessions
pub mod Invitations
pub mod SignIn
