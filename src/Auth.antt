-- ===== src/Auth.antt =====
-- packages/api/src/services/authService.ts and utils/hibp.ts.
pub mod Env
pub mod Sessions
pub mod Login
pub mod Reset
mod Tests
