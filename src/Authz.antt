-- ===== src/Authz.antt =====
-- The end users' login service, apps/authz/src: rate limits, one-time codes and sessions.
pub mod Limit
pub mod Crypto
pub mod Limits
pub mod Allowed
pub mod Challenge
pub mod Store
pub mod Service
pub mod SignIn
pub mod Login
pub mod Consumed
pub mod Steps
pub mod Logout
pub mod App
pub mod Limited
pub mod Checks
pub mod Tests
pub mod Slots
pub mod Codes
pub mod Updates
pub mod Guesses
pub mod Bound
pub mod Requests
