-- ===== src/Tests.antt =====
-- The theorems at concrete inputs.
mod Tables
mod Gate
mod Messages
mod Notices
mod Tokens
mod Interleaved
mod Granted
mod Startup
mod Changes
mod Signin
