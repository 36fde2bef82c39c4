-- ===== src/Access.antt =====
-- Who may call the panel's API: backend/internal/api/middleware, the packages jwtutil and apitoken,
-- and the handlers of backend/internal/api that sign in, sign out and mint tokens.
pub mod Reply
pub mod Scopes
pub mod ApiToken
pub mod Jwt
pub mod Api
pub mod Auth
pub mod Login
pub mod Sessions
pub mod Example
