-- ===== src/Users.antt =====
-- The user context (app/contexts/user): domain, persistence and application services.
pub mod Errors
pub mod Transaction
pub mod Repository
pub mod Crypto
pub mod Service
pub mod UserService
pub mod LoginAttempts
pub mod RedisLoginAttempts
pub mod AuthService
pub mod Login
pub mod Logout
pub mod SessionRepository
pub mod Tables
pub mod Sql
pub mod Conflict
pub mod Session
pub mod User
pub mod Unicode
pub mod Values
pub mod Email
