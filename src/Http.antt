-- ===== src/Http.antt =====
-- app/interfaces/http: response codes, and what a client is told of an exception.
pub mod Code
pub mod Error
pub mod Render
