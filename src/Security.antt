-- ===== src/Security.antt =====
-- platform/security: passwords, tokens, and the rate limiter.
pub mod Tests
pub mod Crypto
pub mod Password
pub mod Token
pub mod RateLimit
