-- ===== src/RateLimit.antt =====
-- The two rate limiters: api-gateway/src/middlewares/rateLimiter.ts and
-- core/src/middlewares/rateLimiter.middleware.ts.
pub mod Gateway
pub mod Core
pub mod Rules
pub mod Bucket
mod Exact
mod Shadow
mod Examples
