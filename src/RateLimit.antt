-- ===== src/RateLimit.antt =====
-- plugins/ratelimit: the two in-memory limiters, token_bucket.go and memory_fixed_window.go. Times
-- are nanoseconds, the zero `time.Time` is 0, and a duration that is not positive is 0. Requests
-- come one after another, and no `int` overflows.
pub mod Cleanup
pub mod TokenBucket
pub mod FixedWindow
mod Tests
