-- ===== src/Retry.antt =====
-- Error categories and retries of AWS calls (pkg/aws/retry/retry.go).
pub mod Category
pub mod Loop
mod Tests
