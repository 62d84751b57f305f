-- ===== src/Breaker.antt =====
-- The circuit breakers round AWS calls, pkg/aws/retry/circuit_breaker.go, and round DPDK operations,
-- pkg/eni-manager/dpdk/circuit_breaker.go. A section under the mutex is one step. Times are nanoseconds
-- on one clock; counters and thresholds are not negative, and a negative threshold acts like 0.
pub mod Aws
pub mod Dpdk
mod Tests
