-- ===== src/Client.antt =====
-- sdk/go/yvonne/retry_circuit_breaker.go: the circuit breaker and the retries of the Go client.
pub mod Breaker
pub mod Tripping
pub mod Retry
pub mod Retrying
