-- ===== src/Router.antt =====
-- llm/router.py: the circuit breaker that keeps a failing provider of a language model out of use.
pub mod Circuit
pub mod Cooldown
pub mod Tests
