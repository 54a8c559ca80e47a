-- ===== src/Wiring.antt =====
-- The controller and the aggregator share one mapper: from a WolConfig to a VM that is started by a
-- packet at an agent.
pub mod Explicit
pub mod Discovered
mod Tests
