-- ===== src/Comms/Pipeline.antt =====
-- The requester (src/comms/requester.cpp), the delegator and the minions (src/comms/minion.cpp)
-- together.
pub mod Computed
pub mod Runs
pub mod Sample
mod Tests
