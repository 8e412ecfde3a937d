-- ===== src/Comms.antt =====
-- comms/: messages, sockets and routers, and the server's and the workers' message handlers.
pub mod Messages
pub mod Socket
pub mod Router
pub mod Delegator
pub mod Worker
pub mod Minion
pub mod Requester
pub mod ServerHeartbeat
pub mod ClientHeartbeat
pub mod Pipeline
mod Tests
