-- ===== src/App.antt =====
-- app/: the run of the sampler in the server, and that of a minion at a worker.
pub mod ServerWrapper
pub mod Api
pub mod Settings
pub mod WorkerWrapper
pub mod Tests
