-- ===== src/Comms/Delegator.antt =====
-- comms/delegator.hpp and comms/delegator.cpp: the server that hands jobs to workers.
pub mod State
pub mod Schedule
pub mod Handlers
pub mod Polling
pub mod Wiring
pub mod Scenario
mod Tests
pub mod Count
pub mod Estimates
pub mod Choice
pub mod Choosing
pub mod Telling
pub mod Keeping
pub mod Assigning
pub mod Assignment
pub mod Answering
pub mod Answered
pub mod Recording
pub mod Receiving
pub mod Faults
pub mod Requesting
pub mod Submitting
pub mod Connecting
pub mod Routing
pub mod Events
pub mod Histories
pub mod Answers
pub mod Effects
pub mod Runs
pub mod Completed
pub mod Completion
