-- ===== src/Common.antt =====
-- common/: the helpers that both halves of the program use.
pub mod Text
pub mod CircularBuffer
mod Tests
