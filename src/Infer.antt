-- ===== src/Infer.antt =====
-- infer/: the chains of the sampler and the sampler's loop.
pub mod Doubles
pub mod Numbers
pub mod ChainArray
pub mod Adaptive
pub mod Proposal
pub mod Diagnostics
pub mod TableLog
pub mod Sampler
pub mod Tests
