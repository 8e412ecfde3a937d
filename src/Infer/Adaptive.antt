-- ===== src/Infer/Adaptive.antt =====
-- infer/adaptive.hpp and infer/adaptive.cpp: the adaption of step sizes, temperatures and shapes.
pub mod Regression
pub mod Shaper
pub mod Tests
