-- ===== src/Programs.antt =====
-- src/bin: the demonstrations and the trial programs, without what they print.
pub mod Demo
pub mod LowLevelDemo
pub mod Trials
