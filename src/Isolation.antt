-- ===== src/Isolation.antt =====
-- internal/isolation/isolation_test.go: the files that declare sessions, steps and permutations, and the layout
-- of the results that a step prints.
pub mod Scan
pub mod Spec
pub mod Print
pub mod Schedule
pub mod Play
pub mod Suite
