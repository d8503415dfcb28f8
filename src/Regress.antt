-- ===== src/Regress.antt =====
-- internal/regress/regress_test.go: the regression runner. run feeds a script to a session and
-- collects its output; upToChapter chooses the scripts; diff, which internal/isolation/isolation_test.go
-- repeats, words a difference.
pub mod Run
pub mod Chapters
pub mod Diff
pub mod Same
pub mod Disk
pub mod Compare
pub mod Suite
