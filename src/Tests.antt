-- ===== src/Tests.antt =====
-- Runs of the definitions, and the theorems at concrete inputs.
mod Blanks
mod Suites
mod Prints
mod Schedules
mod Writers
mod Snapshots
mod Tables
mod Mains
mod Specs
mod Pages
mod Files
mod Sessions
mod Tokens
mod Texts
