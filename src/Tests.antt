-- ===== src/Tests.antt =====
-- Runs of the modelled code on concrete data, and the theorems applied to it.
mod Logs
mod Samples
mod Decisions
mod Journals
mod Texts
mod Forge
mod Results
mod Worlds
mod Protocols
mod Reviews
mod Recoveries
mod Observations
