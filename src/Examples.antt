-- ===== src/Examples.antt =====
-- Concrete data, tests, and each theorem at an input that meets its hypotheses.
mod Samples
mod Identifiers
mod Assignments
mod Managers
mod Families
mod Values
mod Partners
mod Visits
mod Broadcasts
mod Searches
mod Collects
mod Fleet
mod Updates
mod Monitoring
mod Guardians
mod Reloads
mod Partnership
