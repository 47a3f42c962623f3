-- ===== src/Tests.antt =====
-- The theorems of the development at concrete inputs.
mod Sample
mod Order
mod Races
mod Summaries
mod Reports
mod Contexts
mod Traces
mod Openmp
mod PointsTo
mod Solver
mod Memory
