-- ===== src/Engine.antt =====
-- The critical path engine: src/sto/core/engine. `Outcome` has the refusals, `Model` the rows of
-- network.py, `Lag` its lag arithmetic, `Progress` progress.py; the passes follow.
pub mod Outcome
pub mod Model
pub mod Lag
pub mod Progress
pub mod Validate
pub mod Topology
pub mod Place
pub mod Placement
pub mod Reporting
pub mod Untouched
pub mod Forward
pub mod Late
pub mod Backward
pub mod Results
pub mod Float
pub mod Criticality
