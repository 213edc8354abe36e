-- ===== src/Workload.antt =====
-- jiritsu-workload: contracts that say what must work on a machine, and their assessment.
pub mod Model
pub mod Checks
pub mod StatedChecks
pub mod Contracts
pub mod Catalog
pub mod Output
pub mod State
pub mod Facts
pub mod Machine
pub mod Probes
pub mod StatedProbe
pub mod Assessment
mod Examples
