-- ===== src/Broker.antt =====
-- jiritsu-broker: the components of the broker, a module for each.
pub mod Model
pub mod Policy
pub mod Approvals
pub mod Arguments
pub mod Operations
pub mod Audit
pub mod Execute
mod Examples
