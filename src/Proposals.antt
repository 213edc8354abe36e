-- ===== src/Proposals.antt =====
-- jiritsu-proposals: changes of the user's configuration that an agent proposes, from the draft to
-- the commit or its rollback.
pub mod Model
pub mod Validation
pub mod Paths
pub mod Definitions
pub mod Store
pub mod Operations
pub mod Scope
pub mod Promotion
pub mod Lifecycle
pub mod Kept
pub mod Moves
pub mod PromotionMoves
pub mod Runs
pub mod Safety
pub mod Outcome
pub mod Files
mod Examples
