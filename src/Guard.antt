-- ===== src/Guard.antt =====
-- aftersales/guard.py: the Policy Guard's decision. `decide` walks the ordered prerequisites over
-- what one capture read; the first that fails gives the reason code.
pub mod Types
pub mod Check
pub mod Decide
pub mod Logic
pub mod Cause
mod Rules
mod Matrix
mod ByAction
pub mod Verdict
pub mod OnTables
pub mod Tests
