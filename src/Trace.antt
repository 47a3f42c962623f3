-- ===== src/Trace.antt =====
-- src/Trace
pub mod Event
pub mod Build
pub mod Program
