-- ===== src/Time.antt =====
-- src/time.rs: the calendar (`Civil`), broken-down time (`Tm`, `Instant`), and the entry points
-- (`Entry`) with what they promise (`Promise`, `Fields`).
pub mod Civil
pub mod Tm
pub mod Instant
pub mod Entry
pub mod Promise
pub mod Fields
