-- ===== src/Domain.antt =====
-- The pure rules of services/live-room/src/domain.
pub mod Decimal
pub mod Event
pub mod EventLog
pub mod Timeline
pub mod Conditions
