-- ===== src/Store.antt =====
-- ptraf/src/store.rs: the store of the traffic.
pub mod Examples
pub mod Traffic
pub mod Socket
pub mod Dash
pub mod Segment
pub mod Series
pub mod Writers
