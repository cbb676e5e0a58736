-- ===== src/Common.antt =====
-- ptraf-common: the types that the BPF program and the user program share.
pub mod Types
pub mod Address
pub mod Event
pub mod Examples
