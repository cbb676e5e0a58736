-- ===== src/Ui.antt =====
-- ptraf/src/ui.rs and ptraf/src/ui: the user interface.
pub mod Term
pub mod Examples
pub mod Filter
pub mod Format
pub mod FilterEditor
pub mod SocketTable
pub mod ProcessDetails
pub mod RemoteIpDetails
pub mod Captions
pub mod Sparkline
pub mod SocketTableView
pub mod App
pub mod Drawing
