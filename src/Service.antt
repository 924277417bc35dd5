-- ===== src/Service.antt =====
-- `Pandora_Windows_Service` (pandora_windows_service.cc).
pub mod World
pub mod Outside
pub mod Kept
pub mod Post
pub mod Returns
pub mod Transfer
pub mod Header
pub mod Fields
pub mod Receive
pub mod Config
pub mod Collections
pub mod Buffer
pub mod SendXml
pub mod Rounds
pub mod Startup
pub mod State
pub mod Run
pub mod Gis
pub mod Proxy
