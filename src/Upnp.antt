-- ===== src/Upnp.antt =====
-- The UPnP device (internal/upnp).
pub mod Events
pub mod Xml
pub mod Rendering
pub mod Device
pub mod PosCache
pub mod IdleDebounce
mod Tests
mod DeviceTests
mod TransportTests
