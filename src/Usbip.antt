-- ===== src/Usbip.antt =====
-- src/usbip.rs and the parts of src/main.rs that speak USB/IP: the wire format, the device and the
-- callbacks that it gives to the event loop.
pub mod Stream
pub mod Wire
pub mod Op
pub mod Setup
pub mod Descriptors
pub mod Control
pub mod Device
