-- ===== src/Bridge.antt =====
-- src/apbridge.c and src/ap.c: which node cport a cport of the AP is connected to.
pub mod Connect
pub mod Table
pub mod Routing
pub mod Spec
pub mod Refinement
pub mod Search
pub mod Send
pub mod Wire
