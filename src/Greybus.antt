-- ===== src/Greybus.antt =====
-- The Greybus core: messages, interfaces and the routing between them.
pub mod Message
pub mod Ids
pub mod Interface
