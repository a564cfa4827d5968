-- ===== src/Mdns.antt =====
-- src/mdns.c: the names of DNS messages, and the check of an answer. A buffer is its bytes, and
-- a read outside of them is `none`.
pub mod Memory
pub mod Substring
pub mod Name
pub mod Bounds
pub mod Reading
pub mod Agreement
pub mod Answer
pub mod Query
pub mod Labels
pub mod Writing
pub mod RoundTrip
pub mod Compressed
pub mod Checking
pub mod Receive
pub mod Multicast
pub mod Socket
pub mod Table
pub mod Collecting
