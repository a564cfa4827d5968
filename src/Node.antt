-- ===== src/Node.antt =====
-- src/node.c: the nodes reached over TCP.
pub mod Cache
pub mod Connect
pub mod Destroy
pub mod Transfer
pub mod Teardown
pub mod Sending
pub mod Receive
pub mod Thread
pub mod Receiving
pub mod Rounds
pub mod Filter
pub mod Messages
pub mod Removal
pub mod Consistency
pub mod Leaving
pub mod Allocating
pub mod Joining
pub mod Opening
pub mod Life
pub mod Failing
pub mod Forwarding
pub mod Announcing
