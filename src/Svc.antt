-- ===== src/Svc.antt =====
-- src/svc.c: the supervisory controller, interface 0.
pub mod Requests
pub mod Responses
pub mod Answers
pub mod State
pub mod Handlers
