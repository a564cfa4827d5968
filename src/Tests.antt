-- ===== src/Tests.antt =====
-- Concrete kernels, states and messages, and runs of the firmware on them.
mod Samples
mod Greybus
mod Bridge
mod Svc
mod LocalNode
mod Node
mod Mdns
mod Serial
mod Life
mod Failing
mod Discovery
mod Runs
mod Log
mod Sockets
mod Strings
mod Sticky
