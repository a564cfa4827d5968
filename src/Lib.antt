-- ===== src/Lib.antt =====
-- A verification library for the CC1352 firmware: the Zephyr application that carries Greybus
-- between an application processor (AP), on the serial line, and nodes on the network.
--
-- How the parts work together. Bytes of the serial line go through the HDLC receiver
-- (src/hdlc.c), which hands each good frame to src/main.c. A control frame starts or stops the
-- SVC; a Greybus frame becomes a message (src/greybus_messages.c) and goes to the AP bridge
-- (src/apbridge.c), which looks up the interface that the cport of the AP is connected to and
-- calls its write callback: that of the SVC (src/svc.c), of the board itself (src/local_node.c)
-- or of a node (src/node.c). Messages to the AP go the other way: the bridge finds the cport of
-- the AP, and src/ap.c sends the message as an HDLC frame.
--
-- What models what:
--   Prelude                   shared names, lemmas on lists, words, bits and association lists, and ℤ
--   Hdlc                      src/hdlc.c; Hdlc/Bounds, Hdlc/Line, Hdlc/Sending, Hdlc/RoundTrip and
--                             Hdlc/Framing prove the receiver's invariant, the reading of escaped
--                             bytes, what is sent, the round trip, and the framing of the line
--   System/Kernel             the operating system's heap, slabs, sockets, address comparison and
--                             checksum: an interface, every theorem ranges over all its values
--   System/World              the static variables of all files as one record, and the monad of
--                             the code: a result and a new state, or a fault
--   Greybus/Message           src/greybus_messages.c, include/greybus_messages.h
--   Greybus/Interface         src/greybus_interfaces.c; Greybus/Ids proves the ids of both
--   Bridge/Table, Bridge/Send, Bridge/Connect
--                             src/apbridge.c, src/ap.c, gb_message_hdlc_send of include/hdlc.h;
--                             proofs in Bridge/Routing and Bridge/Wire; Bridge/Spec is the map that the
--                             table stands for, and Bridge/Refinement and Bridge/Search prove that
--                             it does
--   Svc/State, Svc/Requests, Svc/Handlers
--                             src/svc.c; proofs in Svc/Responses and Svc/Answers
--   Node/Cache, Node/Connect, Node/Destroy, Node/Transfer, Node/Receive, Node/Thread,
--   Node/Filter
--                             src/node.c; Node/Sending proves the loop that sends, Node/Messages
--                             how a message is sent, Node/Forwarding how it goes to a node over a
--                             socket that does not fail, Node/Failing how a node is removed and
--                             what follows when a write to it fails,
--                             Node/Receiving how one is received, Node/Rounds what becomes of it,
--                             Node/Announcing how a node that was discovered is announced,
--                             Node/Removal how a node leaves the cache, Node/Teardown the end of
--                             all nodes. Node/Consistency states how cache, interfaces and control
--                             blocks agree; Node/Allocating, Node/Joining, Node/Opening and
--                             Node/Leaving prove it of each operation, Node/Life of all runs
--   LocalNode                 src/local_node.c; proofs in LocalNode/Answers
--   Mdns/Substring, Mdns/Name, Mdns/Query, Mdns/Answer
--                             src/mdns.c; Mdns/Bounds, Mdns/Reading and Mdns/Agreement prove how
--                             names are read, Mdns/Labels, Mdns/Writing and Mdns/RoundTrip how they
--                             are written and read back, Mdns/Compressed how a name is
--                             read that ends in a reference, Mdns/Checking which answers are taken.
--                             Mdns/Table is the table of strings, by which a name can be written so;
--                             its only caller passes none.
--                             Mdns/Receive is the loop that collects them, over a socket that is
--                             an interface, Mdns/Collecting proves what it collects, and
--                             Mdns/Multicast sends the query over the same socket; Mdns/Socket
--                             opens and closes it, over the network library, an interface
--   Discovery                 the rounds of the thread of src/tcp_discovery.c, with a fixed address
--                             (`handler`) and with mDNS (`query_round`); proofs in Discovery/Once
--                             and Discovery/Querying; Discovery/Sockets is start and stop with mDNS,
--                             and proves that no socket is left over
--   LogBackend                src/hdlc_log_backend.c, over the kernel's formatting, an interface;
--                             LogBackend/Received proves what arrives
--   Firmware                  src/main.c, and start and stop of src/tcp_discovery.c; proofs in
--                             Firmware/Frames and Firmware/Lifecycle
--   Serial                    the serial line of src/main.c and src/hdlc.c, between the interrupt
--                             and the work queue; Serial/Ring is the kernel's ring buffer, an
--                             interface; proofs in Serial/Ordering, Serial/Draining, Serial/Frames,
--                             and from end to end in Serial/Requests and Serial/Forwarding
--   Tasks                     the steps of the whole firmware: received bytes, discovered addresses,
--                             a wakeup of the receiving thread, a piece of log
--   System/Keeps              what it means that code keeps an invariant, and rules for it by the
--                             shape of the code
--   Invariant                 the invariant of the static variables; Invariant/Line, Messages, Nodes,
--                             Joining, Requests, Connections, Handlers, Transfers and Frames prove
--                             that each operation keeps it, Invariant/Runs that every run does
-- A C function keeps its name (`mdns_string_make` with a table is `mdns_string_make_with`). Where a
-- function is split, the comment above the part names the whole. A loop is a function of its own.
--
-- Conventions. Numbers are natural numbers; a word's wrap-around is written out where the code
-- relies on it or does not exclude it, size_t with 32 bits, as on the target. An `int` is `ℤ`, a
-- pointer that may be NULL an `Option`. A read or write that C leaves undefined (through a null
-- pointer, out of an array, to a freed interface) is a fault that ends the run. Messages are
-- values with their address; freeing goes to the heap of the kernel. A failed assertion, and the
-- end of the fuel of the loops that send and receive (`write_from`, `read_from`), are faults too;
-- fuel for every byte is enough where a call that succeeds moves a byte at least.
-- `node_destroy_from` has as many rounds as the cache has items, which is enough since its index
-- grows and the cache does not. In Mdns a buffer is its bytes, and a read outside of it is `none`.
--
-- What memory of the heap holds where the code has not written is given by the kernel
-- (`Kernel.memory`), and may be any bytes; the theorems hold whatever they are. Two reads of it go
-- on instead of faulting, since every message of the firmware makes one of them and every request
-- of the SVC both: the padding of a header, which `gb_message_alloc` leaves as it was (`padding`,
-- `in_block`), and the operation id that `control_send_request` reads after the message was freed
-- (`stale_id`), of whose result the callers only test the sign.
--
-- An interrupt and a run of the work item are steps that do not interrupt each other: they share the
-- ring buffer only, whose two ends the kernel keeps apart. The receiver runs on the static driver,
-- which the frame callback does not change. The steps of Tasks come in any order, and none of them
-- begins before another has ended: that the kernel may switch between two threads inside of a step
-- is not modelled.
--
-- Constants are those of prj.conf: blocks of 256 bytes, 32 cports and nodes.
--
-- Not modelled: logging; the endless loop of the handler of src/tcp_discovery.c, of which a round is
-- modelled; time; the constants and structures of include/greybus_protocols.h that nothing uses. A
-- Greybus frame is read within its own bytes: a frame too short for a header is a fault here, where
-- the code reads older bytes of the receive buffer.
pub mod Prelude
pub mod Hdlc
pub mod System
pub mod Greybus
pub mod Node
pub mod Bridge
pub mod Svc
pub mod LocalNode
pub mod Mdns
pub mod Discovery
pub mod Firmware
pub mod Serial
pub mod Tasks
pub mod Invariant
pub mod LogBackend
pub mod Tests
