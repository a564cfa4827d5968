-- ===== src/Invariant.antt =====
-- What holds of the static variables of the firmware between any two steps of it.
use cc1352_firmware.Prelude.{ℕ, ◌+◌, ◌≤◌, ◌≡◌, ◌≢◌, List, [], ◌∷◌, ◌++◌, length, All, Bytes}
use cc1352_firmware.Hdlc.{hdlc_frame}
use cc1352_firmware.Hdlc.Bounds.{IsValid}
use cc1352_firmware.System.Kernel.{Kernel}
use cc1352_firmware.System.World.{World, NodeInterface, NodeItem}
use cc1352_firmware.Bridge.Table.{ap_max_nodes}
use cc1352_firmware.Node.Cache.{max_greybus_nodes}
pub mod Line
pub mod Messages
pub mod Nodes
pub mod Joining
pub mod Requests
pub mod Connections
pub mod Handlers
pub mod Transfers
pub mod Frames
pub mod Runs

-- an id that none of the static interfaces has
pub record IsNodeId (id : ℕ) : Type 0 where
  pub above : 3 ≤ id
  pub byte : id ≤ 255

abbrev pub HasNodeId : NodeItem → Type 0
HasNodeId item = IsNodeId item.id

abbrev pub HasInterfaceId : ℕ × NodeInterface → Type 0
HasInterfaceId x = IsNodeId (NodeInterface.id x.1)

-- one frame after the other, each between two delimiters
abbrev pub frames : List Bytes → Bytes
frames [] = []
frames (body ∷ bodies) = hdlc_frame ∷ (body ++ hdlc_frame ∷ frames bodies)

abbrev pub IsBody : Bytes → Type 0
IsBody body = All (λ x. x ≢ hdlc_frame) body

-- The bytes are whole frames, with no delimiter inside of one.
abbrev pub IsFramed : Bytes → Type 0
IsFramed bytes = (bodies : List Bytes) × (bytes ≡ frames bodies) × All IsBody bodies

abbrev pub IsSound : {k : Kernel} → World k → Type 0
IsSound w = record {
  table : length w.node_ap_map ≡ ap_max_nodes;
  operation_ids : (1 ≤ w.operation_id_counter) × (w.operation_id_counter ≤ 65535);
  interface_ids : IsNodeId w.interface_id_counter;
  interfaces : All HasInterfaceId w.interfaces;
  cache : length w.node_cache ≤ max_greybus_nodes;
  cached : All HasNodeId w.node_cache;
  driver : IsValid w.hdlc_driver;
  line : IsFramed w.uart;
}
