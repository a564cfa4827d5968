-- ===== src/Bridge/Spec.antt =====
-- What the table of src/apbridge.c stands for: a partial map from the cports of the AP to the
-- connections, and the operations on it.
use cc1352_firmware.Prelude.{
  ℕ, ◌<◌, ◌≡◌, ◌⊎◌, Option, none, some, leb, ◌==◌, if◌then◌else◌, [], ◌∷◌, List,
}
use cc1352_firmware.Prelude.Int.{ℤ, pos, minus_e2big, minus_einval, minus_ealready}
use cc1352_firmware.System.World.{IntfPtr}

-- the other side of a connection
pub record Connection : Type 0 where
  pub node_id : ℕ
  pub node_cport : ℕ
  pub intf : IntfPtr

abbrev pub Connections : Type 0
Connections = ℕ → Option Connection

abbrev pub changed : Connections → ℕ → Option Connection → Connections
changed m ap_cport c other = if ap_cport == other then c else m other

pub data Operation : Type 0 where
  add : ℕ → Connection → Operation
  remove : ℕ → Operation
  deinit : Operation

-- An operation on the map: its result, and the map behind it.
unfoldable pub specified : Operation → Connections → ℤ × Connections
specified (Operation.add ap_cport c) m =
    if leb 32 ap_cport then (minus_e2big, m) else elim (m ap_cport) [
      | some old ↦ (minus_ealready, m)
      | none ↦ (pos 0, changed m ap_cport (some c))
    ]
specified (Operation.remove ap_cport) m =
    if leb 32 ap_cport then (minus_e2big, m) else (pos 0, changed m ap_cport none)
specified Operation.deinit m = (pos 0, λ other. none)

-- several, with their results in order
unfoldable pub all_specified : List Operation → Connections → List ℤ × Connections
all_specified [] m = ([], m)
all_specified (op ∷ ops) m =
    let (ret, m') = specified op m in let (rets, m'') = all_specified ops m' in (ret ∷ rets, m'')

-- the connection goes to this cport of this interface
abbrev pub IsTo : ℕ → ℕ → Connection → Type 0
IsTo node_id node_cport c = (c.node_id ≡ node_id) × (c.node_cport ≡ node_cport)

-- The result is the first cport of the AP with a connection to `node_cport` of the interface
-- `node_id`, or -EINVAL if there is none.
abbrev pub IsFirst : Connections → ℕ → ℕ → ℤ → Type 0
IsFirst m node_id node_cport ret =
    ((ret ≡ minus_einval) × ((i : ℕ) (c : Connection) → m i ≡ some c → ¬ IsTo node_id node_cport c))
    ⊎ ((at : ℕ) × (c : Connection) × (ret ≡ pos at)
        × (m at ≡ some c)
        × IsTo node_id node_cport c
        × ((i : ℕ) (d : Connection) → i < at → m i ≡ some d → ¬ IsTo node_id node_cport d))
