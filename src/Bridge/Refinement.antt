-- ===== src/Bridge/Refinement.antt =====
-- src/apbridge.c: the table implements the partial map of Bridge/Spec.
use cc1352_firmware.Prelude.{
  ℕ, zero, suc, ◌<◌, ◌≡◌, ◌≢◌, ◌⊎◌, inl, inr, refl, sym, ap, ◌∙◌, true, false, Bool-cases, ◌==◌,
  ==-ne, ==_iff, leb, [], ◌∷◌, List, Option, none, some, Option-cases, arith, length, get_elem?,
  set, replicate, get_elem?-set_self, get_elem?-set_ne, get_elem?_lt,
}
use cc1352_firmware.Prelude.Int.{ℤ, pos, minus_e2big, minus_ealready}
use cc1352_firmware.System.World.{IntfPtr, NodeApItem}
use cc1352_firmware.Bridge.Table.{
  ap_max_nodes, empty_item, node_ap_add, node_ap_remove, apbridge_deinit,
}
use cc1352_firmware.Bridge.Routing.{item_of, node_ap_add_free}
use cc1352_firmware.Bridge.Spec.{
  Connection, Connections, changed, Operation, specified, all_specified,
}

-- the connection that an item of the table stands for
abbrev pub connection_of : NodeApItem → Option Connection
connection_of item = elim item.node_intf [
  | none ↦ none
  | some intf ↦ some (record { node_id = item.node_id; node_cport = item.node_cport; intf = intf })
]

abbrev pub connection_in : Option NodeApItem → Option Connection
connection_in none = none
connection_in (some item) = connection_of item

abbrev pub connection_at : List NodeApItem → Connections
connection_at map i = connection_in (get_elem? map i)

-- The table stands for the map: it has its size, the items without an interface are empty, and
-- each of the others is a connection of the map.
pub record Refines (map : List NodeApItem) (m : Connections) : Type 0 where
  pub size : length map ≡ ap_max_nodes
  pub empty :
      (i : ℕ) (item : NodeApItem)
      → get_elem? map i ≡ some item
      → item.node_intf ≡ none
      → item ≡ empty_item
  pub same : (i : ℕ) → connection_at map i ≡ m i

-- an operation as the code does it
unfoldable pub implemented : Operation → List NodeApItem → ℤ × List NodeApItem
implemented (Operation.add ap_cport c) map = node_ap_add map ap_cport c.node_cport c.intf c.node_id
implemented (Operation.remove ap_cport) map = node_ap_remove map ap_cport
implemented Operation.deinit map = (pos 0, apbridge_deinit map)

unfoldable pub all_implemented : List Operation → List NodeApItem → List ℤ × List NodeApItem
all_implemented [] map = ([], map)
all_implemented (op ∷ ops) map =
    let (ret, map') = implemented op map in
    let (rets, map'') = all_implemented ops map' in (ret ∷ rets, map'')

length-set : (map : List NodeApItem) (i : ℕ) (v : NodeApItem) → length (set map i v) ≡ length map
length-set [] i v = refl
length-set (x ∷ map) zero v = refl
length-set (x ∷ map) (suc i) v = ap suc (length-set map i v)

length-replicate : (n : ℕ) (v : NodeApItem) → length (replicate n v) ≡ n
length-replicate zero v = refl
length-replicate (suc n) v = ap suc (length-replicate n v)

get_elem?-replicate :
    (n i : ℕ) (v : NodeApItem)
    → (get_elem? (replicate n v) i ≡ none) ⊎ (get_elem? (replicate n v) i ≡ some v)
get_elem?-replicate zero i v = inl refl
get_elem?-replicate (suc n) zero v = inr refl
get_elem?-replicate (suc n) (suc i) v = get_elem?-replicate n i v

ℕ-cases : (i j : ℕ) → (i ≡ j) ⊎ (i ≢ j)
ℕ-cases i j = elim (Bool-cases (i == j)) [
  | inl e ↦ inl ((==_iff i j).0 e)
  | inr e ↦ inr (λ h. absurd (ground (arith, h, e)))
]

changed_here :
    (m : Connections) (at : ℕ) (c : Option Connection) (i : ℕ) → at ≡ i → changed m at c i ≡ c
changed_here m at c i e = rw ((==_iff at i).1 e) refl

changed_away :
    (m : Connections) (at : ℕ) (c : Option Connection) (i : ℕ) → at ≢ i → changed m at c i ≡ m i
changed_away m at c i ne = rw (==-ne at i ne) refl

-- Writing an item that is empty or has an interface changes the map at one place.
set-Refines :
    (map : List NodeApItem) (m : Connections) (at : ℕ) (v : NodeApItem)
    → Refines map m
    → at < ap_max_nodes
    → (v.node_intf ≡ none → v ≡ empty_item)
    → Refines (set map at v) (changed m at (connection_of v))
set-Refines map m at v r h e =
    let written : (i : ℕ) → at ≡ i → get_elem? (set map at v) i ≡ some v = λ i here.
      ap (get_elem? (set map at v)) (sym here)
      ∙ get_elem?-set_self map at v (omega (arith, h, r.size)) in
    record {
      size = length-set map at v ∙ r.size;
      empty = λ i item found free. elim (ℕ-cases at i) [
        | inl here ↦
            let v_is : v ≡ item = cc (written i here, found) in
            sym v_is ∙ e (ap (λ (x : NodeApItem). x.node_intf) v_is ∙ free)
        | inr away ↦ r.empty i item (sym (get_elem?-set_ne map v away) ∙ found) free
      ];
      same = λ i. elim (ℕ-cases at i) [
        | inl here ↦
            ap connection_in (written i here) ∙ sym (changed_here m at (connection_of v) i here)
        | inr away ↦
            ap connection_in (get_elem?-set_ne map v away)
            ∙ r.same i
            ∙ sym (changed_away m at (connection_of v) i away)
      ];
    }

-- the results are equal, and the table stands for the map
abbrev Agree : ℤ × List NodeApItem → ℤ × Connections → Type 0
Agree (ret, map) (ret', m) = (ret ≡ ret') × Refines map m

pub connection_of_free : (item : NodeApItem) → item.node_intf ≡ none → connection_of item ≡ none
connection_of_free item free = rw free refl

pub connection_of_used :
    (item : NodeApItem) (intf : IntfPtr)
    → item.node_intf ≡ some intf
    → connection_of item
      ≡ some (record { node_id = item.node_id; node_cport = item.node_cport; intf = intf })
connection_of_used item intf used = rw used refl

node_ap_add_used :
    (map : List NodeApItem) (ap_cport node_cport id : ℕ) (intf old : IntfPtr) (item : NodeApItem)
    → leb 32 ap_cport ≡ false
    → get_elem? map ap_cport ≡ some item
    → item.node_intf ≡ some old
    → node_ap_add map ap_cport node_cport intf id ≡ (minus_ealready, map)
unfolding node_ap_add
node_ap_add_used map ap_cport node_cport id intf old item inside found used =
    ground (arith, inside, found, used)

node_ap_add_past :
    (map : List NodeApItem) (ap_cport node_cport id : ℕ) (intf : IntfPtr)
    → leb 32 ap_cport ≡ true
    → node_ap_add map ap_cport node_cport intf id ≡ (minus_e2big, map)
unfolding node_ap_add
node_ap_add_past map ap_cport node_cport id intf past = ground (arith, past)

add_inside-Refines :
    (map : List NodeApItem) (m : Connections) (ap_cport : ℕ) (c : Connection) (item : NodeApItem)
    → Refines map m
    → leb 32 ap_cport ≡ false
    → get_elem? map ap_cport ≡ some item
    → Agree (implemented (Operation.add ap_cport c) map) (specified (Operation.add ap_cport c) m)
unfolding implemented specified
add_inside-Refines map m ap_cport c item r inside found =
    let same_at = sym (r.same ap_cport) ∙ ap connection_in found in
    elim (Option-cases item.node_intf) [
      | inl free ↦
          let unused = same_at ∙ connection_of_free item free in
          let added =
            set-Refines map m ap_cport (item_of c.node_id c.node_cport c.intf) r
              (ground (arith, inside)) (λ e. cc) in
          rw
            (
              node_ap_add_free map ap_cport c.node_cport c.node_id c.intf item
                  (ground (arith, inside)) found free,
              inside,
              unused,
            )
            (refl, added)
      | inr (old, used) ↦
          rw
            (
              node_ap_add_used map ap_cport c.node_cport c.node_id c.intf old item inside found
                  used,
              inside,
              same_at ∙ connection_of_used item old used,
            )
            (refl, r)
    ]

add-Refines :
    (map : List NodeApItem) (m : Connections) (ap_cport : ℕ) (c : Connection)
    → Refines map m
    → Agree (implemented (Operation.add ap_cport c) map) (specified (Operation.add ap_cport c) m)
unfolding implemented specified
add-Refines map m ap_cport c r = elim (Bool-cases (leb 32 ap_cport)) [
  | inl past ↦ rw (node_ap_add_past map ap_cport c.node_cport c.node_id c.intf past, past) (refl, r)
  | inr inside ↦
      let (item, found) = get_elem?_lt map ap_cport (ground (arith, inside, r.size)) in
      add_inside-Refines map m ap_cport c item r inside found
]

remove-Refines :
    (map : List NodeApItem) (m : Connections) (ap_cport : ℕ)
    → Refines map m
    → Agree (implemented (Operation.remove ap_cport) map) (specified (Operation.remove ap_cport) m)
unfolding implemented specified node_ap_remove
remove-Refines map m ap_cport r = elim (Bool-cases (leb 32 ap_cport)) [
  | inl past ↦ rw past (refl, r)
  | inr inside ↦
      rw inside (refl, set-Refines map m ap_cport empty_item r (ground (arith, inside)) (λ e. refl))
]

pub cleared-Refines : Refines (replicate 32 empty_item) (λ other. none)
cleared-Refines = record {
  size = refl;
  empty =
      λ i item found free. elim (get_elem?-replicate 32 i empty_item) [ inl e ↦ cc | inr e ↦ cc ];
  same = λ i. elim (get_elem?-replicate 32 i empty_item) [
    | inl e ↦ ap connection_in e
    | inr e ↦ ap connection_in e
  ];
}

pub implemented-Refines :
    (op : Operation) (map : List NodeApItem) (m : Connections)
    → Refines map m
    → Agree (implemented op map) (specified op m)
unfolding implemented specified apbridge_deinit
implemented-Refines (Operation.add ap_cport c) map m r = add-Refines map m ap_cport c r
implemented-Refines (Operation.remove ap_cport) map m r = remove-Refines map m ap_cport r
implemented-Refines Operation.deinit map m r = (refl, cleared-Refines)

-- Additions, removals and clearings of the table in any order, from a table that stands for a map:
-- the code returns what the operations on the map return, every refusal included, and its table
-- stands for the map that they lead to.
pub all_implemented-Refines :
    (ops : List Operation) (map : List NodeApItem) (m : Connections)
    → Refines map m
    → let (rets, map') = all_implemented ops map in
      let (rets', m') = all_specified ops m in (rets ≡ rets') × Refines map' m'
unfolding all_implemented all_specified
all_implemented-Refines [] map m r = (refl, r)
all_implemented-Refines (op ∷ ops) map m r =
    let (same, r') = implemented-Refines op map m r in
    let (rest, r'') = all_implemented-Refines ops (implemented op map).1 (specified op m).1 r' in
    (cc (same, rest), r'')
