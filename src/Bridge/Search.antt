-- ===== src/Bridge/Search.antt =====
-- src/apbridge.c: the search for the cport of the AP finds what the map of Bridge/Spec has.
use cc1352_firmware.Prelude.{
  ℕ, zero, suc, ◌+◌, ◌<◌, ◌≡◌, ◌≢◌, ◌⊎◌, inl, inr, refl, sym, ap, ◌∙◌, Bool-cases, ◌&&◌, ◌==◌, [],
  ◌∷◌, List, none, some, Option-cases, arith, get_elem?, get_elem?_lt,
}
use cc1352_firmware.Prelude.Int.{ℤ, pos, minus_einval}
use cc1352_firmware.System.World.{NodeApItem}
use cc1352_firmware.Bridge.Table.{empty_item, node_to_ap_cport_from, node_to_ap_cport}
use cc1352_firmware.Bridge.Spec.{Connection, Connections, IsTo, IsFirst}
use cc1352_firmware.Bridge.Refinement.{
  connection_of, connection_in, connection_at, connection_of_free, connection_of_used, Refines,
}
use cc1352_firmware.System.Kernel.{Kernel}
use cc1352_firmware.System.World.{World}
use cc1352_firmware.Greybus.Message.{Message}
use cc1352_firmware.Bridge.Send.{ap_send, connection_send, send_to_ap}

abbrev IsAt : ℕ → ℕ → NodeApItem → Type 0
IsAt node_id node_cport item = (item.node_id ≡ node_id) × (item.node_cport ≡ node_cport)

-- The search from index `i` on gives the first item with the id and the cport.
abbrev IsFirstItem : List NodeApItem → ℕ → ℕ → ℕ → ℤ → Type 0
IsFirstItem map i node_id node_cport ret =
    ((ret ≡ minus_einval)
      × ((j : ℕ) (item : NodeApItem)
          → get_elem? map j ≡ some item
          → ¬ IsAt node_id node_cport item))
    ⊎ ((at : ℕ) × (item : NodeApItem) × (ret ≡ pos (i + at))
        × (get_elem? map at ≡ some item)
        × IsAt node_id node_cport item
        × ((j : ℕ) (other : NodeApItem)
            → j < at
            → get_elem? map j ≡ some other
            → ¬ IsAt node_id node_cport other))

not_in :
    (x : NodeApItem) (map : List NodeApItem) (node_id node_cport bound : ℕ)
    → ¬ IsAt node_id node_cport x
    → ((j : ℕ) (item : NodeApItem)
        → j < bound
        → get_elem? map j ≡ some item
        → ¬ IsAt node_id node_cport item)
    → (j : ℕ) (item : NodeApItem) → j < suc bound
    → get_elem? (x ∷ map) j ≡ some item
    → ¬ IsAt node_id node_cport item
not_in x map node_id node_cport bound not_x rest zero item less found yes_at = not_x (cc, cc)
not_in x map node_id node_cport bound not_x rest (suc j) item less found yes_at =
    rest j item (omega (arith, less)) found yes_at

IsFirstItem-shifted :
    (x : NodeApItem) (map : List NodeApItem) (i node_id node_cport : ℕ) (ret : ℤ)
    → ¬ IsAt node_id node_cport x
    → IsFirstItem map (i + 1) node_id node_cport ret
    → IsFirstItem (x ∷ map) i node_id node_cport ret
IsFirstItem-shifted x map i node_id node_cport ret not_x (inl (e, none_there)) = inl (
  e,
  λ j item found.
      not_in x map node_id node_cport j not_x (λ j' item' less. none_there j' item') j item
        (omega arith) found,
)
IsFirstItem-shifted x map i node_id node_cport ret not_x (inr (at, item, e, found, is_at, before)) =
    inr (
      suc at,
      item,
      e ∙ ap pos (omega arith),
      found,
      is_at,
      not_in x map node_id node_cport at not_x before,
    )

node_to_ap_cport_from-First :
    (map : List NodeApItem) (i node_id node_cport : ℕ)
    → IsFirstItem map i node_id node_cport (node_to_ap_cport_from map i node_id node_cport)
unfolding node_to_ap_cport_from
node_to_ap_cport_from-First [] i node_id node_cport = inl (refl, λ j item found. absurd (cc))
node_to_ap_cport_from-First (x ∷ map) i node_id node_cport =
    elim (Bool-cases (x.node_id == node_id && x.node_cport == node_cport)) [
      | inl yes_here ↦ rw yes_here (
          inr (
            0,
            x,
            ap pos (omega arith),
            refl,
            ground (arith, yes_here),
            λ j other less. absurd (omega (arith, less)),
          ))
      | inr not_here ↦ rw not_here (
          IsFirstItem-shifted x map i node_id node_cport
            (node_to_ap_cport_from map (i + 1) node_id node_cport)
            (λ is_at. ground (arith, not_here, is_at.0, is_at.1))
            (node_to_ap_cport_from-First map (i + 1) node_id node_cport))
    ]

-- An item with an id and a cport that are not both 0 is a connection.
item-Connection :
    {map : List NodeApItem} {m : Connections} (node_id node_cport i : ℕ) (item : NodeApItem)
    → Refines map m
    → (node_id ≢ 0) ⊎ (node_cport ≢ 0)
    → get_elem? map i ≡ some item
    → IsAt node_id node_cport item
    → (c : Connection) × (m i ≡ some c) × IsTo node_id node_cport c
item-Connection node_id node_cport i item r real found is_at = elim (Option-cases item.node_intf) [
  | inl free ↦
      let blank = r.empty i item found free in
      let zero_id = sym is_at.0 ∙ ap (λ (x : NodeApItem). x.node_id) blank in
      let zero_cport = sym is_at.1 ∙ ap (λ (x : NodeApItem). x.node_cport) blank in
      absurd (elim real [ inl h ↦ h zero_id | inr h ↦ h zero_cport ])
  | inr (intf, used) ↦ (
    record { node_id = item.node_id; node_cport = item.node_cport; intf = intf },
    sym (r.same i) ∙ ap connection_in found ∙ connection_of_used item intf used,
    is_at,
  )
]

-- A connection of the map is an item of the table.
connection-Item :
    (map : List NodeApItem) (i : ℕ) (c : Connection)
    → connection_at map i ≡ some c
    → (item : NodeApItem) × (get_elem? map i ≡ some item) × IsAt c.node_id c.node_cport item
connection-Item map i c e = elim (Option-cases (get_elem? map i)) [
  | inl past ↦ absurd (cc (e, ap connection_in past))
  | inr (item, found) ↦ elim (Option-cases item.node_intf) [
    | inl free ↦ absurd (cc (e, ap connection_in found, connection_of_free item free))
    | inr (intf, used) ↦
        let same = sym (ap connection_in found ∙ connection_of_used item intf used) ∙ e in
        (item, found, (cc, cc))
  ]
]

not-IsTo :
    {map : List NodeApItem} {m : Connections} (node_id node_cport i : ℕ) (c : Connection)
    → Refines map m
    → m i ≡ some c
    → ((item : NodeApItem) → get_elem? map i ≡ some item → ¬ IsAt node_id node_cport item)
    → ¬ IsTo node_id node_cport c
not-IsTo {map} node_id node_cport i c r e none_there is_to =
    let (item, found, is_at) = connection-Item map i c (r.same i ∙ e) in
    none_there item found (is_at.0 ∙ is_to.0, is_at.1 ∙ is_to.1)

-- On a table that stands for a map, the search for the cport of the AP that is connected with a
-- cport of an interface gives the first one of the map, or -EINVAL if there is none, unless both
-- the id and the cport are 0.
pub node_to_ap_cport-IsFirst :
    (map : List NodeApItem) (m : Connections) (node_id node_cport : ℕ)
    → Refines map m
    → (node_id ≢ 0) ⊎ (node_cport ≢ 0)
    → IsFirst m node_id node_cport (node_to_ap_cport map node_id node_cport)
unfolding node_to_ap_cport
node_to_ap_cport-IsFirst map m node_id node_cport r real =
    elim (node_to_ap_cport_from-First map 0 node_id node_cport) [
      | inl (e, none_there) ↦ inl (e, λ i c at. not-IsTo node_id node_cport i c r at (none_there i))
      | inr (at, item, e, found, is_at, before) ↦
          let (c, there, is_to) = item-Connection node_id node_cport at item r real found is_at in
          inr (
            at,
            c,
            e ∙ ap pos (omega arith),
            there,
            is_to,
            λ i d less there'.
                not-IsTo node_id node_cport i d r there' (λ it f. before i it less f),
          )
    ]

connection_of-none : (item : NodeApItem) → connection_of item ≡ none → item.node_intf ≡ none
connection_of-none item e = elim (Option-cases item.node_intf) [
  | inl free ↦ free
  | inr (intf, used) ↦ absurd (cc (e, connection_of_used item intf used))
]

first_empty :
    (map : List NodeApItem) → get_elem? map 0 ≡ some empty_item → node_to_ap_cport map 0 0 ≡ pos 0
unfolding node_to_ap_cport node_to_ap_cport_from
first_empty [] e = absurd (cc)
first_empty (x ∷ map) e = let x_is : x ≡ empty_item = cc in rw x_is refl

first_free :
    (map : List NodeApItem) (m : Connections)
    → Refines map m
    → m 0 ≡ none
    → node_to_ap_cport map 0 0 ≡ pos 0
unfolding node_to_ap_cport node_to_ap_cport_from
first_free map m r free =
    let (item, found) = get_elem?_lt map 0 (omega (arith, r.size)) in
    first_empty map (
      found
      ∙ ap some (
          r.empty 0 item found
            (connection_of-none item (sym (ap connection_in found) ∙ r.same 0 ∙ free))))

-- On a table that stands for a map in which cport 0 of the AP is free, what the SVC sends from its
-- cport 0, which then may not be connected at all, is sent to cport 0 of the AP and not refused.
pub send_to_ap_free :
    {k : Kernel} (m : Connections) (msg : Message) (w : World k)
    → Refines w.node_ap_map m
    → m 0 ≡ none
    → send_to_ap 0 0 msg w ≡ ap_send msg 0 w
unfolding send_to_ap connection_send
send_to_ap_free m msg w r free = ground (arith, first_free w.node_ap_map m r free)
