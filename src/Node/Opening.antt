-- ===== src/Node/Opening.antt =====
-- src/node.c: a node whose first cport is connected leaves the others as they were.
use cc1352_firmware.Prelude.{
  ℕ, ◌<◌, ◌≡◌, ◌≢◌, ◌⊎◌, inl, inr, refl, sym, ap, ◌∙◌, Bool-cases, ==_iff, ◌==◌, List, [], ◌∷◌,
  some, arith, length, set, get_elem?, get_elem?-some_lt, get_elem?-set_self, get_elem?-set_ne,
}
use mathlib.Core.Path.{subst}
use cc1352_firmware.Prelude.Int.{ℤ, pos, is_negative, is_zero}
use cc1352_firmware.Prelude.Assoc.{update, lookup-update_ne, lookup-update_self, update-IsSimple}
use cc1352_firmware.System.Kernel.{SockAddr, Kernel}
use cc1352_firmware.System.World.{World, NodeItem, done}
use cc1352_firmware.Node.Cache.{node_cache_find_by_id}
use cc1352_firmware.Node.Removal.{same_element}
use cc1352_firmware.Node.Connect.{
  node_addr, pipe_send, connect_to_node, open_node, node_intf_create_connection,
}
use cc1352_firmware.Node.Consistency.{
  SlabUse, Interfaces, Blocks, IsBacked, AreApart, Agree, IsConsistent,
}
use cc1352_firmware.Node.Leaving.{length-set, node_cache_find_by_id-Agree}

-- an element of a list in which one was written
get_elem?-set :
    {A : Type 0} (xs : List A) (at : ℕ) (v : A) (i : ℕ) (a : A)
    → at < length xs
    → get_elem? (set xs at v) i ≡ some a
    → ((at ≡ i) × (v ≡ a)) ⊎ ((at ≢ i) × (get_elem? xs i ≡ some a))
get_elem?-set xs at v i a inside h = elim (Bool-cases (at == i)) [
  | inl here ↦
      let e = (==_iff at i).0 here in
      inl (
        e,
        same_element (sym (get_elem?-set_self xs at v inside) ∙ ap (get_elem? (set xs at v)) e ∙ h),
      )
  | inr away ↦
      let ne : at ≢ i = λ e. absurd (ground (arith, away, e)) in
      inr (ne, sym (get_elem?-set_ne xs v ne) ∙ h)
]

-- the socket has no part in it
renewed_left :
    {intfs : Interfaces} {a b : NodeItem} {sock : ℤ}
    → AreApart intfs a b
    → AreApart intfs (record a { sock = sock }) b
renewed_left away = record { inf = away.inf; id = away.id; ctrl = away.ctrl }

renewed_right :
    {intfs : Interfaces} {a b : NodeItem} {sock : ℤ}
    → AreApart intfs a b
    → AreApart intfs a (record b { sock = sock })
renewed_right away = record { inf = away.inf; id = away.id; ctrl = away.ctrl }

module _ {k : Kernel} where
  connect_to_node-done :
      (addr : SockAddr) (w : World k)
      → (ret : ℤ) × (n : k.Net) × (connect_to_node addr w ≡ done ret (record w { net = n }))
  unfolding connect_to_node
  connect_to_node-done addr w =
      let (sock, n) = k.zsock_socket w.net addr.family in
      let (ret, n') = k.zsock_connect n sock addr in
      elim (Bool-cases (is_negative sock)) [
        | inl none_left ↦ (sock, n, rw none_left refl)
        | inr opened ↦ elim (Bool-cases (is_zero ret)) [
          | inl connected ↦ (sock, n', rw (opened, connected) refl)
          | inr refused ↦ (ret, k.zsock_close n' sock, rw (opened, refused) refl)
        ]
      ]

module _ {k : Kernel} (u : SlabUse k) where
  opened-Agree :
      {si sc : k.Slab} {intfs : Interfaces} {ctrls : Blocks} {cache : List NodeItem} (at : ℕ)
      (item : NodeItem) (sock : ℤ)
      → (g : Agree u si sc intfs ctrls cache) → (h : get_elem? cache at ≡ some item)
      → let c = (g.backed at item h).intf.ctrl_data in
        Agree u si sc intfs (update c sock ctrls) (set cache at (record item { sock = sock }))
  opened-Agree {intfs = intfs} {ctrls = ctrls} {cache = cache} at item sock g h =
      let b = g.backed at item h in
      let c = b.intf.ctrl_data in
      let new : NodeItem = record item { sock = sock } in
      let inside = get_elem?-some_lt cache at h in
      let new_backed : IsBacked intfs (update c sock ctrls) new = record {
        intf = b.intf;
        found = b.found;
        same_id = b.same_id;
        block = lookup-update_self c sock item.sock ctrls b.block;
      } in
      record {
        backed = λ i a ha. elim (get_elem?-set cache at new i a inside ha) [
          | inl (e, f) ↦ subst (IsBacked intfs (update c sock ctrls)) f new_backed
          | inr (ne, old) ↦
              let ba = g.backed i a old in
              record {
                intf = ba.intf;
                found = ba.found;
                same_id = ba.same_id;
                block =
                    lookup-update_ne c ba.intf.ctrl_data sock ctrls
                      ((g.apart at i item a h old ne).ctrl b.intf ba.intf b.found ba.found)
                    ∙ ba.block;
              }
        ];
        apart = λ i j x y hx hy ne. elim (get_elem?-set cache at new i x inside hx) [
          | inl (e, f) ↦ elim (get_elem?-set cache at new j y inside hy) [
            | inl (e', f') ↦ absurd (ne (sym e ∙ e'))
            | inr (ne', old) ↦
                subst (λ z. AreApart intfs z y) f (renewed_left (g.apart at j item y h old ne'))
          ]
          | inr (ne', old) ↦ elim (get_elem?-set cache at new j y inside hy) [
            | inl (e', f') ↦
                subst (AreApart intfs x) f'
                  (renewed_right (g.apart i at x item old h (λ q. ne' (sym q))))
            | inr (ne'', old') ↦ g.apart i j x y old old' ne
          ]
        ];
        intf_used = g.intf_used;
        ctrl_used = λ q s f. elim (Bool-cases (c == q)) [
          | inl here ↦ subst (u.InUse _) ((==_iff c q).0 here) (g.ctrl_used c item.sock b.block)
          | inr away ↦
              let ne : c ≢ q = λ e. absurd (ground (arith, away, e)) in
              g.ctrl_used q s (sym (lookup-update_ne c q sock ctrls ne) ∙ f)
        ];
        simple_intfs = g.simple_intfs;
        simple_ctrls = update-IsSimple c sock ctrls g.simple_ctrls;
        bounded = omega (arith, g.bounded, length-set cache at new);
      }

  -- Where the slabs are used as documented, in a state in which cache, interfaces and control
  -- blocks agree: connecting a cport of a node of the cache ends without a fault in such a state,
  -- whatever the network answers.
  pub node_intf_create_connection-Consistent :
      (at : ℕ) (item : NodeItem) (cport_id : ℕ) (w : World k)
      → IsConsistent u w
      → get_elem? w.node_cache at ≡ some item
      → (ret : ℤ) × (w' : World k) × (node_intf_create_connection item.inf cport_id w ≡ done ret w')
        × IsConsistent u w'
  unfolding node_intf_create_connection open_node pipe_send
  node_intf_create_connection-Consistent at item cport_id w g h =
      let b = g.backed at item h in
      let c = b.intf.ctrl_data in
      let find : node_cache_find_by_id w.node_cache b.intf.id ≡ some at =
        ap (node_cache_find_by_id w.node_cache) b.same_id
        ∙ node_cache_find_by_id-Agree u at item g h in
      elim (Bool-cases (cport_id == 0)) [
        | inr other ↦ (pos 0, w, ground (arith, other), g)
        | inl first ↦ elim (Bool-cases (is_negative item.sock)) [
          | inr opened ↦ (item.sock, w, ground (arith, first, b.found, b.block, opened), g)
          | inl closed ↦
              let (sock, n, e) = connect_to_node-done (node_addr item.addr) w in
              elim (Bool-cases (is_negative sock)) [
                | inl refused ↦ (
                  sock,
                  record w { net = n },
                  ground (arith, first, b.found, b.block, closed, find, h, e, refused),
                  g,
                )
                | inr connected ↦ (
                  sock,
                  record w {
                    net = (k.zsock_send n w.local_pipe_writer (0 ∷ [])).1;
                    node_cache = set w.node_cache at (record item { sock = sock });
                    node_control_data = update c sock w.node_control_data;
                  },
                  ground (arith, first, b.found, b.block, closed, find, h, e, connected),
                  opened-Agree at item sock g h,
                )
              ]
        ]
      ]
