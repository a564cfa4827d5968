-- ===== src/Node/Leaving.antt =====
-- src/node.c: a node that leaves the cache leaves the others as they were.
use cc1352_firmware.Prelude.{
  none, ℕ, zero, suc, ◌-◌, ◌<◌, ◌≡◌, ◌≢◌, inl, inr, refl, sym, ap, ◌∙◌, Bool, true, false,
  Bool-cases, ==-ne, ==_iff, ==_refl, ◌==◌, if◌then◌else◌, List, [], ◌∷◌, some, arith, length, take,
  set, length-take, get_elem?, get_elem?-some_lt, get_elem?_lt, get_elem?-set_self,
  get_elem?-set_ne,
}
use mathlib.Core.List.{Perm}
use cc1352_firmware.Prelude.Int.{is_negative}
use cc1352_firmware.Prelude.Assoc.{
  IsSimple, lookup, remove, lookup-remove_ne, lookup-remove_self, remove-IsSimple,
}
use cc1352_firmware.System.Kernel.{Kernel}
use cc1352_firmware.System.World.{World, NodeItem, done}
use cc1352_firmware.Greybus.Interface.{gb_interface_dealloc}
use cc1352_firmware.Node.Cache.{
  find_index, node_cache_find_by_id, node_cache_remove_at, node_cache_remove_by_id,
}
use cc1352_firmware.Node.Removal.{find_index-some, node_cache_remove_at-Perm}
use cc1352_firmware.Node.Destroy.{ctrl_data_free, destroy_node}
use cc1352_firmware.Node.Consistency.{SlabUse, Interfaces, Blocks, Agree, IsConsistent}

get_elem?-take :
    {A : Type 0} (n : ℕ) (xs : List A) (j : ℕ) (a : A)
    → get_elem? (take n xs) j ≡ some a
    → (j < n) × (get_elem? xs j ≡ some a)
get_elem?-take zero xs j a h = absurd (cc)
get_elem?-take (suc n) [] j a h = absurd (cc)
get_elem?-take (suc n) (x ∷ xs) zero a h = (omega arith, h)
get_elem?-take (suc n) (x ∷ xs) (suc j) a h =
    let (l, g) = get_elem?-take n xs j a h in (omega (arith, l), g)

pub length-set : {A : Type 0} (xs : List A) (i : ℕ) (v : A) → length (set xs i v) ≡ length xs
length-set [] i v = refl
length-set (x ∷ xs) zero v = refl
length-set (x ∷ xs) (suc i) v = ap suc (length-set xs i v)

-- where an item of the smaller cache stood before
abbrev origin : ℕ → ℕ → ℕ → ℕ
origin at last j = if j == at then last else j

origin_injective :
    (at last i j : ℕ) → i < last → j < last → i ≢ j → origin at last i ≢ origin at last j
origin_injective at last i j hi hj ne e = ground arith

node_cache_remove_at-origin :
    (cache : List NodeItem) (at j : ℕ) (a : NodeItem)
    → at < length cache
    → get_elem? (node_cache_remove_at cache at) j ≡ some a
    → let last = length cache - 1 in
      (j < last) × (origin at last j ≢ at) × (get_elem? cache (origin at last j) ≡ some a)
unfolding node_cache_remove_at
node_cache_remove_at-origin cache at j a l h =
    let last = length cache - 1 in
    let (final, g) = get_elem?_lt cache last (omega (arith, l)) in
    elim (Bool-cases (at == last)) [
      | inl is_last ↦
          let (less, there) = get_elem?-take last cache j a (rw is_last at h) in
          let away : j ≢ at = λ e. absurd (ground (arith, is_last, less, e)) in
          rw (==-ne j at away) (less, away, there)
      | inr before ↦
          let (less, there) = get_elem?-take last (set cache at final) j a (rw (before, g) at h) in
          elim (Bool-cases (j == at)) [
            | inl here ↦
                let same =
                  sym (
                    ap (get_elem? (set cache at final)) ((==_iff j at).0 here)
                    ∙ get_elem?-set_self cache at final l)
                  ∙ there in
                rw here (less, λ e. absurd (ground (arith, before, e)), g ∙ same)
            | inr away ↦
                let ne : at ≢ j = λ e. absurd (ground (arith, away, e)) in
                rw away (less, λ e. ne (sym e), sym (get_elem?-set_ne cache final ne) ∙ there)
          ]
    ]

beyond :
    {A : Type 0} (test : A → Bool) (y : A) (xs : List A) (i : ℕ) (x : A)
    → get_elem? (y ∷ xs) i ≡ some x
    → test x ≡ true
    → test y ≡ false
    → (j : ℕ) × (get_elem? xs j ≡ some x)
beyond test y xs zero x h t f = absurd (cc)
beyond test y xs (suc i) x h t f = (i, h)

find_index_exists :
    {A : Type 0} (test : A → Bool) (xs : List A) (i : ℕ) (x : A)
    → get_elem? xs i ≡ some x
    → test x ≡ true
    → (at : ℕ) × (find_index test xs ≡ some at)
find_index_exists test [] i x h t = absurd (cc)
find_index_exists test (y ∷ xs) i x h t = elim (Bool-cases (test y)) [
  | inl passes ↦ (0, rw passes refl)
  | inr fails ↦
      let (j, g) = beyond test y xs i x h t fails in
      let (at, there) = find_index_exists test xs j x g t in (suc at, rw (fails, there) refl)
]

length-node_cache_remove_at :
    (cache : List NodeItem) (at : ℕ)
    → at < length cache
    → length (node_cache_remove_at cache at) ≡ length cache - 1
unfolding node_cache_remove_at
length-node_cache_remove_at cache at l =
    let last = length cache - 1 in
    elim (Bool-cases (at == last)) [
      | inl is_last ↦ rw is_last (omega (arith, length-take last cache))
      | inr before ↦
          let (final, g) = get_elem?_lt cache last (omega (arith, l)) in
          rw (before, g)
            (omega (arith, length-take last (set cache at final), length-set cache at final))
    ]

module _ {k : Kernel} (u : SlabUse k) where
  pub node_cache_find_by_id-Agree :
      {si sc : k.Slab} {intfs : Interfaces} {ctrls : Blocks} {cache : List NodeItem} (i : ℕ)
      (item : NodeItem)
      → Agree u si sc intfs ctrls cache
      → get_elem? cache i ≡ some item
      → node_cache_find_by_id cache item.id ≡ some i
  unfolding node_cache_find_by_id
  node_cache_find_by_id-Agree {cache} i item g h =
      let test = λ (n : NodeItem). n.id == item.id in
      let (at, there) = find_index_exists test cache i item h (==_refl item.id) in
      let (found, at_it, same) = find_index-some test cache at there in
      elim (Bool-cases (at == i)) [
        | inl here ↦ there ∙ ap some ((==_iff at i).0 here)
        | inr away ↦ absurd (
            (g.apart at i found item at_it h (λ e. absurd (ground (arith, away, e)))).id
              ((==_iff _ _).0 same))
      ]

  -- an object that is still live after another was removed was live before, and is not that one
  still_live :
      {A : Type 0} (p q : ℕ) (m : List (ℕ × A)) (a : A)
      → IsSimple m
      → lookup q (remove p m) ≡ some a
      → (p ≢ q) × (lookup q m ≡ some a)
  still_live p q m a s h = elim (Bool-cases (p == q)) [
    | inl e ↦
        absurd
          (cc (h, ap (λ r. lookup r (remove p m)) ((==_iff p q).0 e), lookup-remove_self p m s))
    | inr e ↦
        let ne : p ≢ q = λ g. absurd (cc (e, (==_iff p q).1 g)) in
        (ne, sym (lookup-remove_ne p q m ne) ∙ h)
  ]

  removed-Agree :
      {si sc : k.Slab} {intfs : Interfaces} {ctrls : Blocks} {cache : List NodeItem} (i : ℕ)
      (item : NodeItem)
      → (g : Agree u si sc intfs ctrls cache) → (h : get_elem? cache i ≡ some item)
      → let c = (g.backed i item h).intf.ctrl_data in
        Agree u
          (k.k_mem_slab_free si item.inf)
          (k.k_mem_slab_free sc c)
          (remove item.inf intfs)
          (remove c ctrls)
          (node_cache_remove_at cache i)
  removed-Agree {si} {sc} {intfs} {ctrls} {cache} i item g h =
      let b = g.backed i item h in
      let c = b.intf.ctrl_data in
      let last = length cache - 1 in
      let inside = get_elem?-some_lt cache i h in
      record {
        backed = λ j a there.
            let (less, ne, before) = node_cache_remove_at-origin cache i j a inside there in
            let away = g.apart (origin i last j) i a item before h ne in
            let ba = g.backed (origin i last j) a before in
            record {
              intf = ba.intf;
              found = lookup-remove_ne item.inf a.inf intfs (λ e. away.inf (sym e)) ∙ ba.found;
              same_id = ba.same_id;
              block =
                  lookup-remove_ne c ba.intf.ctrl_data ctrls
                    (λ e. away.ctrl ba.intf b.intf ba.found b.found (sym e))
                  ∙ ba.block;
            };
        apart = λ j j' x y hx hy ne.
            let (less, nx, bx) = node_cache_remove_at-origin cache i j x inside hx in
            let (less', ny, by) = node_cache_remove_at-origin cache i j' y inside hy in
            let away =
              g.apart (origin i last j) (origin i last j') x y bx by
                (origin_injective i last j j' less less' ne) in
            record {
              inf = away.inf;
              id = away.id;
              ctrl = λ x' y' fx fy.
                  away.ctrl x' y' (still_live item.inf x.inf intfs x' g.simple_intfs fx).1
                    (still_live item.inf y.inf intfs y' g.simple_intfs fy).1;
            };
        intf_used = λ p x f.
            let (ne, before) = still_live item.inf p intfs x g.simple_intfs f in
            u.free_keeps si item.inf p ne (g.intf_used p x before);
        ctrl_used = λ p x f.
            let (ne, before) = still_live c p ctrls x g.simple_ctrls f in
            u.free_keeps sc c p ne (g.ctrl_used p x before);
        simple_intfs = remove-IsSimple item.inf intfs g.simple_intfs;
        simple_ctrls = remove-IsSimple c ctrls g.simple_ctrls;
        bounded = omega (arith, g.bounded, length-node_cache_remove_at cache i inside);
      }

  -- Where the slabs are used as documented, destroying a node of the cache, in a state in which
  -- cache, interfaces and control blocks agree, ends without a fault in such a state, with one
  -- item less in the cache and one control block given back; the node's interface is not live any
  -- more, and the heap and the serial line are as before.
  pub destroy_node-Consistent :
      (i : ℕ) (item : NodeItem) (w : World k)
      → IsConsistent u w
      → get_elem? w.node_cache i ≡ some item
      → (w' : World k) × (c : ℕ) × (destroy_node item.inf w ≡ done tt w')
        × IsConsistent u w'
        × (length w'.node_cache ≡ length w.node_cache - 1)
        × (w'.node_control_data_slab ≡ k.k_mem_slab_free w.node_control_data_slab c)
        × (lookup item.inf w'.interfaces ≡ none)
        × (w'.heap ≡ w.heap)
        × (w'.uart ≡ w.uart)
        × Perm w.node_cache (item ∷ w'.node_cache)
  unfolding destroy_node ctrl_data_free gb_interface_dealloc node_cache_remove_by_id
  destroy_node-Consistent i item w g h =
      let b = g.backed i item h in
      let c = b.intf.ctrl_data in
      let w' : World k = record w {
        net = if is_negative item.sock then w.net else k.zsock_close w.net item.sock;
        node_cache = node_cache_remove_at w.node_cache i;
        node_control_data_slab = k.k_mem_slab_free w.node_control_data_slab c;
        node_control_data = remove c w.node_control_data;
        gb_interface_slab = k.k_mem_slab_free w.gb_interface_slab item.inf;
        interfaces = remove item.inf w.interfaces;
      } in
      (
        w',
        c,
        ground (arith, b.found, b.same_id, b.block, node_cache_find_by_id-Agree i item g h),
        removed-Agree i item g h,
        length-node_cache_remove_at w.node_cache i (get_elem?-some_lt w.node_cache i h),
        refl,
        lookup-remove_self item.inf w.interfaces g.simple_intfs,
        refl,
        refl,
        node_cache_remove_at-Perm w.node_cache i item h,
      )
