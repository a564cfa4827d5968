-- ===== src/Node/Allocating.antt =====
-- src/node.c: an interface or a control block that is taken from its slab, or given back, leaves
-- the nodes as they were.
use cc1352_firmware.Prelude.{
  ℕ, ◌≡◌, ◌≢◌, ◌⊎◌, inl, inr, sym, ap, ◌∙◌, Bool-cases, Option-cases, ==_iff, ◌==◌, List, ◌∷◌, none,
  some,
}
use cc1352_firmware.Prelude.Int.{ℤ}
use cc1352_firmware.Prelude.Assoc.{lookup, lookup_past}
use cc1352_firmware.System.Kernel.{Kernel}
use cc1352_firmware.System.World.{NodeInterface, NodeItem}
use cc1352_firmware.Node.Consistency.{SlabUse, Interfaces, Blocks, Agree}

-- a key that is not live
pub not_live :
    {A : Type 0} (m : List (ℕ × A)) (P : ℕ → Type 0) (p : ℕ)
    → ((q : ℕ) (a : A) → lookup q m ≡ some a → P q)
    → ¬ P p
    → lookup p m ≡ none
not_live m P p used fresh = elim (Option-cases (lookup p m)) [
  | inl nothing ↦ nothing
  | inr (a, there) ↦ absurd (fresh (used p a there))
]

-- the keys of a list with one more
new_key :
    {A : Type 0} (p q : ℕ) (v a : A) (m : List (ℕ × A))
    → lookup q ((p, v) ∷ m) ≡ some a
    → (p ≡ q) ⊎ (lookup q m ≡ some a)
new_key p q v a m h = elim (Bool-cases (p == q)) [
  | inl e ↦ inl ((==_iff p q).0 e)
  | inr e ↦ inr (sym (lookup_past q p v m (λ g. absurd (cc (e, (==_iff p q).1 g)))) ∙ h)
]

pub live_ne :
    {A : Type 0} (p q : ℕ) (a : A) (m : List (ℕ × A))
    → lookup p m ≡ none
    → lookup q m ≡ some a
    → p ≢ q
live_ne p q a m h g e = absurd (cc (h, g, ap (λ r. lookup r m) e))

module _ {k : Kernel} (u : SlabUse k) where
  -- an interface that no item of the cache has
  pub interface-Agree :
      {si sc si' : k.Slab} {intfs : Interfaces} {ctrls : Blocks} {cache : List NodeItem} (p : ℕ)
      (x : NodeInterface)
      → Agree u si sc intfs ctrls cache
      → k.k_mem_slab_alloc si ≡ some (p, si')
      → Agree u si' sc ((p, x) ∷ intfs) ctrls cache
  interface-Agree {si} {sc} {si'} {intfs} {ctrls} {cache} p x g e =
      let fresh = not_live intfs (u.InUse si) p g.intf_used (u.alloc_fresh si si' p e) in
      let past : (q : ℕ) (y : NodeInterface)
          → lookup q intfs ≡ some y
          → lookup q ((p, x) ∷ intfs) ≡ lookup q intfs =
        λ q y f. lookup_past q p x intfs (live_ne p q y intfs fresh f) in
      record {
        backed = λ i item h.
            let b = g.backed i item h in
            record {
              intf = b.intf;
              found = past item.inf b.intf b.found ∙ b.found;
              same_id = b.same_id;
              block = b.block;
            };
        apart = λ i j a b ha hb ne.
            let away = g.apart i j a b ha hb ne in
            let ba = g.backed i a ha in
            let bb = g.backed j b hb in
            record {
              inf = away.inf;
              id = away.id;
              ctrl = λ y z fy fz.
                  away.ctrl y z (sym (past a.inf ba.intf ba.found) ∙ fy)
                    (sym (past b.inf bb.intf bb.found) ∙ fz);
            };
        intf_used = λ q y f. elim (new_key p q x y intfs f) [
          | inl here ↦ rw (sym here) (u.alloc_used si si' p e)
          | inr old ↦ u.alloc_keeps si si' p q e (g.intf_used q y old)
        ];
        ctrl_used = g.ctrl_used;
        simple_intfs = (fresh, g.simple_intfs);
        simple_ctrls = g.simple_ctrls;
        bounded = g.bounded;
      }

  -- a control block that no interface of the cache has
  pub block-Agree :
      {si sc sc' : k.Slab} {intfs : Interfaces} {ctrls : Blocks} {cache : List NodeItem} (c : ℕ)
      (s : ℤ)
      → Agree u si sc intfs ctrls cache
      → k.k_mem_slab_alloc sc ≡ some (c, sc')
      → Agree u si sc' intfs ((c, s) ∷ ctrls) cache
  block-Agree {si} {sc} {sc'} {intfs} {ctrls} {cache} c s g e =
      let fresh = not_live ctrls (u.InUse sc) c g.ctrl_used (u.alloc_fresh sc sc' c e) in
      record {
        backed = λ i item h.
            let b = g.backed i item h in
            record {
              intf = b.intf;
              found = b.found;
              same_id = b.same_id;
              block =
                  lookup_past b.intf.ctrl_data c s ctrls
                    (live_ne c b.intf.ctrl_data item.sock ctrls fresh b.block)
                  ∙ b.block;
            };
        apart = g.apart;
        intf_used = g.intf_used;
        ctrl_used = λ q y f. elim (new_key c q s y ctrls f) [
          | inl here ↦ rw (sym here) (u.alloc_used sc sc' c e)
          | inr old ↦ u.alloc_keeps sc sc' c q e (g.ctrl_used q y old)
        ];
        simple_intfs = g.simple_intfs;
        simple_ctrls = (fresh, g.simple_ctrls);
        bounded = g.bounded;
      }

  -- the same block given back
  pub block_back-Agree :
      {si sc sc' : k.Slab} {intfs : Interfaces} {ctrls : Blocks} {cache : List NodeItem} (c : ℕ)
      → Agree u si sc intfs ctrls cache
      → k.k_mem_slab_alloc sc ≡ some (c, sc')
      → Agree u si (k.k_mem_slab_free sc' c) intfs ctrls cache
  block_back-Agree {si} {sc} {sc'} {intfs} {ctrls} {cache} c g e =
      let fresh = not_live ctrls (u.InUse sc) c g.ctrl_used (u.alloc_fresh sc sc' c e) in
      record {
        backed = g.backed;
        apart = g.apart;
        intf_used = g.intf_used;
        ctrl_used = λ q y f.
            u.free_keeps sc' c q (live_ne c q y ctrls fresh f)
              (u.alloc_keeps sc sc' c q e (g.ctrl_used q y f));
        simple_intfs = g.simple_intfs;
        simple_ctrls = g.simple_ctrls;
        bounded = g.bounded;
      }
