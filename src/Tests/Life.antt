-- ===== src/Tests/Life.antt =====
-- Two nodes that come, one that is connected and one that goes.
use cc1352_firmware.Prelude.{
  none, ℕ, zero, suc, ◌+◌, ◌<◌, ◌≡◌, inl, inr, refl, sym, ap, Bool-cases, [], ◌∷◌, some, arith, ltb,
}
use cc1352_firmware.Prelude.Int.{ℤ, pos, minus_one}
use cc1352_firmware.System.World.{World, NodeItem, fault, assertion}
use cc1352_firmware.Greybus.Interface.{new_interface_id, gb_interface_alloc}
use cc1352_firmware.Node.Cache.{node_cache_add, node_cache_find_by_addr}
use cc1352_firmware.Node.Connect.{ctrl_data_alloc, cache_interface, node_create_interface}
use cc1352_firmware.Node.Destroy.{node_destroy_all}
use cc1352_firmware.Node.Consistency.{SlabUse, IsConsistent}
use cc1352_firmware.Node.Life.{IsFresh, Call, Life, Life-Consistent}
use cc1352_firmware.Node.Announcing.{HasRoom}
use cc1352_firmware.Node.Removal.{same_element}
use cc1352_firmware.Node.Teardown.{SlabLaw, node_destroy_all_several}
use cc1352_firmware.Tests.Samples.{Pool, pool_alloc, toy, booted, connected, to_cport_0}

pub pool_alloc_lem :
    (s s' : Pool) (p : ℕ) → pool_alloc s ≡ some (p, s') → (p ≡ s.next) × (s'.next ≡ s.next + 1)
pool_alloc_lem s s' p e = elim (Bool-cases (ltb s.used 4)) [
  | inl room ↦
      let same = same_element (rw room at e) in
      (sym (ap (λ (x : ℕ × Pool). x.0) same), sym (ap (λ (x : ℕ × Pool). x.1.next) same))
  | inr full ↦ absurd (ground (arith, e, full))
]

-- the addresses that were handed out
abbrev pub toy_use : SlabUse toy
toy_use = record {
  InUse = λ (s : Pool) p. p < s.next;
  alloc_fresh =
      λ s s' p e used. let (f, g) = pool_alloc_lem s s' p e in absurd (omega (arith, f, used));
  alloc_used = λ s s' p e. let (f, g) = pool_alloc_lem s s' p e in omega (arith, f, g);
  alloc_keeps = λ s s' p q e used. let (f, g) = pool_alloc_lem s s' p e in omega (arith, g, used);
  free_keeps = λ s p q ne used. used;
}

booted-Consistent : IsConsistent toy_use booted
booted-Consistent = record {
  backed = λ i item h. absurd (cc);
  apart = λ i j a b h. absurd (cc);
  intf_used = λ p x h. absurd (cc);
  ctrl_used = λ c s h. absurd (cc);
  simple_intfs = tt;
  simple_ctrls = tt;
  bounded = omega arith;
}

abbrev item_at : ℤ → ℕ → ℕ → NodeItem
item_at sock n inf = record { sock = sock; id = n; addr = n ∷ []; inf = inf; fail_count = 0 }

abbrev first_created : World toy
first_created = record booted {
  gb_interface_slab = record { used = 1; next = 101 };
  node_control_data_slab = record { used = 1; next = 201 };
  interface_id_counter = 4;
  interfaces = (100, record { id = 3; ctrl_data = 200 }) ∷ [];
  node_control_data = (200, minus_one) ∷ [];
  node_cache = item_at minus_one 3 100 ∷ [];
}

abbrev both_created : World toy
both_created = record booted {
  gb_interface_slab = record { used = 2; next = 102 };
  node_control_data_slab = record { used = 2; next = 202 };
  interface_id_counter = 5;
  interfaces =
      (101, record { id = 4; ctrl_data = 201 }) ∷ (100, record { id = 3; ctrl_data = 200 }) ∷ [];
  node_control_data = (201, minus_one) ∷ (200, minus_one) ∷ [];
  node_cache = item_at minus_one 3 100 ∷ item_at minus_one 4 101 ∷ [];
}

abbrev second_connected : World toy
second_connected = record both_created {
  net = 1;
  node_control_data = (201, pos 3) ∷ (200, minus_one) ∷ [];
  node_cache = item_at minus_one 3 100 ∷ item_at (pos 3) 4 101 ∷ [];
}

abbrev first_destroyed : World toy
first_destroyed = record second_connected {
  gb_interface_slab = record { used = 1; next = 102 };
  node_control_data_slab = record { used = 1; next = 202 };
  interfaces = (101, record { id = 4; ctrl_data = 201 }) ∷ [];
  node_control_data = (201, pos 3) ∷ [];
  node_cache = item_at (pos 3) 4 101 ∷ [];
}

IsFresh-first : IsFresh booted
IsFresh-first i a h = absurd (cc)

IsFresh-second : IsFresh first_created
IsFresh-second zero a h e = absurd (omega (arith, ap NodeItem.id (same_element h), e))
IsFresh-second (suc i) a h e = absurd (cc)

both_created-Life : Life booted both_created
unfolding node_create_interface ctrl_data_alloc gb_interface_alloc new_interface_id cache_interface
    node_cache_add
both_created-Life =
    Life.call (Call.create (4 ∷ [])) IsFresh-second refl
      (Life.call (Call.create (3 ∷ [])) IsFresh-first refl Life.begin)

toy_counts : SlabLaw toy
toy_counts s p = refl

both_created-Consistent : IsConsistent toy_use both_created
both_created-Consistent =
    (Life-Consistent toy_use booted both_created booted-Consistent both_created-Life).0

node_destroy_all_several_example : node_destroy_all both_created ≡ fault assertion
node_destroy_all_several_example =
    node_destroy_all_several toy_counts toy_use both_created both_created-Consistent (omega arith)
      refl

abbrev pub connected-HasRoom : HasRoom connected
connected-HasRoom = record {
  c = 200;
  sc = record { used = 1; next = 201 };
  block = refl;
  p = 100;
  si = record { used = 1; next = 101 };
  interface = refl;
  cache = omega arith;
  cport = 0;
  connected = to_cport_0;
  cport_lt = omega arith;
  q = 0;
  h = 1;
  heap = refl;
  counter_lt = omega arith;
}

pub nobody : node_cache_find_by_addr toy.net_ipv6_addr_cmp connected.node_cache (3 ∷ []) ≡ none
unfolding node_cache_find_by_addr
nobody = refl
