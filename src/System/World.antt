-- ===== src/System/World.antt =====
-- The static variables of all source files in one record, and the monad of the code that changes
-- them. A read or write that C leaves undefined is a fault, which ends the run.
use cc1352_firmware.Prelude.{
  ℕ, ◌≡◌, ◌⊎◌, inl, inr, refl, Bool, true, false, List, Option, none, some, Bytes,
}
use cc1352_firmware.Prelude.Int.{ℤ}
use cc1352_firmware.Hdlc.{HdlcDriver}
use cc1352_firmware.System.Kernel.{Kernel}

-- A `struct gb_interface *`: the two static interfaces, and those of the slab by their address.
pub data IntfPtr : Type 0 where
  svc_intf : IntfPtr
  local_intf : IntfPtr
  node_intf : ℕ → IntfPtr

-- `struct gb_interface` of a node. The callbacks of all nodes are the same three functions.
pub record NodeInterface : Type 0 where
  pub id : ℕ
  pub ctrl_data : ℕ

-- `struct node_item`
pub record NodeItem : Type 0 where
  pub sock : ℤ
  pub id : ℕ
  pub addr : Bytes
  pub inf : ℕ
  pub fail_count : ℕ

-- `struct node_ap_item`
pub record NodeApItem : Type 0 where
  pub node_intf : Option IntfPtr
  pub node_cport : ℕ
  pub node_id : ℕ

pub record World (k : Kernel) : Type 0 where
  pub heap : k.Heap
  pub net : k.Net
  pub gb_interface_slab : k.Slab
  pub node_control_data_slab : k.Slab
  pub operation_id_counter : ℕ
  pub interface_id_counter : ℕ
  -- the live objects of the two slabs, by address
  pub interfaces : List (ℕ × NodeInterface)
  pub node_control_data : List (ℕ × ℤ)
  pub node_cache : List NodeItem
  pub svc_is_read_flag : Bool
  pub node_ap_map : List NodeApItem
  pub hdlc_driver : HdlcDriver
  -- the bytes sent on the serial line
  pub uart : Bytes
  -- the writing end of the pipe that wakes the receiving thread
  pub local_pipe_writer : ℤ
  -- whether the discovery thread runs
  pub discovery : Bool

pub data Fault : Type 0 where
  null_pointer out_of_bounds use_after_free assertion out_of_fuel : Fault

pub data Outcome (k : Kernel) (A : Type 0) : Type 0 where
  done : A → World k → Outcome k A
  fault : Fault → Outcome k A

abbrev pub M : Kernel → Type 0 → Type 0
M k A = World k → Outcome k A

infixl 5 ◌>>=◌ ◌>>◌
abbrev pub ◌>>=◌ : {k : Kernel} {A B : Type 0} → M k A → (A → M k B) → M k B
◌>>=◌ m f w = elim (m w) [ done a w' ↦ f a w' | fault e ↦ fault e ]

abbrev pub ◌>>◌ : {k : Kernel} {A B : Type 0} → M k A → M k B → M k B
◌>>◌ m n w = elim (m w) [ done a w' ↦ n w' | fault e ↦ fault e ]

abbrev pub return : {k : Kernel} {A : Type 0} → A → M k A
return a w = done a w

abbrev pub fail : {k : Kernel} {A : Type 0} → Fault → M k A
fail e w = fault e

abbrev pub gets : {k : Kernel} {A : Type 0} → (World k → A) → M k A
gets f w = done (f w) w

abbrev pub modify : {k : Kernel} → (World k → World k) → M k (Unit {0})
modify f w = done tt (f w)

-- an `if` statement with no else
abbrev pub when : {k : Kernel} → Bool → M k (Unit {0}) → M k (Unit {0})
when true m = m
when false m = return tt

-- A read through a null pointer is a fault.
abbrev pub non_null : {k : Kernel} {A : Type 0} → Option A → M k A
non_null none = fail null_pointer
non_null (some a) = return a

-- A read past the end of an array is a fault.
abbrev pub in_array : {k : Kernel} {A : Type 0} → Option A → M k A
in_array none = fail out_of_bounds
in_array (some a) = return a

-- A read of a freed object is a fault.
abbrev pub live : {k : Kernel} {A : Type 0} → Option A → M k A
live none = fail use_after_free
live (some a) = return a

pub Outcome-cases :
    {k : Kernel} {A : Type 0} (o : Outcome k A)
    → ((e : Fault) × (o ≡ fault e)) ⊎ ((a : A) × (w : World k) × (o ≡ done a w))
Outcome-cases (done a w) = inr (a, w, refl)
Outcome-cases (fault e) = inl (e, refl)
