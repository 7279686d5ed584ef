-- ===== src/Memory/Actions.antt =====
-- memory.py: the enumerations of a checkpoint plan, compared by the texts of their members.
use coldsnap.Base.{
  String, true, false, Option, some, ◌≡◌, ◌↔◌, refl, ap, ◌∙◌, sym, Eq, Ord, ◌==◌, string_eq,
  string_ord, string_lt, string_lt_irrefl, string_lt_trans, string_lt_connex, eq_iff, if◌then◌else◌,
}
use coldsnap.Memory.Regions.{
  PreservationPolicy, preserve, discard, recreate, external, policy_value,
}

pub data MemoryCheckpointAction : Type 0 where
  retain release_backing unmap_pages remap_pages replay_mapping : MemoryCheckpointAction

abbrev pub action_value : MemoryCheckpointAction → String
action_value retain = "retain"
action_value release_backing = "release-backing"
action_value unmap_pages = "unmap-pages"
action_value remap_pages = "remap-pages"
action_value replay_mapping = "replay-mapping"

pub data MemoryTransportAction : Type 0 where
  retain detach_registrations reattach_registrations : MemoryTransportAction

abbrev pub transport_value : MemoryTransportAction → String
transport_value retain = "retain"
transport_value detach_registrations = "detach-registrations"
transport_value reattach_registrations = "reattach-registrations"

-- Members with one text are one member: each text is read back.
abbrev read_action : String → Option MemoryCheckpointAction
read_action s =
    if s == "retain"
    then some retain
    else if s == "release-backing"
    then some release_backing
    else if s == "unmap-pages"
    then some unmap_pages
    else if s == "remap-pages"
    then some remap_pages
    else some replay_mapping

read_action-value : (a : MemoryCheckpointAction) → read_action (action_value a) ≡ some a
read_action-value MemoryCheckpointAction.retain = refl
read_action-value release_backing = refl
read_action-value unmap_pages = refl
read_action-value remap_pages = refl
read_action-value replay_mapping = refl

abbrev read_transport : String → Option MemoryTransportAction
read_transport s =
    if s == "retain"
    then some retain
    else if s == "detach-registrations"
    then some detach_registrations
    else some reattach_registrations

read_transport-value : (a : MemoryTransportAction) → read_transport (transport_value a) ≡ some a
read_transport-value MemoryTransportAction.retain = refl
read_transport-value detach_registrations = refl
read_transport-value reattach_registrations = refl

abbrev read_policy : String → Option PreservationPolicy
read_policy s =
    if s == "preserve"
    then some preserve
    else if s == "discard"
    then some discard
    else if s == "recreate"
    then some recreate
    else some external

read_policy-value : (p : PreservationPolicy) → read_policy (policy_value p) ≡ some p
read_policy-value preserve = refl
read_policy-value discard = refl
read_policy-value recreate = refl
read_policy-value external = refl

module _ {A : Type 0} (value : A → String) (read : String → Option A)
    (back : (a : A) → read (value a) ≡ some a) where
  value_injective : (a b : A) → value a ≡ value b → a ≡ b
  value_injective a b p = let e : some a ≡ some b = sym (back a) ∙ ap read p ∙ back b in cc

  pub value_iff : (a b : A) → ((value a == value b) ≡ true) ↔ (a ≡ b)
  value_iff a b = (
    λ h. value_injective a b ((eq_iff (value a) (value b)).0 h),
    λ p. (eq_iff (value a) (value b)).1 (ap value p),
  )

  pub value_connex :
      (a b : A)
      → string_lt (value a) (value b) ≡ false
      → string_lt (value b) (value a) ≡ false
      → a ≡ b
  value_connex a b h k = value_injective a b (string_lt_connex (value a) (value b) h k)

pub action_iff :
    (a b : MemoryCheckpointAction) → ((action_value a == action_value b) ≡ true) ↔ (a ≡ b)
action_iff = value_iff action_value read_action read_action-value

pub transport_iff :
    (a b : MemoryTransportAction) → ((transport_value a == transport_value b) ≡ true) ↔ (a ≡ b)
transport_iff = value_iff transport_value read_transport read_transport-value

pub policy_iff : (a b : PreservationPolicy) → ((policy_value a == policy_value b) ≡ true) ↔ (a ≡ b)
policy_iff = value_iff policy_value read_policy read_policy-value

pub policy_connex :
    (a b : PreservationPolicy)
    → string_lt (policy_value a) (policy_value b) ≡ false
    → string_lt (policy_value b) (policy_value a) ≡ false
    → a ≡ b
policy_connex = value_connex policy_value read_policy read_policy-value

instance abbrev pub action_eq : Eq MemoryCheckpointAction
action_eq = record { beq = λ a b. action_value a == action_value b; beq_iff = action_iff }

instance abbrev pub transport_eq : Eq MemoryTransportAction
transport_eq = record {
  beq = λ a b. transport_value a == transport_value b;
  beq_iff = transport_iff;
}

instance abbrev pub policy_eq : Eq PreservationPolicy
policy_eq = record { beq = λ a b. policy_value a == policy_value b; beq_iff = policy_iff }

instance abbrev pub policy_ord : Ord PreservationPolicy
policy_ord = record {
  eq = policy_eq;
  lt = λ a b. string_lt (policy_value a) (policy_value b);
  lt_irrefl = λ a. string_lt_irrefl (policy_value a);
  lt_trans = λ a b c. string_lt_trans (policy_value a) (policy_value b) (policy_value c);
  lt_connex = policy_connex;
}
