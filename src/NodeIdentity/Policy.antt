-- ===== src/NodeIdentity/Policy.antt =====
-- `resolve_node_identity` and its parts.
use control_ok_a_v.Base.{ℕ, ◌+◌, ◌-◌, ◌/◌, ◌%◌, leb, ◌==◌, Option, none, some, if◌then◌else◌}
use control_ok_a_v.Base.Int.{ℤ, pos, negsuc}

-- What `int(node_id)` gives: a number, or a `TypeError` or `ValueError`.
pub data RawNodeId : Type 0 where
  number : ℤ → RawNodeId
  not_a_number : RawNodeId

pub data Prefix : Type 0 where
  eb ec ed ee ef : Prefix

-- The texts: "Nodo desconocido", or a prefix and a box number; "Caja desconocida", or "Caja" and it.
pub data NodeLabel : Type 0 where
  unknown_node : NodeLabel
  label : Prefix → ℕ → NodeLabel

pub data BoxLabel : Type 0 where
  unknown_box : BoxLabel
  box : ℕ → BoxLabel

pub record NodeIdentityPolicy : Type 0 where
  pub node_id : Option ℕ
  pub node_label : NodeLabel
  pub box_label : BoxLabel
  pub box_index : Option ℕ
  pub slot_index : Option ℕ
  pub midi_bus : ℕ
  pub sort_key : ℕ × ℕ × ℕ

abbrev pub unknown_sort_group : ℕ
unknown_sort_group = 2_147_483_647

-- `_NODE_PREFIXES[slot]`, for a slot below 5
abbrev pub prefix_of : ℕ → Prefix
prefix_of slot =
    if slot == 0
    then eb
    else if slot == 1
    then ec
    else if slot == 2
    then ed
    else if slot == 3
    then ee
    else ef

unfoldable pub normalize_node_id : RawNodeId → Option ℕ
normalize_node_id not_a_number = none
normalize_node_id (number (negsuc n)) = none
normalize_node_id (number (pos n)) = if n == 0 then none else some n

unfoldable pub resolve_midi_bus_from_box : Option ℕ → ℕ
resolve_midi_bus_from_box none = 0
resolve_midi_bus_from_box (some box_index) = if leb box_index 3 then 0 else 1

unfoldable pub identity_of : Option ℕ → NodeIdentityPolicy
unfolding resolve_midi_bus_from_box
identity_of none = record {
  node_id = none;
  node_label = unknown_node;
  box_label = unknown_box;
  box_index = none;
  slot_index = none;
  midi_bus = 0;
  sort_key = (unknown_sort_group, unknown_sort_group, unknown_sort_group);
}
identity_of (some n) =
    let box_index = (n - 1) / 5 + 1 in
    let slot_index = (n - 1) % 5 in
    record {
      node_id = some n;
      node_label = label (prefix_of slot_index) box_index;
      box_label = box box_index;
      box_index = some box_index;
      slot_index = some slot_index;
      midi_bus = resolve_midi_bus_from_box (some box_index);
      sort_key = (box_index, slot_index, n);
    }

unfoldable pub resolve_node_identity : RawNodeId → NodeIdentityPolicy
unfolding normalize_node_id identity_of
resolve_node_identity node_id = identity_of (normalize_node_id node_id)

unfoldable pub resolve_node_label : RawNodeId → NodeLabel
unfolding resolve_node_identity
resolve_node_label node_id = (resolve_node_identity node_id).node_label

unfoldable pub resolve_node_midi_bus : RawNodeId → ℕ
unfolding resolve_node_identity
resolve_node_midi_bus node_id = (resolve_node_identity node_id).midi_bus

unfoldable pub resolve_node_sort_key : RawNodeId → ℕ × ℕ × ℕ
unfolding resolve_node_identity
resolve_node_sort_key node_id = (resolve_node_identity node_id).sort_key
