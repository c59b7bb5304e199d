-- ===== src/NodeIdentity/Layout.antt =====
-- Labels tell nodes apart, and the sort order is that of the node numbers
-- (core/node_identity_policy.py).
use control_ok_a_v.Base.{ℕ, ◌≤◌, ◌<◌, ◌≡◌, ◌↔◌, ◌⊎◌, arith}
use control_ok_a_v.Base.Int.{pos}
use control_ok_a_v.NodeIdentity.Policy.{
  number, normalize_node_id, identity_of, resolve_midi_bus_from_box, resolve_node_label,
  resolve_node_midi_bus, resolve_node_sort_key, resolve_node_identity,
}

-- Lexicographic, as Python compares tuples.
pub KeyLess : ℕ × ℕ × ℕ → ℕ × ℕ × ℕ → Type 0
KeyLess (a, b, c) (x, y, z) = (a < x) ⊎ ((a ≡ x) × ((b < y) ⊎ ((b ≡ y) × (c < z))))

-- Two node numbers from 1 on have different labels.
pub resolve_node_label_injective :
    (m n : ℕ)
    → 0 < m
    → 0 < n
    → resolve_node_label (number (pos m)) ≡ resolve_node_label (number (pos n))
    → m ≡ n
unfolding resolve_node_label normalize_node_id identity_of resolve_node_identity
resolve_node_label_injective m n hm hn e = ground arith

-- The sort keys of two node numbers from 1 on stand in the order of the numbers.
pub resolve_node_sort_key_order :
    (m n : ℕ)
    → 0 < m
    → 0 < n
    → (m < n)
      ↔ KeyLess (resolve_node_sort_key (number (pos m))) (resolve_node_sort_key (number (pos n)))
unfolding resolve_node_sort_key normalize_node_id identity_of resolve_node_identity KeyLess
resolve_node_sort_key_order m n hm hn = ground arith

-- The nodes 1..15, three boxes of five, play on the primary bus, and all others on the secondary.
pub resolve_node_midi_bus_lem :
    (n : ℕ)
    → 0 < n
    → ((n ≤ 15) ↔ (resolve_node_midi_bus (number (pos n)) ≡ 0))
      × ((15 < n) ↔ (resolve_node_midi_bus (number (pos n)) ≡ 1))
unfolding resolve_node_midi_bus normalize_node_id identity_of resolve_node_identity
    resolve_midi_bus_from_box
resolve_node_midi_bus_lem n hn = ground arith
