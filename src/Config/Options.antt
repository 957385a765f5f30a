-- ===== src/Config/Options.antt =====
-- Values under a rule's `options:`, read from and written to serde's data model: src/config.rs
-- `OptionValue`'s Deserialize and Serialize.
use siphon_smpp.Common.{ℕ, Bool}
use siphon_smpp.Tlv.{Text}
use siphon_smpp.Config.Types.{
  ℤ, OptionValue, OptionValues, OptionEntries, null, bool, int, uint, float, string, seq, map,
  no_items, item, no_entries, entry,
}

-- The calls that a deserializer makes of a visitor, and with `unit` for `serialize_unit` those that a
-- value makes of a serializer. A borrowed and an owned text are one.
mutual
  pub data Node : Type 0 where
    node_unit : Node
    node_none : Node
    node_some : Node → Node
    node_bool : Bool → Node
    node_i64 : ℤ → Node
    node_u64 : ℕ → Node
    node_f64 : ℕ → Node
    node_str : Text → Node
    node_seq : Nodes → Node
    node_map : NodeEntries → Node

  pub data Nodes : Type 0 where
    end_seq : Nodes
    element : Node → Nodes → Nodes

  pub data NodeEntries : Type 0 where
    end_map : NodeEntries
    pair : Node → Node → NodeEntries → NodeEntries

unfoldable mutual
  pub deserialize : Node → OptionValue
  deserialize node_unit = null
  deserialize node_none = null
  deserialize (node_some d) = deserialize d
  deserialize (node_bool v) = bool v
  deserialize (node_i64 v) = int v
  deserialize (node_u64 v) = uint v
  deserialize (node_f64 v) = float v
  deserialize (node_str v) = string v
  deserialize (node_seq items) = seq (next_elements items)
  deserialize (node_map entries) = map (next_entries entries)

  -- The loop over `next_element`.
  pub next_elements : Nodes → OptionValues
  next_elements end_seq = no_items
  next_elements (element node rest) = item (deserialize node) (next_elements rest)

  -- The loop over `next_entry`.
  pub next_entries : NodeEntries → OptionEntries
  next_entries end_map = no_entries
  next_entries (pair key value rest) =
      entry (deserialize key) (deserialize value) (next_entries rest)

unfoldable mutual
  pub serialize : OptionValue → Node
  serialize null = node_unit
  serialize (bool v) = node_bool v
  serialize (int v) = node_i64 v
  serialize (uint v) = node_u64 v
  serialize (float v) = node_f64 v
  serialize (string v) = node_str v
  serialize (seq items) = node_seq (serialize_elements items)
  serialize (map entries) = node_map (serialize_entries entries)

  pub serialize_elements : OptionValues → Nodes
  serialize_elements no_items = end_seq
  serialize_elements (item value rest) = element (serialize value) (serialize_elements rest)

  pub serialize_entries : OptionEntries → NodeEntries
  serialize_entries no_entries = end_map
  serialize_entries (entry key value rest) =
      pair (serialize key) (serialize value) (serialize_entries rest)
