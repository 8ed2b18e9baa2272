-- ===== src/Conn/Wire.antt =====
-- What the Send operations write for a message: the text that goes over the connection.
use sprout_go.Base.{ℕ, ◌*◌, ◌^◌, ◌≤◌, ◌<◌, List, [], ◌∷◌, ◌++◌, length, Text, codes}
use sprout_go.Base.Int.{FitsInt}
use sprout_go.Fmt.Format.{int, uint, string, printf}
use sprout_go.Forest.{Forest}
use sprout_go.Conn.Verbs.{
  version, list, query, ancestry, leaves_of, subscribe, unsubscribe, announce, response, status,
}
use sprout_go.Conn.Nodes.{stringify_node_ids, stringify_nodes}
use sprout_go.Conn.Parse.{
  Message, version_message, list_message, query_message, ancestry_message, leaves_of_message,
  response_message, subscribe_message, unsubscribe_message, status_message, announce_message,
  no_message,
}
use sprout_go.Conn.Send.{op_format, count}

-- A list that fits a slice whose elements have this size.
abbrev pub FitsSlice {ℓ} : {A : Type ℓ} → ℕ → List A → Type 0
FitsSlice size xs = size * length xs ≤ 2 ^ 48

module _ (F : Forest) where
  open F use {Hash, Node, hash_string, node_type_bits}

  -- A message whose numbers fit their types.
  abbrev pub IsSendable : Message Hash Node → Type 0
  IsSendable (version_message id major minor) = FitsInt id × FitsInt major × FitsInt minor
  IsSendable (list_message id node_type quantity) =
      FitsInt id × (node_type < 2 ^ node_type_bits) × FitsInt quantity
  IsSendable (query_message id ids) = FitsInt id × FitsSlice 8 ids
  IsSendable (ancestry_message id node levels) = FitsInt id × FitsInt levels
  IsSendable (leaves_of_message id node quantity) = FitsInt id × FitsInt quantity
  IsSendable (response_message target nodes) = FitsInt target × FitsSlice 16 nodes
  IsSendable (subscribe_message id node) = FitsInt id
  IsSendable (unsubscribe_message id node) = FitsInt id
  IsSendable (status_message target code) = FitsInt target × FitsInt code
  IsSendable (announce_message id nodes) = FitsInt id × FitsSlice 16 nodes
  IsSendable no_message = ⊥

  unfoldable pub message_text : Message Hash Node → Text
  message_text (version_message id major minor) =
      printf (op_format version) (int id ∷ int major ∷ int minor ∷ [])
  message_text (list_message id node_type quantity) =
      printf (op_format list) (int id ∷ uint node_type ∷ int quantity ∷ [])
  message_text (query_message id ids) =
      printf (op_format query ++ codes "%s")
        (int id ∷ count F ids ∷ string (stringify_node_ids F ids) ∷ [])
  message_text (ancestry_message id node levels) =
      printf (op_format ancestry) (int id ∷ string (hash_string node) ∷ int levels ∷ [])
  message_text (leaves_of_message id node quantity) =
      printf (op_format leaves_of) (int id ∷ string (hash_string node) ∷ int quantity ∷ [])
  message_text (response_message target nodes) =
      printf (op_format response ++ codes "%s")
        (int target ∷ count F nodes ∷ string (stringify_nodes F nodes) ∷ [])
  message_text (subscribe_message id node) =
      printf (op_format subscribe) (int id ∷ string (hash_string node) ∷ [])
  message_text (unsubscribe_message id node) =
      printf (op_format unsubscribe) (int id ∷ string (hash_string node) ∷ [])
  message_text (status_message target code) = printf (op_format status) (int target ∷ int code ∷ [])
  message_text (announce_message id nodes) =
      printf (op_format announce ++ codes "%s")
        (int id ∷ count F nodes ∷ string (stringify_nodes F nodes) ∷ [])
  message_text no_message = []
