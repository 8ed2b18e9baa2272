-- ===== src/Conn/Nodes.antt =====
-- The bodies of messages: node IDs and nodes, one to a line.
use sprout_go.Base.{
  ℕ, zero, suc, ◌*◌, ◌^◌, Option, none, some, List, [], ◌∷◌, ◌++◌, ltb, if◌then◌else◌, Text, codes,
}
use sprout_go.Base.Int.{ℤ, pos, negsuc}
use sprout_go.Base.Exec.{Exec, pure, raise, panic, rethrow, ◌>>=◌}
use sprout_go.Base.Errors.{Error, message, opaque, foreign}
use sprout_go.Fmt.Space.{newline}
use sprout_go.Fmt.Format.{Value, string, string_kind, printf, scanf, scan_line}
use sprout_go.Base64.{encode, decode}
use sprout_go.Forest.{Forest}

-- `make` of a slice: a run-time panic if the length is negative, or if that many elements are
-- larger than the address space (2^48 bytes) allows.
unfoldable pub make_slice {ℓ} : {S : Type ℓ} → ℕ → ℤ → Exec S ℕ
make_slice size (pos n) = if ltb (2 ^ 48) (size * n) then panic else pure n
make_slice size (negsuc n) = panic

abbrev pub or_raise {ℓ κ} : {S : Type ℓ} {A : Type κ} → Option A → Error → Exec S A
or_raise none e = raise e
or_raise (some a) e = pure a

abbrev pub node_line_format : Text
node_line_format = codes "%s %s\n"

module _ (F : Forest) where
  open F use {
    Hash, Node, equals, marshal_text, unmarshal_text, id, marshal_binary, unmarshal_binary_node,
  }

  -- stringifyNodeIDs
  unfoldable pub stringify_node_ids : List Hash → Text
  stringify_node_ids [] = []
  stringify_node_ids (h ∷ hs) = marshal_text h ++ newline ∷ stringify_node_ids hs

  -- nodeLine
  unfoldable pub node_line : Node → Text
  node_line n =
      printf node_line_format
        (string (marshal_text (id n)) ∷ string (encode (marshal_binary n)) ∷ [])

  -- stringifyNodes, and the loop of SendResponse
  unfoldable pub stringify_nodes : List Node → Text
  stringify_nodes [] = []
  stringify_nodes (n ∷ ns) = node_line n ++ stringify_nodes ns

  -- UnmarshalText
  unfoldable pub unmarshal_hash : Text → Exec Text Hash
  unmarshal_hash t = or_raise (unmarshal_text t) (foreign "UnmarshalText")

  -- NodeFromBase64URL
  unfoldable pub node_from_base64_url : Text → Exec Text Node
  node_from_base64_url t = do
    b ←
        or_raise (decode t)
          (opaque "failed to decode node string: %v" (foreign "base64.CorruptInputError"))
    or_raise (unmarshal_binary_node b)
        (opaque "failed to unmarshal node from string: %v" (foreign "UnmarshalBinaryNode"))

  -- The test of a node against the ID that was sent with it.
  unfoldable pub check_id : Hash → Node → Exec Text Node
  check_id h n =
      if equals (id n) h
      then pure n
      else raise (message "message id mismatch, node given as %s hashes to %s")

  unfoldable pub node_of_fields : List Value → Exec Text Node
  node_of_fields (string id_string ∷ string node_string ∷ []) = do
    h ← rethrow (opaque "failed to unmarshal node id %s: %v") (unmarshal_hash id_string)
    n ← rethrow (opaque "failed to read node %s: %v") (node_from_base64_url node_string)
    check_id h n
  node_of_fields _ = raise (message "unexpected number of items, expected %d found %d")

  -- One round of the loop of readNodeLines.
  unfoldable pub read_node_line : Exec Text Node
  read_node_line = do
    vs ←
        rethrow (opaque "error reading node line: %v")
          (scanf node_line_format (string_kind ∷ string_kind ∷ []))
    node_of_fields vs

  -- One round of the loop of readNodeIDs.
  unfoldable pub read_node_id : Exec Text Hash
  read_node_id = do
    t ← rethrow (opaque "error reading id line: %v") scan_line
    rethrow (opaque "failed to unmarshal id line: %v") (unmarshal_hash t)

-- A loop that fills a slice from its start.
unfoldable pub fill {ℓ κ} : {S : Type ℓ} {A : Type κ} → Exec S A → ℕ → Exec S (List A)
fill read zero = pure []
fill read (suc n) = do a ← read; rest ← fill read n; pure (a ∷ rest)

module _ (F : Forest) where
  open F use {Hash, Node}

  -- readNodeLines; an interface value takes 16 bytes.
  unfoldable pub read_node_lines : ℤ → Exec Text (List Node)
  read_node_lines count = do n ← make_slice 16 count; fill (read_node_line F) n

  -- readNodeIDs; a pointer takes 8 bytes.
  unfoldable pub read_node_ids : ℤ → Exec Text (List Hash)
  read_node_ids count = do n ← make_slice 8 count; fill (read_node_id F) n
