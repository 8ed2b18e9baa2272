-- ===== src/Conn/Parse.antt =====
-- ReadMessage up to the call of the handler: a message is read off the connection.
use sprout_go.Base.{ℕ, Option, none, some, List, [], ◌∷◌, ltb, length, if◌then◌else◌, Text, codes}
use sprout_go.Base.Int.{ℤ}
use sprout_go.Base.Exec.{Exec, pure, raise, rethrow, ◌>>=◌}
use sprout_go.Base.Errors.{Error, message, opaque, wrapped}
use sprout_go.Fmt.Format.{Value, int, uint, string, Kind, int_kind, uint_kind, string_kind, scanf}
use sprout_go.Forest.{Forest}
use sprout_go.Conn.Verbs.{
  Verb, version, list, query, ancestry, leaves_of, subscribe, unsubscribe, announce, response,
  status, formats, verb_of_word,
}
use sprout_go.Conn.Nodes.{unmarshal_hash, read_node_lines, read_node_ids}

-- A message as the switch of ReadMessage has read it, before its handler is looked up.
pub data Message (H N : Type 0) : Type 0 where
  version_message : (id major minor : ℤ) → Message H N
  list_message : (id : ℤ) → (node_type : ℕ) → (quantity : ℤ) → Message H N
  query_message : (id : ℤ) → List H → Message H N
  ancestry_message : (id : ℤ) → H → (levels : ℤ) → Message H N
  leaves_of_message : (id : ℤ) → H → (quantity : ℤ) → Message H N
  response_message : (target : ℤ) → List N → Message H N
  subscribe_message : (id : ℤ) → H → Message H N
  unsubscribe_message : (id : ℤ) → H → Message H N
  status_message : (target code : ℤ) → Message H N
  announce_message : (id : ℤ) → List N → Message H N
  -- a word that is no verb: the switch has no case for it
  no_message : Message H N

abbrev pub not_enough : Error
not_enough = message "failed to scan enough arguments for %s (got %d, expected %d)"

-- scanOp
unfoldable pub scan_op : Verb → List Kind → Exec Text (List Value)
scan_op verb ks = do
  vs ← rethrow (opaque "failed to scan %s: %v") (scanf (formats verb) ks)
  if ltb (length vs) (length ks) then raise not_enough else pure vs

module _ (F : Forest) where
  open F use {Hash, Node, node_type_bits}

  -- The kinds of the variables of each case.
  abbrev pub fields : Verb → List Kind
  fields version = int_kind ∷ int_kind ∷ int_kind ∷ []
  fields list = int_kind ∷ uint_kind node_type_bits ∷ int_kind ∷ []
  fields query = int_kind ∷ int_kind ∷ []
  fields ancestry = int_kind ∷ string_kind ∷ int_kind ∷ []
  fields leaves_of = int_kind ∷ string_kind ∷ int_kind ∷ []
  fields subscribe = int_kind ∷ string_kind ∷ []
  fields unsubscribe = int_kind ∷ string_kind ∷ []
  fields announce = int_kind ∷ int_kind ∷ []
  fields response = int_kind ∷ int_kind ∷ []
  fields status = int_kind ∷ int_kind ∷ []

  -- Each case behind its scan. The variables of a case are filled by their kinds, so the last
  -- clause, for any other list, is not reached.
  unfoldable pub parse_fields : Verb → List Value → Exec Text (Message Hash Node)
  parse_fields version (int id ∷ int major ∷ int minor ∷ []) = pure (version_message id major minor)
  parse_fields list (int id ∷ uint node_type ∷ int quantity ∷ []) =
      pure (list_message id node_type quantity)
  parse_fields query (int id ∷ int count ∷ []) = do
    ids ← rethrow (wrapped "failed to read node ids in query message: %w") (read_node_ids F count)
    pure (query_message id ids)
  parse_fields ancestry (int id ∷ string node_id ∷ int levels ∷ []) = do
    h ← rethrow (wrapped "failed to unmarshal ancestry target: %w") (unmarshal_hash F node_id)
    pure (ancestry_message id h levels)
  parse_fields leaves_of (int id ∷ string node_id ∷ int quantity ∷ []) = do
    h ← rethrow (wrapped "failed to unmarshal leaves_of target: %w") (unmarshal_hash F node_id)
    pure (leaves_of_message id h quantity)
  parse_fields subscribe (int id ∷ string node_id ∷ []) = do
    h ← rethrow (wrapped "failed to unmarshal %s target: %w") (unmarshal_hash F node_id)
    pure (subscribe_message id h)
  parse_fields unsubscribe (int id ∷ string node_id ∷ []) = do
    h ← rethrow (wrapped "failed to unmarshal %s target: %w") (unmarshal_hash F node_id)
    pure (unsubscribe_message id h)
  parse_fields announce (int id ∷ int count ∷ []) = do
    nodes ← rethrow (wrapped "failed parsing announce node list: %w") (read_node_lines F count)
    pure (announce_message id nodes)
  parse_fields response (int target ∷ int count ∷ []) = do
    nodes ← rethrow (wrapped "failed reading response node list: %w") (read_node_lines F count)
    pure (response_message target nodes)
  parse_fields status (int target ∷ int code ∷ []) = pure (status_message target code)
  parse_fields _ _ = raise not_enough

  -- The error of scanOp is passed on as it is, but in the case of `status`.
  abbrev pub scan_error : Verb → Error → Error
  scan_error status e = wrapped "failed scanning status message: %w" e
  scan_error _ e = e

  unfoldable pub parse_verb : Option Verb → Exec Text (Message Hash Node)
  parse_verb none = pure no_message
  parse_verb (some verb) = do
    vs ← rethrow (scan_error verb) (scan_op verb (fields verb))
    parse_fields verb vs

  unfoldable pub parse_word : List Value → Exec Text (Message Hash Node)
  parse_word (string word ∷ []) = parse_verb (verb_of_word word)
  parse_word _ = raise (message "failed to read a verb")

  unfoldable pub parse_message : Exec Text (Message Hash Node)
  parse_message = do
    vs ← rethrow (wrapped "error scanning verb: %w") (scanf (codes "%s") (string_kind ∷ []))
    parse_word vs
