-- ===== src/Worker/Protocol.antt =====
-- What a worker owes its peer: which message each request is answered with.
use sprout_go.Base.{
  ℕ, zero, suc, ◌≡◌, Bool, true, false, Option, none, some, List, [], ◌∷◌, if◌then◌else◌,
}
use sprout_go.Base.Int.{ℤ, pos, negsuc, pos_part}
use sprout_go.Base.Exec.{ok}
use sprout_go.Forest.{Forest, Shape, identity, community, reply, other}
use sprout_go.Conn.Parse.{
  Message, version_message, list_message, query_message, ancestry_message, leaves_of_message,
  response_message, subscribe_message, unsubscribe_message, status_message, announce_message,
  no_message,
}
use sprout_go.Conn.Send.{
  status_ok, error_protocol_too_old, error_protocol_too_new, error_unknown_node,
}
use sprout_go.Worker.Store.{Archive}
use sprout_go.Worker.Answers.{nodes_of, last}

-- What is in a store at a time.
pub record View (F : Forest) : Type 0 where
  pub look : F.Hash → Option F.Node
  pub listed : ℕ → ℤ → List F.Node
  pub below : F.Hash → List F.Hash
  pub has_expired : F.Node → Bool

-- A store that answers, at a time, with what is in it.
pub record IsAnswering {F : Forest} (A : Archive F) (view : View F) (s : A.Store) (now : ℕ)
    : Type 0 where
  pub get_look : (h : F.Hash) → A.get s h ≡ ok (view.look h)
  pub recent_listed : (t : ℕ) (q : ℤ) → A.recent s t q ≡ ok (view.listed t q)
  pub descendants_below : (h : F.Hash) → A.descendants_of s h ≡ ok (view.below h)
  pub expired_now : (n : F.Node) → A.is_expired now n ≡ ok (view.has_expired n)

-- The version that the peer speaks, against the version 0.
abbrev pub version_code : ℤ → ℤ
version_code (negsuc n) = error_protocol_too_old
version_code (pos zero) = status_ok
version_code (pos (suc n)) = error_protocol_too_new

module _ (F : Forest) (A : Archive F) (view : View F) where
  open F use {Hash, Node, id, shape, parent_id, null_hash, equals, tree_depth, created_at}
  open view use {look, listed, below, has_expired}

  -- Parent after parent, up to a number.
  unfoldable pub forebears : ℕ → Node → List Node
  forebears zero n = []
  forebears (suc levels) n =
      if equals (parent_id n) null_hash
      then []
      else elim (look (parent_id n)) [ none ↦ [] | some p ↦ p ∷ forebears levels p ]

  abbrev pub has_known_type : Shape Hash → Bool
  has_known_type identity = true
  has_known_type (community author) = true
  has_known_type (reply author community_id) = true
  has_known_type other = false

  -- A node that the protocol knows, or that need not be looked at.
  abbrev pub is_passed : Bool → Option Node → Shape Hash → Bool
  is_passed true found sh = true
  is_passed false (some old) sh = true
  is_passed false none sh = has_known_type sh

  unfoldable pub are_passed : List Node → Bool
  are_passed [] = true
  are_passed (n ∷ ns) =
      let rest = are_passed ns in
      if is_passed (has_expired n) (look (id n)) (shape n) then rest else false

  -- The answer to each request. Two requests get none: the ancestry of an unknown node, and a
  -- negative number of leaves.
  unfoldable pub reply_to : Message Hash Node → Option (Message Hash Node)
  reply_to (version_message id major minor) = some (status_message id (version_code major))
  reply_to (list_message id node_type quantity) =
      some (response_message id (listed node_type quantity))
  reply_to (query_message id ids) = some (response_message id (nodes_of F A look ids))
  reply_to (ancestry_message id node levels) = elim (look node) [
    | none ↦ none
    | some n ↦ some (response_message id (A.sort_by tree_depth (forebears (pos_part levels) n)))
  ]
  reply_to (leaves_of_message id node (pos quantity)) = some (
      response_message id
        (last F A quantity (A.sort_by created_at (nodes_of F A look (below node)))))
  reply_to (leaves_of_message id node (negsuc n)) = none
  reply_to (subscribe_message id node) = some (status_message id status_ok)
  reply_to (unsubscribe_message id node) = some (status_message id status_ok)
  reply_to (announce_message id nodes) =
      some (status_message id (if are_passed nodes then status_ok else error_unknown_node))
  reply_to (response_message target nodes) = none
  reply_to (status_message target code) = none
  reply_to no_message = none
