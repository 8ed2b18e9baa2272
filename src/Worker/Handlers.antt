-- ===== src/Worker/Handlers.antt =====
-- The handlers of a Worker but OnAnnounce. What is logged is left out.
use sprout_go.Base.{
  ℕ, zero, suc, ◌-◌, Option, none, some, List, [], ◌∷◌, ltb, length, drop, if◌then◌else◌, Eq,
}
use sprout_go.Base.Int.{ℤ, pos, negsuc, ltb_ℤ, pos_part}
use sprout_go.Base.Exec.{ok, Exec, pure, raise, panic, rethrow, ◌>>=◌, ◌>>◌}
use sprout_go.Base.Errors.{Error, message, wrapped}
use sprout_go.Forest.{Forest}
use sprout_go.Session.{subscribe, unsubscribe}
use sprout_go.Conn.Send.{
  send_status, send_response, status_ok, error_protocol_too_old, error_protocol_too_new,
}
use sprout_go.Worker.Store.{Archive}
use sprout_go.Worker.State.{Worker, on_wire, from_store}

-- CurrentMajor
abbrev pub current_major : ℤ
current_major = pos 0

module _ (F : Forest) (A : Archive F) where
  open F use {Hash, Node, equals, null_hash, parent_id, tree_depth, created_at}
  open A use {Store, recent, get, descendants_of, sort_by}

  -- OnVersion
  unfoldable pub on_version : ℤ → ℤ → ℤ → Exec (Worker F A) (Unit {0})
  on_version id major minor =
      if ltb_ℤ major current_major
      then rethrow (wrapped "Failed to send protocol too old message: %w")
          (on_wire F A (send_status id error_protocol_too_old))
      else if ltb_ℤ current_major major
      then rethrow (wrapped "Failed to send protocol too new message: %w")
          (on_wire F A (send_status id error_protocol_too_new))
      else rethrow (wrapped "Failed to send okay message: %w")
          (on_wire F A (send_status id status_ok))

  -- OnList
  unfoldable pub on_list : ℤ → ℕ → ℤ → Exec (Worker F A) (Unit {0})
  on_list id node_type quantity = do
    nodes ←
        rethrow (wrapped "failed listing recent nodes of type %d: %w")
          (from_store F A (λ s. recent s node_type quantity))
    on_wire F A (send_response F id nodes)

  abbrev pub cons_if_present : Option Node → List Node → List Node
  cons_if_present none ns = ns
  cons_if_present (some n) ns = n ∷ ns

  -- The loops of OnQuery and OnLeavesOf: the nodes that the store has, in the order of their IDs.
  -- The first failed look-up ends the loop.
  unfoldable pub present_nodes : (Error → Error) → List Hash → Exec (Worker F A) (List Node)
  present_nodes f [] = pure []
  present_nodes f (h ∷ hs) = do
    found ← rethrow f (from_store F A (λ s. get s h))
    rest ← present_nodes f hs
    pure (cons_if_present found rest)

  -- OnQuery
  unfoldable pub on_query : ℤ → List Hash → Exec (Worker F A) (Unit {0})
  on_query id node_ids = do
    results ← present_nodes (wrapped "failed checking for node %v in store: %w") node_ids
    on_wire F A (send_response F id results)

  -- The loop of OnAncestry, for the rounds that are left: parent after parent, up to a node with no
  -- parent or with one that the store does not have.
  unfoldable pub climb : ℕ → Node → Exec (Worker F A) (List Node)
  climb zero current = pure []
  climb (suc rounds) current = if equals (parent_id current) null_hash then pure [] else (do
    found ←
        rethrow (wrapped "couldn't look up node with id %v (parent of %v): %w")
          (from_store F A (λ s. get s (parent_id current)))
    elim found [
      | none ↦ pure []
      | some parent ↦ (do rest ← climb rounds parent; pure (parent ∷ rest))
    ])

  abbrev pub known : Option Node → Exec (Worker F A) Node
  known none = raise (message "asked for ancestry of unknown node %v")
  known (some n) = pure n

  -- OnAncestry; a negative number of levels makes no round.
  unfoldable pub on_ancestry : ℤ → Hash → ℤ → Exec (Worker F A) (Unit {0})
  on_ancestry id node_id levels = do
    found ← rethrow (wrapped "failed looking for node %v: %w") (from_store F A (λ s. get s node_id))
    current ← known found
    ancestors ← climb (pos_part levels) current
    on_wire F A (send_response F id (sort_by tree_depth ancestors))

  -- leaves[len(leaves)-quantity:], if there are more than that: with a negative quantity the slice
  -- begins behind its end, which is a run-time panic.
  unfoldable pub last_leaves : ℤ → List Node → Exec (Worker F A) (List Node)
  last_leaves (pos quantity) leaves =
      if ltb quantity (length leaves)
      then pure (drop (length leaves - quantity) leaves)
      else pure leaves
  last_leaves (negsuc n) leaves = panic

  -- OnLeavesOf
  unfoldable pub on_leaves_of : ℤ → Hash → ℤ → Exec (Worker F A) (Unit {0})
  on_leaves_of id node_id quantity = do
    leaf_ids ←
        rethrow (wrapped "failed finding descendants of %s: %w")
          (from_store F A (λ s. descendants_of s node_id))
    leaves ← present_nodes (wrapped "failed finding %s locally: %w") leaf_ids
    recent_leaves ← last_leaves quantity (sort_by created_at leaves)
    on_wire F A (send_response F id recent_leaves)

  -- c.Subscribe, of the hash that was made for this message and so has a new address
  unfoldable pub subscribe_new : Hash → Exec (Worker F A) (Unit {0})
  subscribe_new h w =
      (ok tt, record w { session = subscribe w.addresses h w.session; addresses = suc w.addresses })

  -- OnSubscribe
  unfoldable pub on_subscribe : ℤ → Hash → Exec (Worker F A) (Unit {0})
  on_subscribe id node_id = rethrow (wrapped "Error during subscribe: %w") do
    subscribe_new node_id
    rethrow (wrapped "Failed to send okay status: %w") (on_wire F A (send_status id status_ok))

  module _ ⦃e : Eq Hash⦄ where
    unfoldable pub unsubscribe_from : Hash → Exec (Worker F A) (Unit {0})
    unsubscribe_from h w = (ok tt, record w { session = unsubscribe h w.session })

    -- OnUnsubscribe
    unfoldable pub on_unsubscribe : ℤ → Hash → Exec (Worker F A) (Unit {0})
    on_unsubscribe id node_id = rethrow (wrapped "Error during unsubscribe: %w") do
      unsubscribe_from node_id
      rethrow (wrapped "Failed to send okay status: %w") (on_wire F A (send_status id status_ok))
