-- ===== src/Conn/Send.antt =====
-- The Send operations of Conn. The asynchronous ones write a message and return the channel of its
-- reply with its ID. The synchronous ones then wait, for the reply or for their timeout.
use sprout_go.Base.{ℕ, List, [], ◌∷◌, ◌++◌, length, if◌then◌else◌, Text, codes}
use sprout_go.Base.Int.{ℤ, pos, ◌==ℤ◌}
use sprout_go.Base.Exec.{Exec, pure, raise, rethrow, ◌>>=◌, ◌>>◌}
use sprout_go.Base.Errors.{Error, message, opaque, wrapped}
use sprout_go.Base.Errors
use sprout_go.Fmt.Format.{Value, int, uint, string}
use sprout_go.Forest.{Forest}
use sprout_go.Conn.Verbs.{
  Verb, version, list, query, ancestry, leaves_of, subscribe, unsubscribe, announce, response,
  status, verb_text, formats,
}
use sprout_go.Conn.State.{
  Conn, Reply, is_status, is_response, write_message_with_id, write_message_async, cancel,
  send_to_waiting_channel,
}
use sprout_go.Conn.Nodes.{stringify_node_ids, stringify_nodes}

abbrev pub status_ok : ℤ
status_ok = pos 0

abbrev pub error_malformed : ℤ
error_malformed = pos 1

abbrev pub error_protocol_too_old : ℤ
error_protocol_too_old = pos 2

abbrev pub error_protocol_too_new : ℤ
error_protocol_too_new = pos 3

abbrev pub error_unknown_node : ℤ
error_unknown_node = pos 4

-- What ends a wait: a reply that the reader of the connection passes on, or the timeout.
pub data Wakeup (N : Type 0) : Type 0 where
  replied : Reply N → Wakeup N
  timed_out : Wakeup N

-- string(op) + formats[op]
abbrev pub op_format : Verb → Text
op_format op = verb_text op ++ formats op

abbrev pub timeout_error : Error
timeout_error = message "timed out waiting for response to %s message"

abbrev pub sending_error : Error → Error
sending_error = wrapped "failed sending %s message: %w"

module _ {N : Type 0} where
  -- A reply arrives because the reader has run sendToWaitingChannel for this message.
  abbrev pub status_of_reply : Reply N → Exec (Conn N) (Unit {0})
  status_of_reply (is_status code) =
      if code ==ℤ status_ok then pure tt else raise (Errors.status code)
  status_of_reply (is_response nodes) =
      raise (message "got non-status struct over response channel (type %T)")

  -- The `select` of handleExpectedStatus.
  unfoldable pub await_status : Wakeup N → ℤ → Exec (Conn N) (Unit {0})
  await_status (replied r) id = do send_to_waiting_channel r id; status_of_reply r
  await_status timed_out id = do cancel id; raise timeout_error

  -- handleExpectedStatus, of the call of an asynchronous operation
  unfoldable pub handle_expected_status :
      Exec (Conn N) (ℕ × ℤ) → Wakeup N → Exec (Conn N) (Unit {0})
  handle_expected_status send wakeup = do
    sent ← rethrow sending_error send
    await_status wakeup sent.1

  abbrev pub nodes_of_reply : Reply N → Exec (Conn N) (List N)
  nodes_of_reply (is_response nodes) = pure nodes
  nodes_of_reply (is_status code) =
      if code ==ℤ status_ok
      then raise (message "peer responded with status OK but should have been Response message")
      else raise (Errors.status code)

  -- The `select` of handleExpectedResponse.
  unfoldable pub await_response : Wakeup N → ℤ → Exec (Conn N) (List N)
  await_response (replied r) id = do send_to_waiting_channel r id; nodes_of_reply r
  await_response timed_out id = do cancel id; raise timeout_error

  -- handleExpectedResponse, of the call of an asynchronous operation
  unfoldable pub handle_expected_response :
      Exec (Conn N) (ℕ × ℤ) → Wakeup N → Exec (Conn N) (List N)
  handle_expected_response send wakeup = do
    sent ← rethrow sending_error send
    await_response wakeup sent.1

  -- SendStatus
  unfoldable pub send_status : ℤ → ℤ → Exec (Conn N) (Unit {0})
  send_status target code = do
    write_message_with_id target status (op_format status) (int code ∷ [])
    pure tt

  unfoldable pub send_version_async : Exec (Conn N) (ℕ × ℤ)
  send_version_async c =
      write_message_async version (op_format version) (int c.major ∷ int c.minor ∷ []) c

  unfoldable pub send_version : Wakeup N → Exec (Conn N) (Unit {0})
  send_version = handle_expected_status send_version_async

  unfoldable pub send_list_async : ℕ → ℤ → Exec (Conn N) (ℕ × ℤ)
  send_list_async node_type quantity =
      write_message_async list (op_format list) (uint node_type ∷ int quantity ∷ [])

  unfoldable pub send_list : ℕ → ℤ → Wakeup N → Exec (Conn N) (List N)
  send_list node_type quantity = handle_expected_response (send_list_async node_type quantity)

module _ (F : Forest) where
  open F use {Hash, Node, hash_string}

  abbrev pub count {ℓ} : {A : Type ℓ} → List A → Value
  count xs = int (pos (length xs))

  unfoldable pub send_query_async : List Hash → Exec (Conn Node) (ℕ × ℤ)
  send_query_async ids =
      write_message_async query (op_format query ++ codes "%s")
        (count ids ∷ string (stringify_node_ids F ids) ∷ [])

  unfoldable pub send_query : List Hash → Wakeup Node → Exec (Conn Node) (List Node)
  send_query ids = handle_expected_response (send_query_async ids)

  unfoldable pub send_ancestry_async : Hash → ℤ → Exec (Conn Node) (ℕ × ℤ)
  send_ancestry_async node levels =
      write_message_async ancestry (op_format ancestry)
        (string (hash_string node) ∷ int levels ∷ [])

  unfoldable pub send_ancestry : Hash → ℤ → Wakeup Node → Exec (Conn Node) (List Node)
  send_ancestry node levels = handle_expected_response (send_ancestry_async node levels)

  unfoldable pub send_leaves_of_async : Hash → ℤ → Exec (Conn Node) (ℕ × ℤ)
  send_leaves_of_async node quantity =
      write_message_async leaves_of (op_format leaves_of)
        (string (hash_string node) ∷ int quantity ∷ [])

  unfoldable pub send_leaves_of : Hash → ℤ → Wakeup Node → Exec (Conn Node) (List Node)
  send_leaves_of node quantity = handle_expected_response (send_leaves_of_async node quantity)

  unfoldable pub send_response : ℤ → List Node → Exec (Conn Node) (Unit {0})
  send_response target nodes = do
    write_message_with_id target response (op_format response ++ codes "%s")
        (count nodes ∷ string (stringify_nodes F nodes) ∷ [])
    pure tt

  -- subscribeOpIDAsync and subscribeOpID, for the verbs subscribe and unsubscribe
  unfoldable pub subscribe_op_id_async : Verb → Hash → Exec (Conn Node) (ℕ × ℤ)
  subscribe_op_id_async op community =
      write_message_async op (op_format op) (string (hash_string community) ∷ [])

  unfoldable pub subscribe_op_id : Verb → Hash → Wakeup Node → Exec (Conn Node) (Unit {0})
  subscribe_op_id op community = handle_expected_status (subscribe_op_id_async op community)

  -- subscribeOp and subscribeOpAsync, of a community node
  unfoldable pub subscribe_op_async : Verb → Node → Exec (Conn Node) (ℕ × ℤ)
  subscribe_op_async op community = subscribe_op_id_async op (F.id community)

  unfoldable pub subscribe_op : Verb → Node → Wakeup Node → Exec (Conn Node) (Unit {0})
  subscribe_op op community = subscribe_op_id op (F.id community)

  unfoldable pub send_subscribe_async : Node → Exec (Conn Node) (ℕ × ℤ)
  send_subscribe_async = subscribe_op_async subscribe

  unfoldable pub send_unsubscribe_async : Node → Exec (Conn Node) (ℕ × ℤ)
  send_unsubscribe_async = subscribe_op_async unsubscribe

  unfoldable pub send_subscribe_by_id_async : Hash → Exec (Conn Node) (ℕ × ℤ)
  send_subscribe_by_id_async = subscribe_op_id_async subscribe

  unfoldable pub send_unsubscribe_by_id_async : Hash → Exec (Conn Node) (ℕ × ℤ)
  send_unsubscribe_by_id_async = subscribe_op_id_async unsubscribe

  unfoldable pub send_subscribe : Node → Wakeup Node → Exec (Conn Node) (Unit {0})
  send_subscribe = subscribe_op subscribe

  unfoldable pub send_unsubscribe : Node → Wakeup Node → Exec (Conn Node) (Unit {0})
  send_unsubscribe = subscribe_op unsubscribe

  -- SendSubscribeByID and SendUnsubscribeByID
  unfoldable pub send_subscribe_by_id : Hash → Wakeup Node → Exec (Conn Node) (Unit {0})
  send_subscribe_by_id = subscribe_op_id subscribe

  unfoldable pub send_unsubscribe_by_id : Hash → Wakeup Node → Exec (Conn Node) (Unit {0})
  send_unsubscribe_by_id = subscribe_op_id unsubscribe

  unfoldable pub send_announce_async : List Node → Exec (Conn Node) (ℕ × ℤ)
  send_announce_async nodes =
      write_message_async announce (op_format announce ++ codes "%s")
        (count nodes ∷ string (stringify_nodes F nodes) ∷ [])

  unfoldable pub send_announce : List Node → Wakeup Node → Exec (Conn Node) (Unit {0})
  send_announce nodes = handle_expected_status (send_announce_async nodes)
