-- ===== src/Conn/Writes.antt =====
-- The Send operations write the text of their message: what they put on a working transport.
use sprout_go.Base.{ℕ, suc, ◌≡◌, List, [], ◌++◌}
use sprout_go.Base.Int.{ℤ, succ_int}
use sprout_go.Base.Exec.{Result, ok}
use sprout_go.Forest.{Forest}
use sprout_go.Conn.State.{Conn, store, write, write_message_with_id}
use sprout_go.Conn.Parse.{
  Message, version_message, list_message, query_message, ancestry_message, leaves_of_message,
  response_message, subscribe_message, unsubscribe_message, status_message, announce_message,
}
use sprout_go.Conn.Send.{
  send_status, send_version_async, send_list_async, send_query_async, send_ancestry_async,
  send_leaves_of_async, send_response, subscribe_op_id_async, subscribe_op_async,
  send_subscribe_async, send_unsubscribe_async, send_announce_async, send_subscribe_by_id_async,
  send_unsubscribe_by_id_async,
}
use sprout_go.Conn.Wire.{message_text}
use sprout_go.Conn.Pending.{write_message_async-whole}

module _ (F : Forest) where
  open F use {Hash, Node}

  -- What an asynchronous operation returns and leaves behind, when it writes this message.
  abbrev pub requested : Conn Node → Message Hash Node → Result (ℕ × ℤ) × Conn Node
  requested c m = (
    ok (c.channels, c.next_message_id),
    record c {
      next_message_id = succ_int c.next_message_id;
      channels = suc c.channels;
      pending = store c.next_message_id c.channels c.pending;
      output = c.output ++ message_text F m;
    },
  )

  -- On a working transport each of the ten asynchronous operations writes its message under the next ID, makes
  -- a channel, and lets the message wait on it.
  pub send_async-writes :
      (c : Conn Node) (node_type : ℕ) (quantity : ℤ) (ids : List Hash) (h : Hash) (community : Node)
      (announced : List Node)
      → c.faults ≡ []
      → (send_version_async c ≡ requested c (version_message c.next_message_id c.major c.minor))
        × (send_list_async node_type quantity c
            ≡ requested c (list_message c.next_message_id node_type quantity))
        × (send_query_async F ids c ≡ requested c (query_message c.next_message_id ids))
        × (send_ancestry_async F h quantity c
            ≡ requested c (ancestry_message c.next_message_id h quantity))
        × (send_leaves_of_async F h quantity c
            ≡ requested c (leaves_of_message c.next_message_id h quantity))
        × (send_subscribe_async F community c
            ≡ requested c (subscribe_message c.next_message_id (F.id community)))
        × (send_unsubscribe_async F community c
            ≡ requested c (unsubscribe_message c.next_message_id (F.id community)))
        × (send_announce_async F announced c
            ≡ requested c (announce_message c.next_message_id announced))
        × (send_subscribe_by_id_async F h c ≡ requested c (subscribe_message c.next_message_id h))
        × (send_unsubscribe_by_id_async F h c
            ≡ requested c (unsubscribe_message c.next_message_id h))
  unfolding send_version_async send_list_async send_query_async send_ancestry_async
      send_leaves_of_async send_subscribe_async send_unsubscribe_async subscribe_op_async
      subscribe_op_id_async send_announce_async send_subscribe_by_id_async
      send_unsubscribe_by_id_async message_text
  send_async-writes c node_type quantity ids h community announced e = (
    write_message_async-whole _ _ _ c e,
    write_message_async-whole _ _ _ c e,
    write_message_async-whole _ _ _ c e,
    write_message_async-whole _ _ _ c e,
    write_message_async-whole _ _ _ c e,
    write_message_async-whole _ _ _ c e,
    write_message_async-whole _ _ _ c e,
    write_message_async-whole _ _ _ c e,
    write_message_async-whole _ _ _ c e,
    write_message_async-whole _ _ _ c e,
  )

  -- On a working transport SendStatus and SendResponse write their message under the ID that they
  -- answer, and change nothing else.
  pub answers-write :
      (c : Conn Node) (target code : ℤ) (nodes : List Node)
      → c.faults ≡ []
      → (send_status target code c
          ≡ (ok tt, record c { output = c.output ++ message_text F (status_message target code) }))
        × (send_response F target nodes c ≡ (
          ok tt,
          record c { output = c.output ++ message_text F (response_message target nodes) },
        ))
  unfolding send_status send_response write_message_with_id write message_text
  answers-write c target code nodes e = (rw e, rw e)
