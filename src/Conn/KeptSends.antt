-- ===== src/Conn/KeptSends.antt =====
-- The Send operations keep what holds of a connection, if their parts do.
use sprout_go.Base.{ℕ, List}
use sprout_go.Base.Int.{ℤ}
use sprout_go.Base.Exec.{ok}
use sprout_go.Base.Preserves.{Preserves, Preserves-lift, Preserves-then}
use sprout_go.Forest.{Forest}
use sprout_go.Conn.State.{Conn}
use sprout_go.Conn.Send.{
  Wakeup, send_list, send_list_async, send_query, send_query_async, send_ancestry,
  send_ancestry_async, send_leaves_of, send_leaves_of_async, send_response, subscribe_op_id,
  subscribe_op_id_async, subscribe_op, send_subscribe, send_announce, send_announce_async,
}
use sprout_go.Conn.Kept.{
  IsKeptByWrites, IsKeptByReplies, IsKeptByRequests, write_message_with_id-Preserves,
  write_message_async-Preserves, handle_expected_status-Preserves,
  handle_expected_response-Preserves,
}

module _ (F : Forest) (Q : Conn F.Node → Type 0) (written : IsKeptByWrites Q) where
  open F use {Hash, Node}

  pub send_response-Preserves :
      (target : ℤ) (nodes : List Node) → Preserves Q (send_response F target nodes)
  unfolding send_response
  send_response-Preserves target nodes =
      Preserves-then Q (write_message_with_id-Preserves Q written target _ _ _)
        (Preserves-lift Q (ok tt))

  module _ (replied : IsKeptByReplies Q) (requested : IsKeptByRequests Q) where
    pub send_list-Preserves :
        (node_type : ℕ) (quantity : ℤ) (k : Wakeup Node)
        → Preserves Q (send_list node_type quantity k)
    unfolding send_list send_list_async
    send_list-Preserves node_type quantity k =
        handle_expected_response-Preserves Q replied requested k
          (write_message_async-Preserves Q written requested _ _ _)

    pub send_query-Preserves : (hs : List Hash) (k : Wakeup Node) → Preserves Q (send_query F hs k)
    unfolding send_query send_query_async
    send_query-Preserves hs k =
        handle_expected_response-Preserves Q replied requested k
          (write_message_async-Preserves Q written requested _ _ _)

    pub send_ancestry-Preserves :
        (h : Hash) (levels : ℤ) (k : Wakeup Node) → Preserves Q (send_ancestry F h levels k)
    unfolding send_ancestry send_ancestry_async
    send_ancestry-Preserves h levels k =
        handle_expected_response-Preserves Q replied requested k
          (write_message_async-Preserves Q written requested _ _ _)

    pub send_leaves_of-Preserves :
        (h : Hash) (quantity : ℤ) (k : Wakeup Node) → Preserves Q (send_leaves_of F h quantity k)
    unfolding send_leaves_of send_leaves_of_async
    send_leaves_of-Preserves h quantity k =
        handle_expected_response-Preserves Q replied requested k
          (write_message_async-Preserves Q written requested _ _ _)

    pub send_announce-Preserves :
        (ns : List Node) (k : Wakeup Node) → Preserves Q (send_announce F ns k)
    unfolding send_announce send_announce_async
    send_announce-Preserves ns k =
        handle_expected_status-Preserves Q replied requested k
          (write_message_async-Preserves Q written requested _ _ _)

    pub send_subscribe-Preserves : (n : Node) (k : Wakeup Node) → Preserves Q (send_subscribe F n k)
    unfolding send_subscribe subscribe_op subscribe_op_id subscribe_op_id_async
    send_subscribe-Preserves n k =
        handle_expected_status-Preserves Q replied requested k
          (write_message_async-Preserves Q written requested _ _ _)
