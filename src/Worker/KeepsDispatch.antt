-- ===== src/Worker/KeepsDispatch.antt =====
-- ReadMessage of a worker keeps what holds of its connection, if writes, replies and reads do. It
-- leaves the store.
use sprout_go.Base.{ℕ, Eq}
use sprout_go.Base.Exec.{ok}
use sprout_go.Base.Preserves.{Preserves-lift, Preserves-bind, Preserves-rethrow}
use sprout_go.Forest.{Forest}
use sprout_go.Session.{Session}
use sprout_go.Conn.State.{Conn}
use sprout_go.Conn.Parse.{
  Message, version_message, list_message, query_message, ancestry_message, leaves_of_message,
  response_message, subscribe_message, unsubscribe_message, status_message, announce_message,
  no_message, parse_message,
}
use sprout_go.Conn.Dispatch.{dispatch, read_message, on_input}
use sprout_go.Conn.Kept.{
  IsKeptByWrites, IsKeptByReplies, IsKeptByReads, send_to_waiting_channel-Preserves,
}
use sprout_go.Worker.Store.{Archive}
use sprout_go.Worker.State.{host, on_wire}
use sprout_go.Worker.Run.{handlers}
use sprout_go.Worker.Keeps.{IsKeptBySubscribe, IsKeptByUnsubscribe, Keeps, on_wire-Keeps}
use sprout_go.Worker.KeepsHandlers.{
  on_version-Keeps, on_list-Keeps, on_query-Keeps, on_ancestry-Keeps, on_leaves_of-Keeps,
  on_subscribe-Keeps, on_unsubscribe-Keeps, on_announce-Keeps,
}

module _ {F : Forest} {A : Archive F} ⦃e : Eq F.Hash⦄ (Q : Conn F.Node → Type 0)
    (P : A.Store → Type 0) (R : Session F.Hash → ℕ → Type 0) (written : IsKeptByWrites Q)
    (replied : IsKeptByReplies Q) (subscribed : IsKeptBySubscribe F.Hash R)
    (unsubscribed : IsKeptByUnsubscribe F.Hash R) where
  open F use {Hash, Node}

  pub dispatch-Keeps :
      (m : Message Hash Node) → Keeps Q P R (dispatch F (host F A) (handlers F A) m)
  unfolding dispatch on_wire
  dispatch-Keeps (version_message id major minor) =
      Preserves-rethrow _ _ (on_version-Keeps Q P R written id major minor)
  dispatch-Keeps (list_message id node_type quantity) =
      Preserves-rethrow _ _ (on_list-Keeps Q P R written id node_type quantity)
  dispatch-Keeps (query_message id ids) =
      Preserves-rethrow _ _ (on_query-Keeps Q P R written id ids)
  dispatch-Keeps (ancestry_message id node levels) =
      Preserves-rethrow _ _ (on_ancestry-Keeps Q P R written id node levels)
  dispatch-Keeps (leaves_of_message id node quantity) =
      Preserves-rethrow _ _ (on_leaves_of-Keeps Q P R written id node quantity)
  dispatch-Keeps (response_message target nodes) =
      Preserves-rethrow _ _
        (on_wire-Keeps Q P R (send_to_waiting_channel-Preserves Q replied _ target))
  dispatch-Keeps (subscribe_message id node) =
      Preserves-rethrow _ _ (on_subscribe-Keeps Q P R written subscribed id node)
  dispatch-Keeps (unsubscribe_message id node) =
      Preserves-rethrow _ _ (on_unsubscribe-Keeps Q P R written unsubscribed id node)
  dispatch-Keeps (status_message target code) =
      Preserves-rethrow _ _
        (on_wire-Keeps Q P R (send_to_waiting_channel-Preserves Q replied _ target))
  dispatch-Keeps (announce_message id nodes) =
      Preserves-rethrow _ _ (on_announce-Keeps Q P R written id nodes)
  dispatch-Keeps no_message = Preserves-lift _ (ok tt)

  module _ (read : IsKeptByReads Q) where
    pub read_message-Keeps : Keeps Q P R (read_message F (host F A) (handlers F A))
    unfolding read_message on_input
    read_message-Keeps =
        Preserves-bind _
          (record {
            preserves = λ w (q, p, r). (read.read w.conn (parse_message F w.conn.input).1 q, p, r);
          })
          dispatch-Keeps
