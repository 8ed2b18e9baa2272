-- ===== src/Conn/Taken.antt =====
-- The end of a connection that has asked reads the reply.
use mathlib.Core.List.{append-nil}
use sprout_go.Base.{ℕ, ◌≡◌, ◌∙◌, sym, ap, some, List, [], ◌∷◌}
use sprout_go.Base.Int.{ℤ}
use sprout_go.Base.Exec.{Result, on_error-state}
use sprout_go.Base.Errors.{wrapped}
use sprout_go.Forest.{Forest, ForestLaws}
use sprout_go.Conn.State.{
  Conn, Reply, is_status, is_response, lookup, deliver, send_to_waiting_channel,
}
use sprout_go.Conn.Parse.{Message, response_message, status_message}
use sprout_go.Conn.Wire.{IsSendable, message_text}
use sprout_go.Conn.Dispatch.{Host, Handlers, on_conn, dispatch, read_message}
use sprout_go.Conn.Delivery.{read_message-message_text}

-- A connection by itself.
abbrev pub alone : {N : Type 0} → Host N (Conn N)
alone = record { conn = λ c. c; with_conn = λ c d. c }

module _ (F : Forest) where
  open F use {Hash, Node}

  -- A reply to a message, and what arrives on the channel of that message.
  pub data Carries (id : ℤ) : Message Hash Node → Reply Node → Type 0 where
    a_status : (code : ℤ) → Carries id (status_message id code) (is_status code)
    a_response : (nodes : List Node) → Carries id (response_message id nodes) (is_response nodes)

  module _ (laws : ForestLaws F) where
    deliver-store :
        (p : Reply Node) (id : ℤ) (ch : ℕ) (c : Conn Node)
        → lookup id c.pending ≡ some ch
        → (send_to_waiting_channel p id c).1.delivered ≡ (ch, p) ∷ c.delivered
    unfolding send_to_waiting_channel
    deliver-store p id ch c l = rw (l, deliver)

    dispatched_reply :
        (client : Handlers Hash Node (Conn Node)) (id : ℤ) (r : Message Hash Node) (p : Reply Node)
        (ch : ℕ) (c : Conn Node)
        → Carries id r p
        → lookup id c.pending ≡ some ch
        → (dispatch F alone client r c).1.delivered ≡ (ch, p) ∷ c.delivered
    unfolding dispatch on_conn
    dispatched_reply client id _ _ ch c (a_status code) l =
        ap (λ (x : Conn Node). x.delivered)
          (on_error-state (wrapped "failed sending status to waiting channel: %w")
            (send_to_waiting_channel (is_status code) id c))
        ∙ deliver-store (is_status code) id ch c l
    dispatched_reply client id _ _ ch c (a_response nodes) l =
        ap (λ (x : Conn Node). x.delivered)
          (on_error-state (wrapped "failed sending response to waiting channel: %w")
            (send_to_waiting_channel (is_response nodes) id c))
        ∙ deliver-store (is_response nodes) id ch c l

    -- The channel that waits for the message gets what the reply carries.
    pub takes_reply :
        (client : Handlers Hash Node (Conn Node)) (id : ℤ) (r : Message Hash Node) (p : Reply Node)
        (ch : ℕ) (c : Conn Node)
        → Carries id r p
        → IsSendable F r
        → lookup id c.pending ≡ some ch
        → (read_message F alone client (record c { input = message_text F r })).1.delivered
          ≡ (ch, p) ∷ c.delivered
    takes_reply client id r p ch c k s l =
        ap (λ (q : Result (Unit {0}) × Conn Node). q.1.delivered)
          (read_message-message_text F laws alone client r []
            (record c { input = message_text F r }) s (sym (append-nil _)))
        ∙ dispatched_reply client id r p ch (record c { input = [] }) k l
