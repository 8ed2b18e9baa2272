-- ===== src/Conn/Delivery.antt =====
-- From one end to the other: what one end writes is what the other end handles.
use mathlib.Core.List.{append_assoc}
use sprout_go.Base.{◌≡◌, refl, List, [], ◌∷◌, ◌++◌, length, All, Text}
use sprout_go.Base.Exec.{ok}
use sprout_go.Forest.{Forest, ForestLaws}
use sprout_go.Conn.Nodes.{fill}
use sprout_go.Conn.Parse.{Message, parse_message}
use sprout_go.Conn.Dispatch.{Host, Handlers, on_input, dispatch, read_message}
use sprout_go.Conn.Wire.{IsSendable, message_text}
use sprout_go.Conn.RoundTrip.{parse_message-message_text}

module _ (F : Forest) where
  open F use {Hash, Node}

  -- The text of messages that are written one after the other.
  unfoldable pub messages_text : List (Message Hash Node) → Text
  messages_text [] = []
  messages_text (m ∷ ms) = message_text F m ++ messages_text ms

module _ (F : Forest) (laws : ForestLaws F) where
  open F use {Hash, Node}

  -- Messages whose numbers fit their types and that are written one after the other are parsed one
  -- after the other, and nothing of what follows them is consumed, for hashes and nodes that are read
  -- back from what they are marshalled to.
  fill-messages_text :
      (ms : List (Message Hash Node)) (rest : Text)
      → All (IsSendable F) ms
      → fill (parse_message F) (length ms) (messages_text F ms ++ rest) ≡ (ok ms, rest)
  unfolding fill messages_text
  fill-messages_text [] rest h = refl
  fill-messages_text (m ∷ ms) rest (s, h) = rw (
    append_assoc (message_text F m) (messages_text F ms) rest,
    parse_message-message_text F laws m (messages_text F ms ++ rest) s,
    fill-messages_text ms rest h,
  )

  module _ {W : Type 0} (host : Host Node W) (hs : Handlers Hash Node W) where
    -- ReadMessage hands a message that was written to its handler, with what follows it as the
    -- remaining input.
    pub read_message-message_text :
        (m : Message Hash Node) (rest : Text) (w : W)
        → IsSendable F m
        → (host.conn w).input ≡ message_text F m ++ rest
        → read_message F host hs w
          ≡ dispatch F host hs m (host.with_conn (record (host.conn w) { input = rest }) w)
    unfolding read_message on_input
    read_message-message_text m rest w s e = rw (e, parse_message-message_text F laws m rest s)
