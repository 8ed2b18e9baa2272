-- ===== src/Worker/Answered.antt =====
-- Any request, from the operation that sends it to the channel on which its answer arrives.
use sprout_go.Base.{ℕ, ◌≡◌, ◌∙◌, refl, sym, ap, some, [], ◌∷◌, Eq}
use mathlib.Core.List.{append-nil}
use sprout_go.Base.Int.{ℤ, ==ℤ_iff}
use sprout_go.Base.Exec.{Exec}
use sprout_go.Forest.{Forest, ForestLaws}
use sprout_go.Conn.State.{Conn, Reply}
use sprout_go.Conn.Parse.{Message}
use sprout_go.Conn.Wire.{IsSendable, message_text}
use sprout_go.Conn.Dispatch.{Handlers, read_message}
use sprout_go.Conn.Writes.{requested}
use sprout_go.Conn.Taken.{alone, Carries, takes_reply}
use sprout_go.Worker.Store.{Archive}
use sprout_go.Worker.State.{Worker, host, with_input}
use sprout_go.Worker.Run.{handlers}
use sprout_go.Worker.Protocol.{View, IsAnswering, reply_to}
use sprout_go.Worker.Dialogue.{read_message-replies}

module _ (F : Forest) (laws : ForestLaws F) (A : Archive F) ⦃e : Eq F.Hash⦄ where
  open F use {Hash, Node}

  -- The output of the worker that has read a request.
  output_of_reply :
      (w : Worker F A) (view : View F) (m r : Message Hash Node)
      → IsAnswering A view w.store w.now
      → w.conn.faults ≡ []
      → w.conn.output ≡ []
      → IsSendable F m
      → reply_to F A view m ≡ some r
      → (read_message F
          (host F A)
          (handlers F A)
          (with_input F A (message_text F m) w)).1.conn.output
        ≡ message_text F r
  output_of_reply w view m r a f o s q =
      ap (λ (c : Conn Node). c.output)
        (read_message-replies laws (with_input F A (message_text F m) w) view m r [] a f s
          (sym (append-nil _)) q).conn_replied
      ∙ rw o

  -- Over a working transport in both directions, on which nothing else was written: an operation
  -- sends a request under the next message ID, and makes a channel for it. The worker at the other
  -- end, whose store answers, reads the request; if the request is owed a reply, and both fit their
  -- types, then the reply arrives on that channel when it is read back.
  pub request_is_answered :
      (client : Handlers Hash Node (Conn Node)) (send : Exec (Conn Node) (ℕ × ℤ)) (c : Conn Node)
      (w : Worker F A) (view : View F) (m r : Message Hash Node) (p : Reply Node)
      → send c ≡ requested F c m
      → c.output ≡ []
      → IsAnswering A view w.store w.now
      → w.conn.faults ≡ []
      → w.conn.output ≡ []
      → IsSendable F m
      → IsSendable F r
      → reply_to F A view m ≡ some r
      → Carries F c.next_message_id r p
      → let asked = (send c).1 in
        let answered =
          (read_message F (host F A) (handlers F A) (with_input F A asked.output w)).1 in
        (read_message F alone client (record asked { input = answered.conn.output })).1.delivered
        ≡ (c.channels, p) ∷ c.delivered
  request_is_answered client send c w view m r p sent o a f wo s s' q k =
      rw (sent, o, output_of_reply w view m r a f wo s q)
        (takes_reply F laws client c.next_message_id r p c.channels
          (record (requested F c m).1 { output = message_text F m }) k s'
          (rw ((==ℤ_iff c.next_message_id c.next_message_id).1 refl)))
