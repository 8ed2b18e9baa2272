-- ===== src/Worker/Exchange.antt =====
-- A connection that asks, and a worker at the other end that answers: the way of a query and of its
-- response through both ends, and what the worker does with a reply that nothing waits for.
use sprout_go.Base.{
  ℕ, suc, ◌≤◌, ◌≡◌, ◌∙◌, refl, sym, ap, Bool, true, false, Option, some, none, List, [], ◌∷◌, ◌++◌,
  length, All, arith, Text, if◌then◌else◌, Eq,
}
use mathlib.Core.List.{append-nil}
use sprout_go.Base.Int.{ℤ, FitsInt, ==ℤ_iff}
use sprout_go.Base.Exec.{Result, ok, err, on_error}
use sprout_go.Base.Errors.{wrapped, unsolicited}
use sprout_go.Forest.{Forest, ForestLaws}
use sprout_go.Conn.State.{Conn, is_response, lookup, deliver, send_to_waiting_channel}
use sprout_go.Conn.Dispatch.{Handlers, on_conn, dispatch, read_message}
use sprout_go.Conn.Parse.{query_message, response_message, status_message}
use sprout_go.Conn.Send.{send_query_async}
use sprout_go.Conn.Wire.{IsSendable, FitsSlice, message_text}
use sprout_go.Conn.Writes.{requested}
use sprout_go.Conn.Pending.{write_message_async-whole}
use sprout_go.Conn.Taken.{alone, a_response, takes_reply}
use sprout_go.Conn.Delivery.{read_message-message_text}
use sprout_go.Worker.Store.{Archive}
use sprout_go.Worker.State.{Worker, host, with_input}
use sprout_go.Worker.Answers.{responded, nodes_of, on_query-answers}
use sprout_go.Worker.Run.{handlers, after_read, done, run}

module _ (F : Forest) (laws : ForestLaws F) (A : Archive F) ⦃e : Eq F.Hash⦄ where
  open F use {Hash, Node}

  -- The worker reads a query and answers it.
  worker_reads_query :
      (id : ℤ) (look : Hash → Option Node) (hs : List Hash) (rest : Text) (w : Worker F A)
      → IsSendable F (query_message id hs)
      → All (λ h. A.get w.store h ≡ ok (look h)) hs
      → w.conn.faults ≡ []
      → w.conn.input ≡ message_text F (query_message id hs) ++ rest
      → read_message F (host F A) (handlers F A) w
        ≡ (ok tt, responded F A id (nodes_of F A look hs) (with_input F A rest w))
  unfolding dispatch
  worker_reads_query id look hs rest w s a f i =
      read_message-message_text F laws (host F A) (handlers F A) (query_message id hs) rest w s i
      ∙ ap (on_error (wrapped "error running hook for %s: %w"))
          (on_query-answers F A id look hs (with_input F A rest w) a f)

  send_query_async-requested :
      (hs : List Hash) (c : Conn Node)
      → c.faults ≡ []
      → send_query_async F hs c ≡ requested F c (query_message c.next_message_id hs)
  unfolding send_query_async message_text
  send_query_async-requested hs c f = write_message_async-whole _ _ _ c f

  worker_answers_query :
      (id : ℤ) (look : Hash → Option Node) (hs : List Hash) (w : Worker F A)
      → IsSendable F (query_message id hs)
      → All (λ h. A.get w.store h ≡ ok (look h)) hs
      → w.conn.faults ≡ []
      → (read_message F
          (host F A)
          (handlers F A)
          (with_input F A (message_text F (query_message id hs)) w)).1.conn.output
        ≡ w.conn.output ++ message_text F (response_message id (nodes_of F A look hs))
  worker_answers_query id look hs w s a f =
      let v = with_input F A (message_text F (query_message id hs)) w in
      ap (λ (p : Result (Unit {0}) × Worker F A). p.1.conn.output)
        (worker_reads_query id look hs [] v s a f (sym (append-nil _)))

  length-nodes_of :
      (look : Hash → Option Node) (hs : List Hash) → length (nodes_of F A look hs) ≤ length hs
  unfolding nodes_of
  length-nodes_of look [] = omega arith
  length-nodes_of look (h ∷ hs) = ground (arith, length-nodes_of look hs)

  -- Over a working transport in both directions a query is answered: when the worker at the other
  -- end has read it, and the response is read back, the channel that was made for the query gets
  -- the nodes that the store of the worker has, in the order of their IDs. The store answers each
  -- look-up, and hashes and nodes are read back from what they are marshalled to.
  query_is_answered :
      (client : Handlers Hash Node (Conn Node)) (look : Hash → Option Node) (hs : List Hash)
      (c : Conn Node) (w : Worker F A)
      → FitsInt c.next_message_id
      → FitsSlice 16 hs
      → All (λ h. A.get w.store h ≡ ok (look h)) hs
      → c.faults ≡ []
      → c.output ≡ []
      → w.conn.faults ≡ []
      → w.conn.output ≡ []
      → let asked = (send_query_async F hs c).1 in
        let answered =
          (read_message F (host F A) (handlers F A) (with_input F A asked.output w)).1 in
        (read_message F alone client (record asked { input = answered.conn.output })).1.delivered
        ≡ (c.channels, is_response (nodes_of F A look hs)) ∷ c.delivered
  query_is_answered client look hs c w i s a cf co wf wo =
      let id = c.next_message_id in
      let sizes : FitsSlice 8 hs = omega (arith, s) in
      let sizes' : FitsSlice 16 (nodes_of F A look hs) =
        omega (arith, s, length-nodes_of look hs) in
      rw
        (
          send_query_async-requested hs c cf,
          co,
          worker_answers_query id look hs w (i, sizes) a wf,
          wo,
        )
        (takes_reply F laws client id (response_message id (nodes_of F A look hs))
          (is_response (nodes_of F A look hs)) c.channels
          (record (requested F c (query_message id hs)).1 {
            output = message_text F (query_message id hs);
          })
          (a_response (nodes_of F A look hs)) (i, sizes') (rw ((==ℤ_iff id id).1 refl)))

  read_unsolicited :
      (id code : ℤ) (rest : Text) (w : Worker F A)
      → IsSendable F (status_message id code)
      → w.conn.input ≡ message_text F (status_message id code) ++ rest
      → lookup id w.conn.pending ≡ none
      → read_message F (host F A) (handlers F A) w ≡ (
        err (wrapped "failed sending status to waiting channel: %w" (unsolicited id)),
        with_input F A rest w,
      )
  unfolding dispatch on_conn send_to_waiting_channel
  read_unsolicited id code rest w s i l =
      read_message-message_text F laws (host F A) (handlers F A) (status_message id code) rest w s i
      ∙ rw (l, deliver)

  stop_or_go :
      {B : Type 0} (b : Bool) (stop go : B)
      → elim b [ true ↦ stop | false ↦ go ] ≡ (if b then stop else go)
  stop_or_go true stop go = refl
  stop_or_go false stop go = refl

  -- A status that no message waits for does not end Run: it is ignored, and the next round goes on
  -- with what follows it, unless Done is closed.
  run-ignores_unsolicited :
      (rounds : ℕ) (closed : ℕ → Bool) (id code : ℤ) (rest : Text) (w : Worker F A)
      → IsSendable F (status_message id code)
      → w.conn.input ≡ message_text F (status_message id code) ++ rest
      → lookup id w.conn.pending ≡ none
      → run F A (suc rounds) closed w ≡ (
          if closed rounds
          then (some done, with_input F A rest w)
          else run F A rounds closed (with_input F A rest w))
  unfolding run
  run-ignores_unsolicited rounds closed id code rest w s i l =
      ap
        (λ (p : Result (Unit {0}) × Worker F A). elim (after_read F A p.0) [
          | some ending ↦ (some ending, p.1)
          | none ↦ elim (closed rounds) [
            | true ↦ (some done, p.1)
            | false ↦ run F A rounds closed p.1
          ]
        ])
        (read_unsolicited id code rest w s i l)
      ∙ stop_or_go (closed rounds) (some done, with_input F A rest w)
          (run F A rounds closed (with_input F A rest w))
