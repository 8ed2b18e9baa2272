-- ===== src/Conn/Replies.antt =====
-- What a synchronous operation returns, and that it leaves nothing behind in the map of pending
-- replies. The IDs that are given out are fresh as long as the counter does not wrap around.
use sprout_go.Base.{
  ℕ, suc, ◌≡◌, ◌∙◌, ap, some, List, [], ◌∷◌, ◌++◌, arith, Text, if◌then◌else◌, Bool-cases, inl, inr,
}
use sprout_go.Base.Int.{ℤ, pos, ◌==ℤ◌, ==ℤ_iff, succ_int}
use sprout_go.Base.Exec.{Result, ok, err, Exec}
use sprout_go.Base.Errors
use sprout_go.Base.Errors.{Error, message, unsolicited, opaque, wrapped, write_failure}
use sprout_go.Conn.State.{
  is_status, is_response, Conn, lookup, delete, store, cancel, send_to_waiting_channel,
}
use sprout_go.Conn.Send.{
  Wakeup, replied, timed_out, status_ok, timeout_error, await_status, await_response,
  handle_expected_status, handle_expected_response,
}
use sprout_go.Fmt.Format.{Value, int, printf}
use sprout_go.Conn.Verbs.{Verb}
use sprout_go.Conn.State.{write_message_async}
use sprout_go.Conn.Pending.{IdsBelow, delete-store, write_message_async-whole}

-- An asynchronous operation that worked, and the state it left: its message waits on its channel.
abbrev pub HasSent : {N : Type 0} → Exec (Conn N) (ℕ × ℤ) → Conn N → ℤ → Conn N → Type 0
HasSent send c id d = (ch : ℕ) × (send c ≡ (ok (ch, id), d)) × (lookup id d.pending ≡ some ch)

abbrev pub status_outcome : {N : Type 0} → Wakeup N → Result (Unit {0})
status_outcome (replied (is_status code)) =
    if code ==ℤ status_ok then ok tt else err (Errors.status code)
status_outcome (replied (is_response nodes)) =
    err (message "got non-status struct over response channel (type %T)")
status_outcome timed_out = err timeout_error

abbrev pub response_outcome : {N : Type 0} → Wakeup N → Result (List N)
response_outcome (replied (is_response nodes)) = ok nodes
response_outcome (replied (is_status code)) =
    if code ==ℤ status_ok
    then err (message "peer responded with status OK but should have been Response message")
    else err (Errors.status code)
response_outcome timed_out = err timeout_error

module _ {N : Type 0} where
  -- A synchronous operation whose message was sent succeeds exactly on the status 0, and returns any
  -- other status as its error; after a reply as after a timeout its message is pending no more, and
  -- every other message is as it was.
  pub handle_expected_status_lem :
      (send : Exec (Conn N) (ℕ × ℤ)) (wakeup : Wakeup N) (c d : Conn N) (id : ℤ)
      → HasSent send c id d
      → ((handle_expected_status send wakeup c).0 ≡ status_outcome wakeup)
        × ((handle_expected_status send wakeup c).1.pending ≡ delete id d.pending)
  unfolding handle_expected_status await_status send_to_waiting_channel cancel
  handle_expected_status_lem send (replied (is_status code)) c d id (ch, e, w) =
      elim (Bool-cases (code ==ℤ status_ok)) [
        | inl h ↦ (rw (e, w, h), rw (e, w, h))
        | inr h ↦ (rw (e, w, h), rw (e, w, h))
      ]
  handle_expected_status_lem send (replied (is_response nodes)) c d id (ch, e, w) =
      (rw (e, w), rw (e, w))
  handle_expected_status_lem send timed_out c d id (ch, e, w) = (rw e, rw e)

  -- The same for an operation that expects nodes: it succeeds exactly on a response.
  pub handle_expected_response_lem :
      (send : Exec (Conn N) (ℕ × ℤ)) (wakeup : Wakeup N) (c d : Conn N) (id : ℤ)
      → HasSent send c id d
      → ((handle_expected_response send wakeup c).0 ≡ response_outcome wakeup)
        × ((handle_expected_response send wakeup c).1.pending ≡ delete id d.pending)
  unfolding handle_expected_response await_response send_to_waiting_channel cancel
  handle_expected_response_lem send (replied (is_status code)) c d id (ch, e, w) =
      elim (Bool-cases (code ==ℤ status_ok)) [
        | inl h ↦ (rw (e, w, h), rw (e, w, h))
        | inr h ↦ (rw (e, w, h), rw (e, w, h))
      ]
  handle_expected_response_lem send (replied (is_response nodes)) c d id (ch, e, w) =
      (rw (e, w), rw (e, w))
  handle_expected_response_lem send timed_out c d id (ch, e, w) = (rw e, rw e)

  -- What a request that nodes answer has written, is what its message has.
  pub response_request-output :
      (send : Exec (Conn N) (ℕ × ℤ)) (nodes : List N) (c d : Conn N) (id : ℤ)
      → HasSent send c id d
      → (handle_expected_response send (replied (is_response nodes)) c).1.output ≡ (send c).1.output
  unfolding handle_expected_response await_response send_to_waiting_channel
  response_request-output send nodes c d id (ch, e, w) = rw (e, w)

-- A connection whose counter has given out n IDs, whose pending messages are among them, and whose
-- transport works.
pub record HasGivenOut {N : Type 0} (n : ℕ) (c : Conn N) : Type 0 where
  pub counter : c.next_message_id ≡ pos n
  pub pending_below : IdsBelow n c.pending
  pub transport : c.faults ≡ []

module _ {N : Type 0} (verb : Verb) (format : Text) (args : List Value) where
  -- The state in which the reply is awaited.
  abbrev pub awaiting : Conn N → Conn N
  awaiting c = record c {
    next_message_id = succ_int c.next_message_id;
    channels = suc c.channels;
    pending = store c.next_message_id c.channels c.pending;
    output = c.output ++ printf format (int c.next_message_id ∷ args);
  }

  pub request_sent :
      (c : Conn N)
      → c.faults ≡ []
      → HasSent (write_message_async verb format args) c c.next_message_id (awaiting c)
  request_sent c h = (
    c.channels,
    write_message_async-whole verb format args c h,
    ground (arith, ==ℤ_iff c.next_message_id c.next_message_id),
  )

  delete-store_fresh :
      (n : ℕ) (c : Conn N)
      → HasGivenOut n c
      → delete c.next_message_id (awaiting c).pending ≡ c.pending
  delete-store_fresh n c g =
      ap (λ (i : ℤ). delete i (store i c.channels c.pending)) g.counter
      ∙ delete-store n c.channels c.pending g.pending_below

  -- A request that expects a status returns the outcome of what it was woken by: success exactly
  -- for the status 0, otherwise the status, or an error for a response or a timeout. In every case
  -- the pending messages are afterwards what they were before.
  pub status_request_lem :
      (n : ℕ) (wakeup : Wakeup N) (c : Conn N)
      → HasGivenOut n c
      → ((handle_expected_status (write_message_async verb format args) wakeup c).0
          ≡ status_outcome wakeup)
        × ((handle_expected_status (write_message_async verb format args) wakeup c).1.pending
            ≡ c.pending)
  status_request_lem n wakeup c g =
      let (outcome, left) =
        handle_expected_status_lem (write_message_async verb format args) wakeup c (awaiting c)
          c.next_message_id (request_sent c g.transport) in
      (outcome, left ∙ delete-store_fresh n c g)

  -- A request that expects nodes returns them exactly for a response; a status is returned as an
  -- error, the status 0 too, and so is a timeout. In every case the pending messages are afterwards
  -- what they were before.
  pub response_request_lem :
      (n : ℕ) (wakeup : Wakeup N) (c : Conn N)
      → HasGivenOut n c
      → ((handle_expected_response (write_message_async verb format args) wakeup c).0
          ≡ response_outcome wakeup)
        × ((handle_expected_response (write_message_async verb format args) wakeup c).1.pending
            ≡ c.pending)
  response_request_lem n wakeup c g =
      let (outcome, left) =
        handle_expected_response_lem (write_message_async verb format args) wakeup c (awaiting c)
          c.next_message_id (request_sent c g.transport) in
      (outcome, left ∙ delete-store_fresh n c g)

  -- A request that is answered with nodes returns them, and the transport works as before.
  pub response_request-answered :
      (nodes : List N) (c : Conn N)
      → c.faults ≡ []
      → let asked =
          handle_expected_response
            (write_message_async verb format args)
            (replied (is_response nodes))
            c in
        (asked.0 ≡ ok nodes) × (asked.1.faults ≡ [])
  unfolding handle_expected_response await_response send_to_waiting_channel
  response_request-answered nodes c f =
      let (ch, e, w) = request_sent c f in (rw (e, w), rw (e, w) f)

  -- A request that is answered with the status 0 succeeds, and the transport works as before.
  pub status_request-answered :
      (c : Conn N)
      → c.faults ≡ []
      → let asked =
          handle_expected_status
            (write_message_async verb format args)
            (replied (is_status status_ok))
            c in
        (asked.0 ≡ ok tt) × (asked.1.faults ≡ [])
  unfolding handle_expected_status await_status send_to_waiting_channel
  status_request-answered c f = let (ch, e, w) = request_sent c f in (rw (e, w), rw (e, w) f)

  pub response_request-wrote :
      (nodes : List N) (c : Conn N)
      → c.faults ≡ []
      → let asked =
          handle_expected_response
            (write_message_async verb format args)
            (replied (is_response nodes))
            c in
        (asked.1.next_message_id ≡ succ_int c.next_message_id)
        × (asked.1.output ≡ c.output ++ printf format (int c.next_message_id ∷ args))
  unfolding handle_expected_response await_response send_to_waiting_channel
  response_request-wrote nodes c f = let (ch, e, w) = request_sent c f in (rw (e, w), rw (e, w))

  pub status_request-wrote :
      (c : Conn N)
      → c.faults ≡ []
      → let asked =
          handle_expected_status
            (write_message_async verb format args)
            (replied (is_status status_ok))
            c in
        (asked.1.next_message_id ≡ succ_int c.next_message_id)
        × (asked.1.output ≡ c.output ++ printf format (int c.next_message_id ∷ args))
  unfolding handle_expected_status await_status send_to_waiting_channel
  status_request-wrote c f = let (ch, e, w) = request_sent c f in (rw (e, w), rw (e, w))
