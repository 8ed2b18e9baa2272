-- ===== src/Conn/Kept.antt =====
-- What holds of a connection stays true under its operations, if it stays true under the few
-- changes that they are made of.
use sprout_go.Base.{
  ℕ, suc, ◌≡◌, ◌++◌, Option, Option-cases, none, some, inl, inr, List, [], ◌∷◌, Text,
}
use sprout_go.Base.Int.{ℤ, ◌==ℤ◌, succ_int}
use sprout_go.Base.Exec.{ok, Exec, pure}
use sprout_go.Base.Preserves.{
  Preserves, Preserves-lift, continue-Preserves, Preserves-bind, Preserves-then, Preserves-rethrow,
  Preserves-if,
}
use sprout_go.Fmt.Format.{Value}
use sprout_go.Conn.Verbs.{Verb}
use sprout_go.Conn.State.{
  Conn, Reply, is_status, is_response, lookup, delete, store, write_as, write, get_next_message_id,
  write_message_with_id, await_reply, write_message_async, cancel, deliver, send_to_waiting_channel,
}
use sprout_go.Conn.Send.{
  Wakeup, replied, timed_out, status_of_reply, nodes_of_reply, await_status, await_response,
  handle_expected_status, handle_expected_response, status_ok, send_status,
}

-- Kept by writes.
pub record IsKeptByWrites {N : Type 0} (Q : Conn N → Type 0) : Type 0 where
  pub written :
      (c : Conn N) (output : Text) (faults : List (Option ℕ))
      → Q c
      → Q (record c { output = output; faults = faults })

-- Kept when a reply is passed on.
pub record IsKeptByReplies {N : Type 0} (Q : Conn N → Type 0) : Type 0 where
  pub delivered :
      (c : Conn N) (id : ℤ) (ch : ℕ) (r : Reply N)
      → lookup id c.pending ≡ some ch
      → Q c
      → Q (record c { pending = delete id c.pending; delivered = (ch, r) ∷ c.delivered })

-- Kept when a message gets its ID and its channel, and when it is cancelled.
pub record IsKeptByRequests {N : Type 0} (Q : Conn N → Type 0) : Type 0 where
  pub registered :
      (c : Conn N)
      → Q c
      → Q (record c {
        next_message_id = succ_int c.next_message_id;
        channels = suc c.channels;
        pending = store c.next_message_id c.channels c.pending;
      })
  pub cancelled : (c : Conn N) (id : ℤ) → Q c → Q (record c { pending = delete id c.pending })

-- Kept when input is read.
pub record IsKeptByReads {N : Type 0} (Q : Conn N → Type 0) : Type 0 where
  pub read : (c : Conn N) (rest : Text) → Q c → Q (record c { input = rest })

module _ {N : Type 0} (Q : Conn N → Type 0) where
  module _ (kept : IsKeptByWrites Q) where
    write_as-kept : (fs : List (Option ℕ)) (t : Text) (c : Conn N) → Q c → Q (write_as fs t c).1
    write_as-kept [] t c h = kept.written c (c.output ++ t) c.faults h
    write_as-kept (none ∷ fs) t c h = kept.written c (c.output ++ t) fs h
    write_as-kept (some n ∷ fs) t c h = kept.written c _ fs h

    pub write_message_with_id-Preserves :
        (id : ℤ) (verb : Verb) (format : Text) (args : List Value)
        → Preserves Q (write_message_with_id id verb format args)
    unfolding write_message_with_id write
    write_message_with_id-Preserves id verb format args = Preserves-rethrow Q _ (
        Preserves-then Q {m = write _} (record { preserves = λ c h. write_as-kept c.faults _ c h })
          (Preserves-lift Q (ok id)))

    pub send_status-Preserves : (target code : ℤ) → Preserves Q (send_status target code)
    unfolding send_status
    send_status-Preserves target code =
        Preserves-then Q (write_message_with_id-Preserves target _ _ _) (Preserves-lift Q (ok tt))

  module _ (kept : IsKeptByReplies Q) where
    pub send_to_waiting_channel-Preserves :
        (r : Reply N) (id : ℤ) → Preserves Q (send_to_waiting_channel r id)
    unfolding send_to_waiting_channel
    send_to_waiting_channel-Preserves r id = record {
      preserves = λ c h. elim (Option-cases (lookup id c.pending)) [
        | inl e ↦ rw (e, deliver) h
        | inr (ch, e) ↦ rw (e, deliver) (kept.delivered c id ch r e h)
      ];
    }

    status_of_reply-Preserves : (r : Reply N) → Preserves Q (status_of_reply r)
    status_of_reply-Preserves (is_status code) =
        Preserves-if Q (code ==ℤ status_ok) (Preserves-lift Q _) (Preserves-lift Q _)
    status_of_reply-Preserves (is_response nodes) = Preserves-lift Q _

    nodes_of_reply-Preserves : (r : Reply N) → Preserves Q (nodes_of_reply r)
    nodes_of_reply-Preserves (is_status code) =
        Preserves-if Q (code ==ℤ status_ok) (Preserves-lift Q _) (Preserves-lift Q _)
    nodes_of_reply-Preserves (is_response nodes) = Preserves-lift Q _

    module _ (kept' : IsKeptByRequests Q) where
      cancel-Preserves : (id : ℤ) → Preserves Q (cancel id)
      unfolding cancel
      cancel-Preserves id = record { preserves = λ c h. kept'.cancelled c id h }

      await_status-Preserves : (k : Wakeup N) (id : ℤ) → Preserves Q (await_status k id)
      unfolding await_status
      await_status-Preserves (replied r) id =
          Preserves-then Q (send_to_waiting_channel-Preserves r id) (status_of_reply-Preserves r)
      await_status-Preserves timed_out id =
          Preserves-then Q (cancel-Preserves id) (Preserves-lift Q _)

      await_response-Preserves : (k : Wakeup N) (id : ℤ) → Preserves Q (await_response k id)
      unfolding await_response
      await_response-Preserves (replied r) id =
          Preserves-then Q (send_to_waiting_channel-Preserves r id) (nodes_of_reply-Preserves r)
      await_response-Preserves timed_out id =
          Preserves-then Q (cancel-Preserves id) (Preserves-lift Q _)

      pub handle_expected_status-Preserves :
          {send : Exec (Conn N) (ℕ × ℤ)} (k : Wakeup N)
          → Preserves Q send
          → Preserves Q (handle_expected_status send k)
      unfolding handle_expected_status
      handle_expected_status-Preserves k h =
          Preserves-bind Q (Preserves-rethrow Q _ h) (λ sent. await_status-Preserves k sent.1)

      pub handle_expected_response-Preserves :
          {send : Exec (Conn N) (ℕ × ℤ)} (k : Wakeup N)
          → Preserves Q send
          → Preserves Q (handle_expected_response send k)
      unfolding handle_expected_response
      handle_expected_response-Preserves k h =
          Preserves-bind Q (Preserves-rethrow Q _ h) (λ sent. await_response-Preserves k sent.1)

  module _ (kept : IsKeptByWrites Q) (kept' : IsKeptByRequests Q) where
    pub write_message_async-Preserves :
        (verb : Verb) (format : Text) (args : List Value)
        → Preserves Q (write_message_async verb format args)
    unfolding write_message_async get_next_message_id await_reply
    write_message_async-Preserves verb format args = record {
      preserves = λ c h.
          continue-Preserves Q (write_message_with_id c.next_message_id verb format args _)
            (λ id. pure (c.channels, id))
            ((write_message_with_id-Preserves kept c.next_message_id verb format args).preserves _
              (kept'.registered c h))
            (λ id. Preserves-lift Q (ok (c.channels, id)));
    }

-- A statement that always holds is kept.
module _ {N : Type 0} where
  abbrev pub Anything : Conn N → Type 0
  Anything c = Unit

  pub written-Anything : IsKeptByWrites Anything
  written-Anything = record { written = λ c output faults h. tt }

  pub delivered-Anything : IsKeptByReplies Anything
  delivered-Anything = record { delivered = λ c id ch r e h. tt }

  pub requested-Anything : IsKeptByRequests Anything
  requested-Anything = record { registered = λ c h. tt; cancelled = λ c id h. tt }
