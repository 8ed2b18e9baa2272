-- ===== src/Conn/Atomic.antt =====
-- The operations of Conn.State, which are one step each, against the single steps of Conn.Race.
use sprout_go.Base.{ℕ, ◌≡◌, refl, Option, none, some, List, [], ◌∷◌, Text}
use sprout_go.Base.Int.{ℤ}
use sprout_go.Base.Reach.{Reach, here, next}
use sprout_go.Fmt.Format.{Value}
use sprout_go.Conn.Verbs.{Verb}
use sprout_go.Conn.State.{
  Conn, Reply, lookup, delete, write, write_message_with_id, get_next_message_id, await_reply,
  write_message_async, cancel, deliver, send_to_waiting_channel,
}
use sprout_go.Conn.Send.{await_status, timed_out}
use sprout_go.Conn.Race.{
  idle, loaded, sending, Race, waited_for, leave, Delivers, loads, deletes, hands_over, Requests,
  asks, FailsToWrite, cannot_write, TimesOut, times_out, cancels,
}

module _ {N : Type 0} where
  -- A connection, and the waits for its replies, while the goroutine that reads is between two
  -- replies.
  abbrev pub at_rest : Conn N → List (ℕ × ℤ) → Race
  at_rest c ws = record {
    pending = c.pending;
    channels = c.channels;
    reader = idle;
    waits = ws;
    timed_out = [];
  }

  -- Each operation does what its single steps do one after the other. While a goroutine waits on the
  -- channel of a message, sendToWaitingChannel loads the channel, deletes the entry and hands the
  -- reply over. A request with an ID that is not in use waits on its new channel, and its entry stays
  -- if it cannot be written. A wait that times out is left, and cancelled.
  pub steps_of_operations :
      (c : Conn N) (ws : List (ℕ × ℤ)) (r : Reply N) (id k : ℤ) (ch : ℕ) (verb : Verb)
      (format : Text) (args : List Value)
      → (lookup id c.pending ≡ some ch
          → waited_for ch ws ≡ some k
          → Reach Delivers
              (at_rest c ws)
              (at_rest (send_to_waiting_channel r id c).1 (leave ch ws)))
        × (lookup c.next_message_id c.pending ≡ none
            → c.faults ≡ []
            → Requests (at_rest c ws) (
                at_rest
                  (write_message_async verb format args c).1
                  ((c.channels, c.next_message_id) ∷ ws)))
        × ((n : ℕ) (fs : List (Option ℕ))
            → lookup c.next_message_id c.pending ≡ none
            → c.faults ≡ some n ∷ fs
            → FailsToWrite (at_rest c ws) (at_rest (write_message_async verb format args c).1 ws))
        × (waited_for ch ws ≡ some id
            → Reach TimesOut (at_rest c ws) (at_rest (await_status timed_out id c).1 (leave ch ws)))
  unfolding send_to_waiting_channel write_message_async get_next_message_id await_reply
      write_message_with_id write await_status cancel
  steps_of_operations c ws r id k ch verb format args = (
    λ l w.
        let has_loaded = record (at_rest c ws) { reader = loaded id ch } in
        let has_deleted = record has_loaded {
          reader = sending ch;
          pending = delete id c.pending;
        } in
        rw (l, deliver)
          (next
            (next (next here (loads (at_rest c ws) id ch refl l)) (deletes has_loaded id ch refl))
            (hands_over has_deleted ch k refl w)),
    λ l f. rw f (asks (at_rest c ws) c.next_message_id l),
    λ n fs l f. rw f (cannot_write (at_rest c ws) c.next_message_id l),
    λ w. next (next here (times_out (at_rest c ws) ch id w)) (
        cancels (record (at_rest c ws) { waits = leave ch ws; timed_out = id ∷ [] }) [] [] id refl),
  )
