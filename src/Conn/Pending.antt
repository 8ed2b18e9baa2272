-- ===== src/Conn/Pending.antt =====
-- The map of pending replies: each message that awaits a reply gets at most one, on the channel
-- that was made for it, and no channel is ever sent on twice (it is closed after the first send, so
-- a second one would be a run-time panic).
use sprout_go.Base.{
  ℕ, suc, ◌<◌, ◌≡◌, refl, Option, none, some, List, [], ◌∷◌, ◌++◌, arith, Text, if◌then◌else◌, inl,
  inr, Option-cases,
}
use sprout_go.Base.Int.{ℤ, pos, negsuc, ◌==ℤ◌, ==ℤ_iff, succ_int}
use sprout_go.Base.Exec.{ok, err}
use sprout_go.Base.Errors.{unsolicited, opaque, write_failure}
use sprout_go.Fmt.Format.{Value, int, printf}
use sprout_go.Conn.Verbs.{Verb}
use sprout_go.Conn.State.{
  Reply, Conn, lookup, delete, store, write, get_next_message_id, write_message_with_id,
  await_reply, write_message_async, cancel, send_to_waiting_channel,
}

-- Every pending ID was given out: it lies below the counter.
abbrev pub IdsBelow : ℕ → List (ℤ × ℕ) → Type 0
IdsBelow n [] = Unit {0}
IdsBelow n ((pos i, ch) ∷ m) = (i < n) × IdsBelow n m
IdsBelow n ((negsuc i, ch) ∷ m) = ⊥

lookup-below : (n : ℕ) (m : List (ℤ × ℕ)) → IdsBelow n m → lookup (pos n) m ≡ none
lookup-below n [] b = refl
lookup-below n ((pos i, ch) ∷ m) b = ground (arith, lookup-below n m b.1)
lookup-below n ((negsuc i, ch) ∷ m) b = absurd b

pub delete-below : (n : ℕ) (m : List (ℤ × ℕ)) → IdsBelow n m → delete (pos n) m ≡ m
delete-below n [] b = refl
delete-below n ((pos i, ch) ∷ m) b = ground (arith, delete-below n m b.1)
delete-below n ((negsuc i, ch) ∷ m) b = absurd b

pub delete-store :
    (n ch : ℕ) (m : List (ℤ × ℕ)) → IdsBelow n m → delete (pos n) (store (pos n) ch m) ≡ m
delete-store n ch m b =
    rw (delete-below n m b, (==ℤ_iff (pos n) (pos n)).1 refl) (delete-below n m b)

lookup-delete :
    (i j : ℤ) (m : List (ℤ × ℕ)) → lookup j (delete i m) ≡ (if i ==ℤ j then none else lookup j m)
lookup-delete i j [] = ground arith
lookup-delete i j ((k, ch) ∷ m) =
    ground (arith, lookup-delete i j m, ==ℤ_iff k i, ==ℤ_iff k j, ==ℤ_iff i j)

-- A request that is written whole: its ID is the counter's value, the channel of its reply is new,
-- and the map has the one for the other.
pub write_message_async-whole :
    {N : Type 0} (verb : Verb) (format : Text) (args : List Value) (c : Conn N)
    → c.faults ≡ []
    → write_message_async verb format args c ≡ (
      ok (c.channels, c.next_message_id),
      record c {
        next_message_id = succ_int c.next_message_id;
        channels = suc c.channels;
        pending = store c.next_message_id c.channels c.pending;
        output = c.output ++ printf format (int c.next_message_id ∷ args);
      },
    )
unfolding write_message_async get_next_message_id await_reply write_message_with_id write
write_message_async-whole verb format args c e = rw e

-- A request whose write fails returns the error, but its entry stays in the map: nothing cancels it.
pub write_message_async-fault :
    {N : Type 0} (verb : Verb) (format : Text) (args : List Value) (c : Conn N) (n : ℕ)
    (fs : List (Option ℕ))
    → c.faults ≡ some n ∷ fs
    → ((write_message_async verb format args c).0
        ≡ err (opaque "failed to send %s: %v" write_failure))
      × ((write_message_async verb format args c).1.pending
          ≡ store c.next_message_id c.channels c.pending)
unfolding write_message_async get_next_message_id await_reply write_message_with_id write
write_message_async-fault verb format args c n fs e = (rw e, rw e)

pub lookup-store :
    (i j : ℤ) (ch : ℕ) (m : List (ℤ × ℕ))
    → lookup j (store i ch m) ≡ (if i ==ℤ j then some ch else lookup j m)
lookup-store i j ch m = ground (arith, lookup-delete i j m)

module _ {N : Type 0} where
  -- A reply goes to the channel that waits for its message, and is then waited for no more; every
  -- other message still waits on its channel. Without one, it is refused as unsolicited, and
  -- changes nothing.
  send_to_waiting_channel_lem :
      (r : Reply N) (id : ℤ) (c : Conn N)
      → ((ch : ℕ)
          → lookup id c.pending ≡ some ch
          → (send_to_waiting_channel r id c ≡ (
            ok tt,
            record c { pending = delete id c.pending; delivered = (ch, r) ∷ c.delivered },
          ))
            × ((j : ℤ)
                → lookup j (delete id c.pending) ≡ (if id ==ℤ j then none else lookup j c.pending)))
        × (lookup id c.pending ≡ none → send_to_waiting_channel r id c ≡ (err (unsolicited id), c))
  unfolding send_to_waiting_channel
  send_to_waiting_channel_lem r id c =
      (λ ch e. (rw e, λ j. lookup-delete id j c.pending), λ e. rw e)

  -- A second reply to a message is unsolicited, and so is any reply to a message that was
  -- cancelled.
  pub at_most_one_reply :
      (r r' : Reply N) (id : ℤ) (c : Conn N)
      → ((send_to_waiting_channel r' id (send_to_waiting_channel r id c).1).0
          ≡ err (unsolicited id))
        × ((send_to_waiting_channel r' id (cancel id c).1).0 ≡ err (unsolicited id))
  unfolding send_to_waiting_channel cancel
  at_most_one_reply r r' id c = (
    elim (Option-cases (lookup id c.pending)) [
      | inl e ↦ rw (e, send_to_waiting_channel) (rw e)
      | inr (ch, e) ↦ rw (e, send_to_waiting_channel) (rw gone)
    ],
    rw gone,
  )
    where
      gone : lookup id (delete id c.pending) ≡ none
      gone = ground (arith, lookup-delete id id c.pending, ==ℤ_iff id id)
