-- ===== src/Conn/State.antt =====
-- The state of a Conn: the two directions of the transport, the counter of message IDs, and the
-- map of the channels on which a reply is awaited. Every operation takes the connection's lock, or
-- that of the sync.Map, for the whole of its effect, so each is one step on this state.
use sprout_go.Base.{ℕ, zero, suc, Option, none, some, List, [], ◌∷◌, ◌++◌, if◌then◌else◌, Text}
use sprout_go.Base.Int.{ℤ, pos, ◌==ℤ◌, succ_int}
use sprout_go.Base.Exec.{ok, err, Exec, pure, rethrow, ◌>>=◌, ◌>>◌}
use sprout_go.Base.Errors.{opaque, unsolicited, write_failure}
use sprout_go.Fmt.Format.{Value, int, printf}
use sprout_go.Conn.Verbs.{Verb}

-- What is sent on a channel: a Status with its code, or a Response with its nodes.
pub data Reply (N : Type 0) : Type 0 where
  is_status : ℤ → Reply N
  is_response : List N → Reply N

pub record Conn (N : Type 0) : Type 0 where
  -- Major and Minor
  pub major : ℤ
  pub minor : ℤ
  pub next_message_id : ℤ
  -- PendingStatus: the channel for each message that waits for its reply
  pub pending : List (ℤ × ℕ)
  -- the number of channels made so far; a channel is named by its number
  pub channels : ℕ
  -- the values sent on channels, the latest first; the channel is closed right after
  pub delivered : List (ℕ × Reply N)
  -- what the peer has sent and is not read yet
  pub input : Text
  -- what was written to the peer
  pub output : Text
  -- what the transport will do with the coming writes: `some n` is a write that fails after n
  -- characters, and when the list has ended every write is whole
  pub faults : List (Option ℕ)

-- NewConn, on a transport with some input and some faults.
abbrev pub new_conn : {N : Type 0} → Text → List (Option ℕ) → Conn N
new_conn input faults = record {
  major = pos 0;
  minor = pos 0;
  next_message_id = pos 0;
  pending = [];
  channels = 0;
  delivered = [];
  input = input;
  output = [];
  faults = faults;
}

abbrev pub lookup : ℤ → List (ℤ × ℕ) → Option ℕ
lookup id [] = none
lookup id ((i, ch) ∷ m) = if i ==ℤ id then some ch else lookup id m

-- PendingStatus.Delete
abbrev pub delete : ℤ → List (ℤ × ℕ) → List (ℤ × ℕ)
delete id [] = []
delete id ((i, ch) ∷ m) = let rest = delete id m in if i ==ℤ id then rest else (i, ch) ∷ rest

-- PendingStatus.Store
abbrev pub store : ℤ → ℕ → List (ℤ × ℕ) → List (ℤ × ℕ)
store id ch m = (id, ch) ∷ delete id m

abbrev pub take {ℓ} : {A : Type ℓ} → ℕ → List A → List A
take zero xs = []
take (suc n) [] = []
take (suc n) (x ∷ xs) = x ∷ take n xs

module _ {N : Type 0} where
  -- One call of Write on the transport.
  abbrev pub write_as : List (Option ℕ) → Text → Exec (Conn N) (Unit {0})
  write_as [] t c = (ok tt, record c { output = c.output ++ t })
  write_as (none ∷ fs) t c = (ok tt, record c { output = c.output ++ t; faults = fs })
  write_as (some n ∷ fs) t c =
      (err write_failure, record c { output = c.output ++ take n t; faults = fs })

  unfoldable pub write : Text → Exec (Conn N) (Unit {0})
  write t c = write_as c.faults t c

  -- getNextMessageID
  unfoldable pub get_next_message_id : Exec (Conn N) ℤ
  get_next_message_id c =
      (ok c.next_message_id, record c { next_message_id = succ_int c.next_message_id })

  -- writeMessageWithID
  unfoldable pub write_message_with_id : ℤ → Verb → Text → List Value → Exec (Conn N) ℤ
  write_message_with_id id verb format args =
      rethrow (opaque "failed to send %s: %v") do write (printf format (int id ∷ args)); pure id

  -- make(chan interface{}), and PendingStatus.Store of it
  unfoldable pub await_reply : ℤ → Exec (Conn N) ℕ
  await_reply id c = (
    ok c.channels,
    record c { channels = suc c.channels; pending = store id c.channels c.pending },
  )

  -- writeMessageAsync
  unfoldable pub write_message_async : Verb → Text → List Value → Exec (Conn N) (ℕ × ℤ)
  write_message_async verb format args = do
    id ← get_next_message_id
    ch ← await_reply id
    id' ← write_message_with_id id verb format args
    pure (ch, id')

  -- writeMessage
  unfoldable pub write_message : Verb → Text → List Value → Exec (Conn N) ℤ
  write_message verb format args = do
    id ← get_next_message_id
    write_message_with_id id verb format args

  -- Cancel
  unfoldable pub cancel : ℤ → Exec (Conn N) (Unit {0})
  cancel id c = (ok tt, record c { pending = delete id c.pending })

  abbrev pub deliver : Option ℕ → Reply N → ℤ → Exec (Conn N) (Unit {0})
  deliver none r id c = (err (unsolicited id), c)
  deliver (some ch) r id c =
      (ok tt, record c { pending = delete id c.pending; delivered = (ch, r) ∷ c.delivered })

  -- sendToWaitingChannel. The receiver is ready: the channel is unbuffered, and a send on it waits
  -- for the receiver. The map holds nothing but channels.
  unfoldable pub send_to_waiting_channel : Reply N → ℤ → Exec (Conn N) (Unit {0})
  send_to_waiting_channel r id c = deliver (lookup id c.pending) r id c
