-- ===== src/Conn/Race.antt =====
-- The goroutine that reads and those that wait for replies, step by step: sendToWaitingChannel is
-- not one step, since it loads the channel, deletes the entry, and then sends on a channel that
-- has no buffer, which waits for a receiver. A wait may end by its timeout in between.
use sprout_go.Base.{ℕ, suc, ◌≡◌, ◌==◌, Option, none, some, List, [], ◌∷◌, ◌++◌, if◌then◌else◌}
use sprout_go.Base.Int.{ℤ}
use sprout_go.Conn.State.{lookup, delete, store}

-- Where the goroutine that reads stands: between two replies, behind the Load of the channel for a
-- message, or at the send on a channel.
pub data Reader : Type 0 where
  idle : Reader
  loaded : ℤ → ℕ → Reader
  sending : ℕ → Reader

pub record Race : Type 0 where
  pub pending : List (ℤ × ℕ)
  pub channels : ℕ
  pub reader : Reader
  -- the channels on which a goroutine waits in handleExpectedStatus or handleExpectedResponse, with
  -- the messages that they are for
  pub waits : List (ℕ × ℤ)
  -- the messages whose wait has timed out, and that are not cancelled yet
  pub timed_out : List ℤ

-- The message for which a goroutine waits on a channel.
abbrev pub waited_for : ℕ → List (ℕ × ℤ) → Option ℤ
waited_for ch [] = none
waited_for ch ((c, id) ∷ ws) = if c == ch then some id else waited_for ch ws

-- The waits on the other channels.
abbrev pub leave : ℕ → List (ℕ × ℤ) → List (ℕ × ℤ)
leave ch [] = []
leave ch ((c, id) ∷ ws) = let rest = leave ch ws in if c == ch then rest else (c, id) ∷ rest

-- The steps of sendToWaitingChannel. A reply that nothing waits for changes nothing.
pub data Delivers : Race → Race → Type 0 where
  loads :
      (s : Race) (id : ℤ) (ch : ℕ)
      → s.reader ≡ idle
      → lookup id s.pending ≡ some ch
      → Delivers s (record s { reader = loaded id ch })
  deletes :
      (s : Race) (id : ℤ) (ch : ℕ)
      → s.reader ≡ loaded id ch
      → Delivers s (record s { reader = sending ch; pending = delete id s.pending })
  -- the value goes over, and the channel is closed
  hands_over :
      (s : Race) (ch : ℕ) (id : ℤ)
      → s.reader ≡ sending ch
      → waited_for ch s.waits ≡ some id
      → Delivers s (record s { reader = idle; waits = leave ch s.waits })

-- writeMessageAsync, for a message with an ID that is not in use, and the begin of the wait for its
-- reply, if it can be written.
pub data Requests : Race → Race → Type 0 where
  asks :
      (s : Race) (id : ℤ)
      → lookup id s.pending ≡ none
      → Requests s (record s {
        pending = store id s.channels s.pending;
        channels = suc s.channels;
        waits = (s.channels, id) ∷ s.waits;
      })

pub data FailsToWrite : Race → Race → Type 0 where
  cannot_write :
      (s : Race) (id : ℤ)
      → lookup id s.pending ≡ none
      → FailsToWrite s
          (record s { pending = store id s.channels s.pending; channels = suc s.channels })

-- The end of a wait by its timeout, and the Cancel that follows.
pub data TimesOut : Race → Race → Type 0 where
  times_out :
      (s : Race) (ch : ℕ) (id : ℤ)
      → waited_for ch s.waits ≡ some id
      → TimesOut s (record s { waits = leave ch s.waits; timed_out = id ∷ s.timed_out })
  cancels :
      (s : Race) (before after : List ℤ) (id : ℤ)
      → s.timed_out ≡ before ++ id ∷ after
      → TimesOut s (record s { pending = delete id s.pending; timed_out = before ++ after })

-- The steps without failed writes and timeouts, and all steps.
pub data SmoothStep (s t : Race) : Type 0 where
  delivers : Delivers s t → SmoothStep s t
  requests : Requests s t → SmoothStep s t

pub data Step (s t : Race) : Type 0 where
  goes_smoothly : SmoothStep s t → Step s t
  fails_to_write : FailsToWrite s t → Step s t
  times_out_or_cancels : TimesOut s t → Step s t

-- A new connection.
abbrev pub new_race : Race
new_race = record { pending = []; channels = 0; reader = idle; waits = []; timed_out = [] }
