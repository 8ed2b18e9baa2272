-- ===== src/Conn/Channels.antt =====
-- No channel is sent on twice, whatever requests, cancellations and replies a connection sees. The
-- channel is closed after its first value, so a second send would be a run-time panic.
use sprout_go.Base.{ℕ, Option, List, [], ◌∷◌, arith, Text}
use sprout_go.Base.Int.{ℤ}
use sprout_go.Fmt.Format.{Value}
use sprout_go.Conn.Verbs.{Verb}
use sprout_go.Conn.State.{
  Reply, Conn, new_conn, write_message_with_id, write_message_async, cancel,
  send_to_waiting_channel,
}
use sprout_go.Conn.Kept.{
  IsKeptByWrites, IsKeptByReplies, IsKeptByRequests, IsKeptByReads, write_message_with_id-Preserves,
  write_message_async-Preserves, send_to_waiting_channel-Preserves,
}
use sprout_go.Conn.Distinct.{
  AreDistinct, waiting, closed, ApartFrom, AllBelow, delete-AreDistinct, delete-ApartFrom,
  delete-AllBelow, AllBelow-suc, AllBelow-Absent, lookup-below, lookup-apart, lookup-Absent,
  ApartFrom-cons,
}

pub record IsSafe {N : Type 0} (c : Conn N) : Type 0 where
  pub waiting_distinct : AreDistinct (waiting c.pending)
  pub closed_distinct : AreDistinct (closed c.delivered)
  pub apart : ApartFrom (closed c.delivered) (waiting c.pending)
  pub waiting_below : AllBelow c.channels (waiting c.pending)
  pub closed_below : AllBelow c.channels (closed c.delivered)

-- What a connection goes through: a request, a message that awaits no reply, a cancellation, and a
-- reply from the peer.
pub data Op (N : Type 0) : Type 0 where
  requests : Verb → Text → List Value → Op N
  writes : ℤ → Verb → Text → List Value → Op N
  cancels : ℤ → Op N
  replies : Reply N → ℤ → Op N

unfoldable pub apply : {N : Type 0} → Op N → Conn N → Conn N
apply (requests verb format args) c = (write_message_async verb format args c).1
apply (writes id verb format args) c = (write_message_with_id id verb format args c).1
apply (cancels id) c = (cancel id c).1
apply (replies r id) c = (send_to_waiting_channel r id c).1

unfoldable pub run : {N : Type 0} → List (Op N) → Conn N → Conn N
run [] c = c
run (op ∷ ops) c = run ops (apply op c)

module _ {N : Type 0} where
  pub written-IsSafe : IsKeptByWrites (IsSafe {N = N})
  written-IsSafe = record {
    written = λ c output faults s. record {
      waiting_distinct = s.waiting_distinct;
      closed_distinct = s.closed_distinct;
      apart = s.apart;
      waiting_below = s.waiting_below;
      closed_below = s.closed_below;
    };
  }

  pub read-IsSafe : IsKeptByReads (IsSafe {N = N})
  read-IsSafe = record {
    read = λ c rest s. record {
      waiting_distinct = s.waiting_distinct;
      closed_distinct = s.closed_distinct;
      apart = s.apart;
      waiting_below = s.waiting_below;
      closed_below = s.closed_below;
    };
  }

  pub delivered-IsSafe : IsKeptByReplies (IsSafe {N = N})
  delivered-IsSafe = record {
    delivered = λ c id ch r e s. record {
      waiting_distinct = delete-AreDistinct id c.pending s.waiting_distinct;
      closed_distinct =
          (lookup-apart (closed c.delivered) ch id c.pending s.apart e, s.closed_distinct);
      apart =
          ApartFrom-cons ch (closed c.delivered) _
            (delete-ApartFrom (closed c.delivered) id c.pending s.apart)
            (lookup-Absent ch id c.pending s.waiting_distinct e);
      waiting_below = delete-AllBelow c.channels id c.pending s.waiting_below;
      closed_below = (lookup-below c.channels ch id c.pending s.waiting_below e, s.closed_below);
    };
  }

  pub requested-IsSafe : IsKeptByRequests (IsSafe {N = N})
  requested-IsSafe = record {
    registered = λ c s. record {
      waiting_distinct = (
        AllBelow-Absent c.channels _
            (delete-AllBelow c.channels c.next_message_id c.pending s.waiting_below),
        delete-AreDistinct c.next_message_id c.pending s.waiting_distinct,
      );
      closed_distinct = s.closed_distinct;
      apart = (
        AllBelow-Absent c.channels _ s.closed_below,
        delete-ApartFrom (closed c.delivered) c.next_message_id c.pending s.apart,
      );
      waiting_below = (
        omega arith,
        AllBelow-suc c.channels _
            (delete-AllBelow c.channels c.next_message_id c.pending s.waiting_below),
      );
      closed_below = AllBelow-suc c.channels _ s.closed_below;
    };
    cancelled = λ c id s. record {
      waiting_distinct = delete-AreDistinct id c.pending s.waiting_distinct;
      closed_distinct = s.closed_distinct;
      apart = delete-ApartFrom (closed c.delivered) id c.pending s.apart;
      waiting_below = delete-AllBelow c.channels id c.pending s.waiting_below;
      closed_below = s.closed_below;
    };
  }

  apply-IsSafe : (op : Op N) (c : Conn N) → IsSafe c → IsSafe (apply op c)
  unfolding apply cancel
  apply-IsSafe (requests verb format args) c s =
      (write_message_async-Preserves IsSafe written-IsSafe requested-IsSafe verb format
          args).preserves
        c s
  apply-IsSafe (writes id verb format args) c s =
      (write_message_with_id-Preserves IsSafe written-IsSafe id verb format args).preserves c s
  apply-IsSafe (cancels id) c s = requested-IsSafe.cancelled c id s
  apply-IsSafe (replies r id) c s =
      (send_to_waiting_channel-Preserves IsSafe delivered-IsSafe r id).preserves c s

  run-IsSafe : (ops : List (Op N)) (c : Conn N) → IsSafe c → IsSafe (run ops c)
  unfolding run
  run-IsSafe [] c s = s
  run-IsSafe (op ∷ ops) c s = run-IsSafe ops (apply op c) (apply-IsSafe op c s)

  pub new_conn-IsSafe :
      (input : Text) (faults : List (Option ℕ)) → IsSafe {N = N} (new_conn input faults)
  new_conn-IsSafe input faults = record {
    waiting_distinct = tt;
    closed_distinct = tt;
    apart = tt;
    waiting_below = tt;
    closed_below = tt;
  }

  -- From a new connection, after any requests, replies and cancellations in any order, whatever
  -- writes fail: no channel was sent on twice, and none that was sent on is still waited on.
  pub run-no_double_send :
      (input : Text) (faults : List (Option ℕ)) (ops : List (Op N))
      → AreDistinct (closed (run ops (new_conn input faults)).delivered)
        × ApartFrom
            (closed (run ops (new_conn input faults)).delivered)
            (waiting (run ops (new_conn input faults)).pending)
  run-no_double_send input faults ops =
      let s = run-IsSafe ops (new_conn input faults) (new_conn-IsSafe input faults) in
      (s.closed_distinct, s.apart)
