-- ===== src/Worker/Reached.antt =====
-- What holds of every worker that a new one can become.
use sprout_go.Base.{
  ℕ, ◌<◌, ◌≡◌, refl, ◌++◌, List, [], ◌∷◌, Bool, true, false, Option, Text, Eq, if◌then◌else◌,
}
use sprout_go.Base.Int.{int_bound}
use sprout_go.Base.Exec.{ok}
use sprout_go.Fmt.Format.{Value}
use sprout_go.Forest.{Forest, Shape, identity, community, reply, other}
use sprout_go.Session.{unsubscribe, Session, is_subscribed}
use sprout_go.Conn.Verbs.{Verb}
use sprout_go.Conn.State.{Conn, write_message_async}
use sprout_go.Conn.Send.{Wakeup, handle_expected_status, handle_expected_response}
use sprout_go.Conn.Kept.{IsKeptByWrites, IsKeptByReplies, IsKeptByRequests, IsKeptByReads}
use sprout_go.Conn.KeptSends.{send_announce-Preserves}
use sprout_go.Conn.Distinct.{AreDistinct, waiting, closed, ApartFrom}
use sprout_go.Conn.Channels.{
  IsSafe, written-IsSafe, read-IsSafe, delivered-IsSafe, requested-IsSafe, new_conn-IsSafe,
}
use sprout_go.Conn.Fresh.{
  IsCounting, written-IsCounting, read-IsCounting, delivered-IsCounting, requested-IsCounting,
  new_conn-IsCounting,
}
use sprout_go.Conn.Replies.{
  status_outcome, response_outcome, HasGivenOut, status_request_lem, response_request_lem,
}
use sprout_go.Worker.Store.{Archive}
use sprout_go.Worker.State.{Worker}
use sprout_go.Worker.Run.{new_worker}
use sprout_go.Worker.Ingest.{announce_one, announce_reply, announce_by_shape, handle_new_node}
use sprout_go.Worker.Keeps.{
  Always, subscribed-Always, unsubscribed-Always, IsKeptBySubscribe, IsKeptByUnsubscribe,
  IsKeptByValid, IsKeptByCommunity, Held, Keeps, request-Keeps, logged-Keeps,
}
use sprout_go.Worker.Subscribed.{
  AddressesBelow, subscribe-AddressesBelow, delete_first-AddressesBelow,
}
use sprout_go.Worker.KeepsDispatch.{read_message-Keeps}
use sprout_go.Worker.KeptNode.{ingest_node-Keeps}
use sprout_go.Worker.KeptBootstrap.{bootstrap_local_store-Keeps}
use sprout_go.Worker.System.{Step, reads, ingests, handles, bootstraps, others, elapses}
use sprout_go.Base.Reach.{Reach, Reach-invariant}
use sprout_go.Conn.Kept.{Anything, written-Anything, delivered-Anything, requested-Anything}

module _ {F : Forest} {A : Archive F} ⦃e : Eq F.Hash⦄ (Q : Conn F.Node → Type 0)
    (P : A.Store → Type 0) (R : Session F.Hash → ℕ → Type 0) (written : IsKeptByWrites Q)
    (replied : IsKeptByReplies Q) (requested : IsKeptByRequests Q)
    (subscribed : IsKeptBySubscribe F.Hash R) (unsubscribed : IsKeptByUnsubscribe F.Hash R) where
  announce_one-Keeps : (n : F.Node) → Keeps Q P R (announce_one F A n)
  unfolding announce_one
  announce_one-Keeps n =
      logged-Keeps Q P R
        (request-Keeps Q P R (send_announce-Preserves F Q written replied requested (n ∷ [])))

  announce_reply-Held :
      (b : Bool) (n : F.Node) (w : Worker F A)
      → Held Q P R w
      → Held Q P R (if b then announce_one F A n w else (ok tt, w)).1
  announce_reply-Held true n w h = (announce_one-Keeps n).preserves w h
  announce_reply-Held false n w h = h

  announce_by_shape-Keeps :
      (s : Shape F.Hash) (n : F.Node) → Keeps Q P R (announce_by_shape F A s n)
  unfolding announce_by_shape announce_reply
  announce_by_shape-Keeps identity n = announce_one-Keeps n
  announce_by_shape-Keeps (community author) n = announce_one-Keeps n
  announce_by_shape-Keeps (reply author c) n = record {
    preserves = λ w. announce_reply-Held (is_subscribed c w.session) n w;
  }
  announce_by_shape-Keeps other n = record { preserves = λ w h. h }

  handle_new_node-Keeps : (n : F.Node) → Keeps Q P R (handle_new_node F A n)
  unfolding handle_new_node
  handle_new_node-Keeps n = announce_by_shape-Keeps (F.shape n) n

  module _ (read : IsKeptByReads Q) (kept : IsKeptByValid F A P) (kept' : IsKeptByCommunity F A P)
      (Others : A.Store → A.Store → Type 0)
      (changed : (s t : A.Store) → Others s t → P s → P t) where
    pub Step-Held : {u v : Worker F A} → Step F A Others u v → Held Q P R u → Held Q P R v
    Step-Held (reads w) h =
        (read_message-Keeps Q P R written replied subscribed unsubscribed read).preserves w h
    Step-Held (ingests w before after n i) h =
        (ingest_node-Keeps Q P R written replied requested kept n).preserves
          (record w { ingesting = before ++ after }) h
    Step-Held (handles w n) h = (handle_new_node-Keeps n).preserves w h
    Step-Held (bootstraps w max_communities) h =
        (bootstrap_local_store-Keeps Q P R written replied requested kept kept' subscribed
            max_communities).preserves
          w h
    Step-Held (others w s o) (q, p, r) = (q, changed w.store s o p, r)
    Step-Held (elapses w time) h = h

    Reach-Held : {u v : Worker F A} → Held Q P R u → Reach (Step F A Others) u v → Held Q P R v
    Reach-Held = Reach-invariant (Step F A Others) (Held Q P R) (λ u v. Step-Held)

-- The pointers in a session were all given before.
abbrev pub HasOldPointers : {H : Type 0} → Session H → ℕ → Type 0
HasOldPointers s p = AddressesBelow p s.communities

module _ {H : Type 0} ⦃e : Eq H⦄ where
  pub subscribed-HasOldPointers : IsKeptBySubscribe H HasOldPointers
  subscribed-HasOldPointers = record { subscribed = subscribe-AddressesBelow }

  pub unsubscribed-HasOldPointers : IsKeptByUnsubscribe H HasOldPointers
  unfolding unsubscribe
  unsubscribed-HasOldPointers = record {
    unsubscribed = λ p h s r. delete_first-AddressesBelow p h s.communities r;
  }

module _ {F : Forest} {A : Archive F} ⦃e : Eq F.Hash⦄ (input : Text) (faults : List (Option ℕ))
    (s : A.Store) (now subscription_id : ℕ) (wakeups : List (Wakeup F.Node))
    (Others : A.Store → A.Store → Type 0) where
  abbrev start : Worker F A
  start = new_worker F A input faults s now subscription_id wakeups

  -- A new worker reads, ingests, announces and bootstraps, in any order, one whole operation after the
  -- other; between them other users change its store. What holds of the store stays true if adding a
  -- node that validates keeps it true, and so does adding a community that was not validated, and so
  -- do the other users; no channel is sent on twice, nor is one that was sent on still waited on; and the
  -- pointers in the session are none that is yet to come.
  pub reached-kept :
      (P : A.Store → Type 0) (w : Worker F A)
      → IsKeptByValid F A P
      → IsKeptByCommunity F A P
      → ((t u : A.Store) → Others t u → P t → P u)
      → P s
      → Reach (Step F A Others) start w
      → P w.store
        × AreDistinct (closed w.conn.delivered)
        × ApartFrom (closed w.conn.delivered) (waiting w.conn.pending)
        × AddressesBelow w.addresses w.session.communities
  reached-kept P w kept kept' changed p r =
      let (q, p', b) =
        Reach-Held IsSafe P HasOldPointers written-IsSafe delivered-IsSafe requested-IsSafe
          subscribed-HasOldPointers unsubscribed-HasOldPointers read-IsSafe kept kept' Others
          changed (new_conn-IsSafe input faults, p, tt) r in
      (p', q.closed_distinct, q.apart, b)

  reached-HasGivenOut :
      (w : Worker F A)
      → w.conn.channels < int_bound
      → w.conn.faults ≡ []
      → Reach (Step F A Others) start w
      → HasGivenOut w.conn.channels w.conn
  reached-HasGivenOut w h f r =
      let (q, u, v) =
        Reach-Held IsCounting (λ x. Unit) Always written-IsCounting delivered-IsCounting
          requested-IsCounting subscribed-Always unsubscribed-Always read-IsCounting
          (record { add_valid = λ x n i p v. tt }) (record { add_community = λ x n a i p v. tt })
          Others (λ t u o p. tt) (new_conn-IsCounting input faults, tt, tt) r in
      let counted = q.counting h in
      record { counter = counted.counter; pending_below = counted.ids_below; transport = f }

  -- In every state that a new worker can come to with fewer than 2^63 requests, on a working
  -- transport: a request that expects a status succeeds exactly for the status 0, one that expects
  -- nodes exactly for a response, and either way the messages that wait for their replies are
  -- afterwards what they were before.
  pub reached-request :
      (verb : Verb) (format : Text) (args : List Value) (wakeup : Wakeup F.Node) (w : Worker F A)
      → w.conn.channels < int_bound
      → w.conn.faults ≡ []
      → Reach (Step F A Others) start w
      → let send = write_message_async verb format args in
        let expecting_status = handle_expected_status send wakeup w.conn in
        let expecting_nodes = handle_expected_response send wakeup w.conn in
        (expecting_status.0 ≡ status_outcome wakeup)
        × (expecting_status.1.pending ≡ w.conn.pending)
        × (expecting_nodes.0 ≡ response_outcome wakeup)
        × (expecting_nodes.1.pending ≡ w.conn.pending)
  reached-request verb format args wakeup w h f r =
      let g = reached-HasGivenOut w h f r in
      let (a, b) = status_request_lem verb format args w.conn.channels wakeup w.conn g in
      let (c, d) = response_request_lem verb format args w.conn.channels wakeup w.conn g in
      (a, b, c, d)

-- HandleNewNode leaves the store as it is.
pub handle_new_node-store :
    {F : Forest} {A : Archive F} ⦃e : Eq F.Hash⦄ (n : F.Node) (w : Worker F A)
    → (handle_new_node F A n w).1.store ≡ w.store
handle_new_node-store n w =
    ((handle_new_node-Keeps Anything (λ s. s ≡ w.store) Always written-Anything delivered-Anything
        requested-Anything subscribed-Always unsubscribed-Always n).preserves
      w (tt, refl, tt)).1
