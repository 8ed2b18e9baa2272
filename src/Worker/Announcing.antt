-- ===== src/Worker/Announcing.antt =====
-- HandleNewNode: what it writes for a node that has come into the store.
use sprout_go.Base.{
  ℕ, ◌≡◌, ◌≢◌, ◌∙◌, refl, ap, Bool, true, Bool-cases, inl, inr, List, [], ◌∷◌, ◌++◌, Option, some,
  none, if◌then◌else◌, Eq,
}
use sprout_go.Base.Int.{ℤ, ◌==ℤ◌}
use sprout_go.Base.Exec.{Result, ok, err, panics, continue}
use sprout_go.Forest.{Forest, Shape, identity, community, reply, other}
use sprout_go.Session.{is_subscribed}
use sprout_go.Conn.State.{
  Conn, Reply, is_status, is_response, lookup, deliver, send_to_waiting_channel, cancel,
}
use sprout_go.Conn.Dispatch.{on_conn}
use sprout_go.Conn.Parse.{announce_message}
use sprout_go.Conn.Send.{
  Wakeup, replied, timed_out, await_status, status_of_reply, status_ok, handle_expected_status,
  send_announce, send_announce_async,
}
use sprout_go.Conn.Wire.{message_text}
use sprout_go.Conn.Writes.{requested}
use sprout_go.Conn.Pending.{write_message_async-whole}
use sprout_go.Worker.Store.{Archive}
use sprout_go.Worker.State.{Worker, on_wire}
use sprout_go.Worker.Ingest.{
  request, first_wakeup, logged, announce_one, announce_reply, announce_by_shape, handle_new_node,
}
use sprout_go.Worker.Announced.{is_welcome}

-- A step that has not panicked, after which this was written.
abbrev HasWritten : {N : Type 0} → Result (Unit {0}) × Conn N → List ℕ → List (Option ℕ) → Type 0
HasWritten p t faults = (p.0 ≢ panics) × (p.1.output ≡ t) × (p.1.faults ≡ faults)

status_of_reply-HasWritten :
    {N : Type 0} (r : Reply N) (c : Conn N) → HasWritten (status_of_reply r c) c.output c.faults
status_of_reply-HasWritten (is_status code) c = elim (Bool-cases (code ==ℤ status_ok)) [
  | inl e ↦ (rw e (λ h. cc), rw e, rw e)
  | inr e ↦ (rw e (λ h. cc), rw e, rw e)
]
status_of_reply-HasWritten (is_response nodes) c = ((λ h. cc), refl, refl)

deliver-HasWritten :
    {N : Type 0} (waiting : Option ℕ) (r : Reply N) (id : ℤ) (c : Conn N)
    → HasWritten (continue (deliver waiting r id c) (λ _. status_of_reply r)) c.output c.faults
deliver-HasWritten none r id c = ((λ h. cc), refl, refl)
deliver-HasWritten (some ch) r id c = status_of_reply-HasWritten r _

await_status-HasWritten :
    {N : Type 0} (k : Wakeup N) (id : ℤ) (c : Conn N)
    → HasWritten (await_status k id c) c.output c.faults
unfolding await_status send_to_waiting_channel cancel
await_status-HasWritten timed_out id c = ((λ h. cc), refl, refl)
await_status-HasWritten (replied r) id c = deliver-HasWritten (lookup id c.pending) r id c

module _ (F : Forest) (A : Archive F) where
  open F use {Hash, Node}

  send_announce_async-requested :
      (ns : List Node) (c : Conn Node)
      → c.faults ≡ []
      → send_announce_async F ns c ≡ requested F c (announce_message c.next_message_id ns)
  unfolding send_announce_async message_text
  send_announce_async-requested ns c e = write_message_async-whole _ _ _ c e

  send_announce-HasWritten :
      (ns : List Node) (k : Wakeup Node) (c : Conn Node)
      → c.faults ≡ []
      → HasWritten
          (send_announce F ns k c)
          (c.output ++ message_text F (announce_message c.next_message_id ns))
          c.faults
  unfolding send_announce handle_expected_status
  send_announce-HasWritten ns k c e = rw (send_announce_async-requested ns c e) (
      await_status-HasWritten k c.next_message_id
        (requested F c (announce_message c.next_message_id ns)).1)

  logged-ok :
      (p : Result (Unit {0}) × Worker F A)
      → p.0 ≢ panics
      → ((logged F A p).0 ≡ ok tt) × ((logged F A p).1 ≡ p.1)
  logged-ok (ok u, w) h = (refl, refl)
  logged-ok (err e, w) h = (refl, refl)
  logged-ok (panics, w) h = absurd (h refl)

  -- What the worker has written, once it has announced a node or has not.
  HasAnnounced : Bool → Node → Worker F A → Result (Unit {0}) × Worker F A → Type 0
  HasAnnounced b n w p =
      (p.0 ≡ ok tt)
      × (p.1.conn.output ≡ (
          if b
          then w.conn.output ++ message_text F (announce_message w.conn.next_message_id (n ∷ []))
          else w.conn.output))
      × (p.1.conn.faults ≡ w.conn.faults)

  announce_one-HasAnnounced :
      (n : Node) (w : Worker F A)
      → w.conn.faults ≡ []
      → HasAnnounced true n w (announce_one F A n w)
  unfolding announce_one request on_wire on_conn HasAnnounced
  announce_one-HasAnnounced n w e =
      let k = first_wakeup F A w.wakeups in
      let (h, o, f) = send_announce-HasWritten (n ∷ []) k w.conn e in
      let (r, s) = logged-ok (request F A (send_announce F (n ∷ [])) w) h in
      (
        r,
        ap (λ (v : Worker F A). v.conn.output) s ∙ o,
        ap (λ (v : Worker F A). v.conn.faults) s ∙ f,
      )

  module _ ⦃e : Eq Hash⦄ where
    announce_by_shape-HasAnnounced :
        (s : Shape Hash) (n : Node) (w : Worker F A)
        → w.conn.faults ≡ []
        → HasAnnounced (is_welcome F A w.session s) n w (announce_by_shape F A s n w)
    unfolding announce_by_shape announce_reply HasAnnounced
    announce_by_shape-HasAnnounced identity n w e = announce_one-HasAnnounced n w e
    announce_by_shape-HasAnnounced (community a) n w e = announce_one-HasAnnounced n w e
    announce_by_shape-HasAnnounced (reply a h) n w e =
        elim (Bool-cases (is_subscribed h w.session)) [
          | inl t ↦ rw t (announce_one-HasAnnounced n w e)
          | inr f ↦ rw f (refl, refl, refl)
        ]
    announce_by_shape-HasAnnounced other n w e = (refl, refl, refl)

    -- On a working transport HandleNewNode announces its node under the next message ID if it is an
    -- identity, a community, or a reply in a subscribed community, and else writes nothing; however
    -- its wait for the status ends, no error comes of it.
    pub handle_new_node-announces :
        (n : Node) (w : Worker F A)
        → w.conn.faults ≡ []
        → ((handle_new_node F A n w).0 ≡ ok tt)
          × ((handle_new_node F A n w).1.conn.output ≡ (
              if is_welcome F A w.session (F.shape n)
              then w.conn.output
                ++ message_text F (announce_message w.conn.next_message_id (n ∷ []))
              else w.conn.output))
    unfolding handle_new_node HasAnnounced
    handle_new_node-announces n w e =
        let (r, o, f) = announce_by_shape-HasAnnounced (F.shape n) n w e in (r, o)

    -- The transport works as before.
    pub handle_new_node-faults :
        (n : Node) (w : Worker F A)
        → w.conn.faults ≡ []
        → (handle_new_node F A n w).1.conn.faults ≡ w.conn.faults
    unfolding handle_new_node HasAnnounced
    handle_new_node-faults n w e =
        let (r, o, f) = announce_by_shape-HasAnnounced (F.shape n) n w e in f
