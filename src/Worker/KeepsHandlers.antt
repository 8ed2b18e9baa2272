-- ===== src/Worker/KeepsHandlers.antt =====
-- The handlers of a worker keep what holds of its connection, if writes do. They leave the store.
use sprout_go.Base.{ℕ, zero, suc, Bool, false, Option, none, some, List, [], ◌∷◌, length, ltb, Eq}
use sprout_go.Base.Int.{ℤ, pos, negsuc, ltb_ℤ}
use sprout_go.Base.Exec.{Result, ok, err, panics, Exec, pure, lift, rethrow, ◌>>=◌}
use sprout_go.Base.Errors.{Error}
use sprout_go.Base.Preserves.{
  Preserves, Preserves-lift, Preserves-bind, Preserves-then, Preserves-rethrow, Preserves-if,
}
use sprout_go.Forest.{Forest}
use sprout_go.Session.{Session}
use sprout_go.Conn.State.{Conn}
use sprout_go.Conn.Send.{send_status, send_response}
use sprout_go.Worker.Store.{Archive}
use sprout_go.Worker.State.{Worker, on_wire}
use sprout_go.Worker.Handlers.{
  on_version, on_list, present_nodes, on_query, climb, known, on_ancestry, last_leaves,
  on_leaves_of, on_subscribe, on_unsubscribe, cons_if_present, current_major,
}
use sprout_go.Worker.Announce.{
  Verdict, skip, ingest, unknown_node, verdict, start_ingesting, announce_loop, on_announce,
}
use sprout_go.Conn.Kept.{IsKeptByWrites, send_status-Preserves}
use sprout_go.Conn.KeptSends.{send_response-Preserves}
use sprout_go.Worker.Keeps.{
  IsKeptBySubscribe, IsKeptByUnsubscribe, subscribe_new-Keeps, unsubscribe_from-Keeps, Held,
  on_wire-Keeps, from_store-Keeps,
}

module _ {F : Forest} {A : Archive F} (Q : Conn F.Node → Type 0) (P : A.Store → Type 0)
    (R : Session F.Hash → ℕ → Type 0) (written : IsKeptByWrites Q) where
  open F use {Hash, Node}

  abbrev IsSteady : {B : Type 0} → Exec (Worker F A) B → Type 0
  IsSteady m = Preserves (Held Q P R) m

  idle : {B : Type 0} (r : Result B) → IsSteady (lift r)
  idle r = Preserves-lift (Held Q P R) r

  status-Keeps :
      (f : Error → Error) (id code : ℤ) → IsSteady (rethrow f (on_wire F A (send_status id code)))
  status-Keeps f id code =
      Preserves-rethrow _ f (on_wire-Keeps Q P R (send_status-Preserves Q written id code))

  response-Keeps : (id : ℤ) (nodes : List Node) → IsSteady (on_wire F A (send_response F id nodes))
  response-Keeps id nodes = on_wire-Keeps Q P R (send_response-Preserves F Q written id nodes)

  pub on_version-Keeps : (id major minor : ℤ) → IsSteady (on_version F A id major minor)
  unfolding on_version
  on_version-Keeps id major minor =
      Preserves-if _ (ltb_ℤ major current_major) (status-Keeps _ id _)
        (Preserves-if _ (ltb_ℤ current_major major) (status-Keeps _ id _) (status-Keeps _ id _))

  pub on_list-Keeps :
      (id : ℤ) (node_type : ℕ) (quantity : ℤ) → IsSteady (on_list F A id node_type quantity)
  unfolding on_list
  on_list-Keeps id node_type quantity =
      Preserves-bind _ (Preserves-rethrow _ _ (from_store-Keeps Q P R _)) (response-Keeps id)

  present_nodes-Keeps : (f : Error → Error) (hs : List Hash) → IsSteady (present_nodes F A f hs)
  unfolding present_nodes
  present_nodes-Keeps f [] = idle (ok [])
  present_nodes-Keeps f (h ∷ hs) =
      Preserves-bind _ (Preserves-rethrow _ _ (from_store-Keeps Q P R _)) (λ found.
        Preserves-bind _ (present_nodes-Keeps f hs)
          (λ rest. idle (ok (cons_if_present F A found rest))))

  pub on_query-Keeps : (id : ℤ) (hs : List Hash) → IsSteady (on_query F A id hs)
  unfolding on_query
  on_query-Keeps id hs = Preserves-bind _ (present_nodes-Keeps _ hs) (response-Keeps id)

  -- The rest of a round of OnAncestry, behind the look-up of the parent.
  climb_on :
      (rounds : ℕ)
      → ((n : Node) → IsSteady (climb F A rounds n))
      → (found : Option Node)
      → IsSteady {B = List Node} (elim found [
        | none ↦ pure []
        | some parent ↦ (do rest ← climb F A rounds parent; pure (parent ∷ rest))
      ])
  climb_on rounds h none = idle (ok [])
  climb_on rounds h (some parent) = Preserves-bind _ (h parent) (λ rest. idle (ok (parent ∷ rest)))

  climb-Keeps : (rounds : ℕ) (n : Node) → IsSteady (climb F A rounds n)
  unfolding climb
  climb-Keeps zero n = idle (ok [])
  climb-Keeps (suc rounds) n =
      Preserves-if _ (F.equals (F.parent_id n) F.null_hash) (idle (ok [])) (
        Preserves-bind _ (Preserves-rethrow _ _ (from_store-Keeps Q P R _))
          (climb_on rounds (climb-Keeps rounds)))

  known-Keeps : (found : Option Node) → IsSteady (known F A found)
  known-Keeps none = idle (err _)
  known-Keeps (some n) = idle (ok n)

  pub on_ancestry-Keeps : (id : ℤ) (h : Hash) (levels : ℤ) → IsSteady (on_ancestry F A id h levels)
  unfolding on_ancestry
  on_ancestry-Keeps id h levels =
      Preserves-bind _ (Preserves-rethrow _ _ (from_store-Keeps Q P R _)) (λ found.
        Preserves-bind _ (known-Keeps found)
          (λ n. Preserves-bind _ (climb-Keeps _ n) (λ ns. response-Keeps id _)))

  last_leaves-Keeps : (quantity : ℤ) (ns : List Node) → IsSteady (last_leaves F A quantity ns)
  unfolding last_leaves
  last_leaves-Keeps (pos q) ns = Preserves-if _ (ltb q (length ns)) (idle _) (idle (ok ns))
  last_leaves-Keeps (negsuc n) ns = idle panics

  pub on_leaves_of-Keeps :
      (id : ℤ) (h : Hash) (quantity : ℤ) → IsSteady (on_leaves_of F A id h quantity)
  unfolding on_leaves_of
  on_leaves_of-Keeps id h quantity =
      Preserves-bind _ (Preserves-rethrow _ _ (from_store-Keeps Q P R _)) (λ ids.
        Preserves-bind _ (present_nodes-Keeps _ ids)
          (λ ns. Preserves-bind _ (last_leaves-Keeps quantity _) (response-Keeps id)))

  pub on_subscribe-Keeps :
      IsKeptBySubscribe F.Hash R → (id : ℤ) (h : Hash) → IsSteady (on_subscribe F A id h)
  unfolding on_subscribe
  on_subscribe-Keeps subscribed id h =
      Preserves-rethrow _ _
        (Preserves-then _ (subscribe_new-Keeps Q P R subscribed h) (status-Keeps _ id _))

  module _ ⦃e : Eq Hash⦄ where
    pub on_unsubscribe-Keeps :
        IsKeptByUnsubscribe F.Hash R → (id : ℤ) (h : Hash) → IsSteady (on_unsubscribe F A id h)
    unfolding on_unsubscribe
    on_unsubscribe-Keeps unsubscribed id h =
        Preserves-rethrow _ _
          (Preserves-then _ (unsubscribe_from-Keeps Q P R unsubscribed h) (status-Keeps _ id _))

    -- One round of the loop, of what the rest of the loop does in the two cases that go on.
    announce_one-Held :
        (v : Result Verdict) (w : Worker F A) (skipped started : Result Bool × Worker F A)
        → Held Q P R w
        → Held Q P R skipped.1
        → Held Q P R started.1
        → (let p : Result Bool × Worker F A = elim v [
          | ok v' ↦ elim v' [ skip ↦ skipped | ingest ↦ started | unknown_node ↦ (ok false, w) ]
          | err x ↦ (err x, w)
          | panics ↦ (panics, w)
        ] in
            Held Q P R p.1)
    announce_one-Held (ok skip) w skipped started h k l = k
    announce_one-Held (ok ingest) w skipped started h k l = l
    announce_one-Held (ok unknown_node) w skipped started h k l = h
    announce_one-Held (err x) w skipped started h k l = h
    announce_one-Held panics w skipped started h k l = h

    announce_loop-Held :
        (ns : List Node) (w : Worker F A) → Held Q P R w → Held Q P R (announce_loop F A ns w).1
    unfolding announce_loop
    announce_loop-Held [] w h = h
    announce_loop-Held (n ∷ ns) w h =
        announce_one-Held (verdict F A n w) w _ _ h (announce_loop-Held ns w h)
          (announce_loop-Held ns (start_ingesting F A n w) h)

    pub on_announce-Keeps : (id : ℤ) (ns : List Node) → IsSteady (on_announce F A id ns)
    unfolding on_announce
    on_announce-Keeps id ns =
        Preserves-bind _ {m = announce_loop F A ns} (record { preserves = announce_loop-Held ns })
          (λ b.
            Preserves-if _ b (on_wire-Keeps Q P R (send_status-Preserves Q written id _))
              (on_wire-Keeps Q P R (send_status-Preserves Q written id _)))
