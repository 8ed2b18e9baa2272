-- ===== src/Worker/Propagates.antt =====
-- How a node gets from one store to another: HandleNewNode of a worker announces it, the worker at
-- the other end reads that with OnAnnounce, and the goroutine that this starts ingests the node.
use mathlib.Core.List.{append-nil}
use sprout_go.Base.{
  ◌≡◌, ◌≢◌, ◌∙◌, refl, sym, ap, Bool, true, ◌&&◌, Option, some, [], ◌∷◌, ◌++◌, arith, Eq,
}
use sprout_go.Base.Int.{ℤ, FitsInt}
use sprout_go.Base.Exec.{Result, ok, panics, on_error}
use sprout_go.Base.Errors.{wrapped}
use sprout_go.Forest.{Forest, ForestLaws, Shape, identity, community, reply, other}
use sprout_go.Session.{Session}
use sprout_go.Conn.Parse.{announce_message, status_message}
use sprout_go.Conn.Send.{status_ok}
use sprout_go.Conn.Wire.{message_text}
use sprout_go.Conn.Dispatch.{dispatch, read_message}
use sprout_go.Conn.Delivery.{read_message-message_text}
use sprout_go.Worker.Store.{Archive}
use sprout_go.Worker.State.{Worker, host, with_input}
use sprout_go.Worker.Run.{handlers}
use sprout_go.Worker.Ingest.{
  fetch_author, ensure_author, ensure_author_of, ensure_author_available, ingest_node, add_node,
  handle_new_node,
}
use sprout_go.Worker.Announce.{start_ingesting}
use sprout_go.Worker.Announced.{
  is_unexpired, is_absent, is_welcome, is_wanted, IsOrdinary, ingesting_wanted, reported,
  on_announce-select,
}
use sprout_go.Worker.Announcing.{handle_new_node-announces}

module _ (F : Forest) (A : Archive F) where
  open F use {Hash, Node}

  -- The store knows the author of a node.
  abbrev pub KnowsAuthor : A.Store → Shape Hash → Type 0
  KnowsAuthor s identity = Unit
  KnowsAuthor s (community author) = (n : Node) × (A.get_identity s author ≡ ok (some n))
  KnowsAuthor s (reply author c) = (n : Node) × (A.get_identity s author ≡ ok (some n))
  KnowsAuthor s other = ⊥

  pub ensure_author_of-known :
      (sh : Shape Hash) (w : Worker F A)
      → KnowsAuthor w.store sh
      → ensure_author_of F A sh w ≡ (ok tt, w)
  unfolding ensure_author_of ensure_author fetch_author
  ensure_author_of-known identity w k = refl
  ensure_author_of-known (community author) w (n, k) = rw k
  ensure_author_of-known (reply author c) w (n, k) = rw k
  ensure_author_of-known other w k = absurd k

  ingest_node-known :
      (n : Node) (w : Worker F A)
      → KnowsAuthor w.store (F.shape n)
      → A.validate_deep w.store n ≡ ok tt
      → ingest_node F A n w ≡ add_node F A n w
  unfolding ingest_node ensure_author_available
  ingest_node-known n w k v = rw (ensure_author_of-known (F.shape n) w k, v)

  module _ ⦃e : Eq Hash⦄ (laws : ForestLaws F) where
    wanted_by_cases :
        (s : Session Hash) (sh : Shape Hash) (found : Result (Option Node)) (expired : Result Bool)
        → (is_unexpired expired && (is_absent found && is_welcome F A s sh)) ≡ true
        → (expired ≢ panics) × (found ≢ panics) × (sh ≢ other)
    wanted_by_cases s sh found expired h = ground arith

    is_wanted-IsOrdinary :
        (n : Node) (w : Worker F A) → is_wanted F A w n ≡ true → IsOrdinary F A w n
    unfolding is_wanted
    is_wanted-IsOrdinary n w h = wanted_by_cases w.session (F.shape n) _ _ h

    ingesting_one :
        (n : Node) (w : Worker F A)
        → is_wanted F A w n ≡ true
        → ingesting_wanted F A (n ∷ []) w ≡ start_ingesting F A n w
    unfolding is_wanted
    ingesting_one n w h = rw h

    pub hears_announcement :
        (n : Node) (id : ℤ) (w : Worker F A)
        → FitsInt id
        → w.conn.faults ≡ []
        → w.conn.input ≡ message_text F (announce_message id (n ∷ []))
        → is_wanted F A w n ≡ true
        → read_message F (host F A) (handlers F A) w
          ≡ (ok tt, reported F A id status_ok (start_ingesting F A n (with_input F A [] w)))
    unfolding dispatch is_wanted
    hears_announcement n id w i f t h =
        let wanted : is_wanted F A (with_input F A [] w) n ≡ true = h in
        read_message-message_text F laws (host F A) (handlers F A) (announce_message id (n ∷ [])) []
          w (i, omega arith) (t ∙ sym (append-nil _))
        ∙ ap (on_error (wrapped "error running hook for %s: %w")) (
            on_announce-select F A id (n ∷ []) (with_input F A [] w)
              (is_wanted-IsOrdinary n (with_input F A [] w) wanted, tt) f
            ∙ ap (λ v. (ok tt, reported F A id status_ok v))
                (ingesting_one n (with_input F A [] w) wanted))

    pub announced_text :
        (n : Node) (u : Worker F A)
        → u.conn.faults ≡ []
        → u.conn.output ≡ []
        → is_welcome F A u.session (F.shape n) ≡ true
        → (handle_new_node F A n u).1.conn.output
          ≡ message_text F (announce_message u.conn.next_message_id (n ∷ []))
    announced_text n u f o c = (handle_new_node-announces F A n u f).1 ∙ rw (c, o)

    -- A worker handles a new node, on a working transport on which nothing else was written: an
    -- identity, a community, or a reply in a community to which its peer has subscribed. If the worker
    -- at the other end, on a working transport too, wants the node, then it answers with the status
    -- OK, and starts to ingest the node. If its store then knows the author, and the node validates,
    -- the node is added to its store.
    pub announced_node_is_stored :
        (n : Node) (u w : Worker F A)
        → FitsInt u.conn.next_message_id
        → u.conn.faults ≡ []
        → u.conn.output ≡ []
        → is_welcome F A u.session (F.shape n) ≡ true
        → w.conn.faults ≡ []
        → is_wanted F A w n ≡ true
        → KnowsAuthor w.store (F.shape n)
        → A.validate_deep w.store n ≡ ok tt
        → let announced = (handle_new_node F A n u).1.conn.output in
          let (result, v) = read_message F (host F A) (handlers F A) (with_input F A announced w) in
          (result ≡ ok tt)
          × (v.conn.output
              ≡ w.conn.output ++ message_text F (status_message u.conn.next_message_id status_ok))
          × (v.ingesting ≡ n ∷ w.ingesting)
          × ((ingest_node F A n v).1.store ≡ (A.add_as n w.subscription_id w.store).1)
    unfolding add_node is_wanted
    announced_node_is_stored n u w i uf uo c f h k d =
        let t = announced_text n u uf uo c in
        let id = u.conn.next_message_id in
        let v = reported F A id status_ok (start_ingesting F A n (with_input F A [] w)) in
        rw (hears_announcement n id (with_input F A _ w) i f t h) (
          refl,
          refl,
          refl,
          ap (λ (p : Result (Unit {0}) × Worker F A). p.1.store) (ingest_node-known n v k d),
        )
