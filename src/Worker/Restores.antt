-- ===== src/Worker/Restores.antt =====
-- BootstrapLocalStore from its first request to its end, with a peer that has the communities with
-- all their messages.
use mathlib.Core.List.{append-nil}
use sprout_go.Base.{
  ℕ, ◌≡◌, ◌≢◌, ◌∙◌, ap, subst, sym, refl, Bool, true, false, Eq, Option, none, some, List, [], ◌∷◌,
  ◌++◌, All, All-map, All-all,
}
use sprout_go.Base.Int.{ℤ, pos}
use sprout_go.Base.Exec.{ok}
use sprout_go.Forest.{Forest, Shape, identity, community, reply, other}
use sprout_go.Conn.State.{is_response}
use sprout_go.Conn.Send.{replied, send_list, status_ok}
use sprout_go.Worker.Store.{Archive}
use sprout_go.Worker.State.{Worker}
use sprout_go.Worker.Bootstrap.{bootstrap_loop, bootstrap_local_store}
use sprout_go.Worker.Protocol.{View, IsAnswering, forebears, reply_to, is_passed, are_passed}
use sprout_go.Worker.Answers.{nodes_of, last}
use sprout_go.Conn.Parse.{Message, response_message, status_message}
use sprout_go.Conn.Taken.{Carries, a_status, a_response}
use sprout_go.Worker.RootFirst.{SortLaws}
use sprout_go.Worker.Subscribed.{AddressesBelow}
use sprout_go.Worker.Gained.{Has}
use sprout_go.Worker.Rooted.{StoreLaws, IsRooted, AreValid, KnowsAuthors}
use sprout_go.Worker.CaughtUp.{forebears-AreAncestors, owed_ancestry}
use sprout_go.Worker.Requests.{Exchange, wakes, texts, listing, leaves_request, written_after}
use sprout_go.Worker.Woken.{with_wakeups, with_conn, listed}
use sprout_go.Worker.Fills.{ListsLeaves, OwesReplies}
use sprout_go.Worker.KeptBootstrap.{bootstrap_local_store-kept}
use sprout_go.Worker.Closed.{
  StrictLaws, IsClosed, EndsAtRoots, IsClosed-IsKeptByValid, IsClosed-IsKeptByCommunity,
  has_ancestors,
}
use sprout_go.Worker.Rounds.{IsListed, IsFilled, bootstrap_local_store-at, rounds_asks, rounds}

module _ (F : Forest) (A : Archive F) (view : View F) where
  open F use {Hash, Node, id, shape, created_at, node_type_community}

  -- The reply is the one that a worker with this in its store owes to the request.
  abbrev pub IsOwed : Exchange F → Type 0
  IsOwed x =
      (message_id : ℤ)
      → (r : Message Hash Node) × (reply_to F A view (x.asks message_id) ≡ some r)
        × Carries F message_id r x.answer

  -- The communities and the leaves that it lists.
  abbrev pub communities_in : ℕ → List Node
  communities_in quantity = view.listed node_type_community (pos quantity)

  abbrev pub leaves_in : ℕ → Node → List Node
  leaves_in quantity n =
      last F A quantity (A.sort_by created_at (nodes_of F A view.look (view.below (id n))))

  known_is_passed :
      (b : Bool) (found : Option Node) (sh : Shape Hash)
      → sh ≢ other
      → is_passed F A view b found sh ≡ true
  known_is_passed true found sh k = refl
  known_is_passed false (some old) sh k = refl
  known_is_passed false none identity k = refl
  known_is_passed false none (community author) k = refl
  known_is_passed false none (reply author c) k = refl
  known_is_passed false none other k = absurd (k refl)

  known_are_passed :
      (ns : List Node) → All (λ n. shape n ≢ other) ns → are_passed F A view ns ≡ true
  unfolding are_passed
  known_are_passed [] k = refl
  known_are_passed (n ∷ ns) (k, ks) =
      rw (
        known_is_passed (view.has_expired n) (view.look (id n)) (shape n) k,
        known_are_passed ns ks,
      )

  owes_replies : OwesReplies F A view.look (λ n. forebears F A view (F.tree_depth n) n) IsOwed
  unfolding reply_to
  owes_replies = record {
    ancestry = λ n l i. (
      response_message i (A.sort_by F.tree_depth (forebears F A view (F.tree_depth n) n)),
      owed_ancestry F A view i n _ l refl,
      a_response _,
    );
    subscribed = λ n i. (status_message i status_ok, refl, a_status status_ok);
    announced = λ ns known i.
        (status_message i status_ok, rw (known_are_passed ns known) refl, a_status status_ok);
  }

  owes_leaves :
      (quantity : ℕ) (n : Node) → IsOwed (leaves_request F n (pos quantity) (leaves_in quantity n))
  unfolding reply_to
  owes_leaves quantity n i = (response_message i (leaves_in quantity n), refl, a_response _)

  owes_communities : (quantity : ℕ) → IsOwed (listing F (pos quantity) (communities_in quantity))
  unfolding reply_to
  owes_communities quantity i = (response_message i (communities_in quantity), refl, a_response _)

module _ {F : Forest} {A : Archive F} (laws : StoreLaws A) where
  open F use {Hash, Node, id, tree_depth, node_type_community}

  stays-IsClosed :
      (strict : StrictLaws A) (max_communities : ℤ) (w v : Worker F A)
      → bootstrap_local_store F A max_communities w ≡ (ok tt, v)
      → IsClosed A w.store
      → IsClosed A v.store
  stays-IsClosed strict max_communities w v e c = subst (IsClosed A) (ap (λ p. p.1.store) e) (
      bootstrap_local_store-kept (IsClosed A) (IsClosed-IsKeptByValid laws.keeps strict)
        (IsClosed-IsKeptByCommunity laws.keeps strict) max_communities w c)

  -- BootstrapLocalStore against a peer that has communities with all their messages. It makes some
  -- requests, which it writes under IDs that follow each other, and it writes nothing else. When it
  -- is woken by the reply that a worker with the peer's store owes to each of them, it waits for no
  -- other, and at the end every community that the peer lists is subscribed, and the store has each
  -- community, each leaf that the peer lists for it, and each ancestor of each leaf. The transport
  -- works; the peer has the communities and those leaves, which are as many as were asked for at most;
  -- the worker's store knows the authors, takes and keeps what validates, and has no nodes of an
  -- unknown type; a node validates where its author, its parent and its community are there, and
  -- nowhere without its parent; in the store, each node is a root or has its parent, an ID belongs to
  -- one node, and a community is a root, with no node above it. The pointers in the session were all
  -- given before.
  pub bootstrap_restores :
      ⦃e : Eq Hash⦄ (quantity : ℕ) (view : View F) (peer w : Worker F A)
      → StrictLaws A
      → SortLaws A
      → ListsLeaves A
      → IsRooted A view.look
      → EndsAtRoots A view.look
      → AreValid A view.look
      → IsAnswering A view peer.store peer.now
      → All (IsListed F view.look (leaves_in F A view quantity)) (communities_in F A view quantity)
      → w.conn.faults ≡ []
      → IsClosed A w.store
      → KnowsAuthors A view.look w.store
      → AddressesBelow w.addresses w.session.communities
      → let ns = communities_in F A view quantity in
        let leaves = leaves_in F A view quantity in
        (said : List (Exchange F)) × (v : Worker F A) × (bootstrap_local_store F A
            (pos quantity)
            (with_wakeups (wakes F said) w)
          ≡ (ok tt, v))
        × (v.wakeups ≡ [])
        × All (IsOwed F A view) said
        × (v.conn.output ≡ w.conn.output ++ texts F w.conn.next_message_id said)
        × All (IsFilled leaves v) ns
        × All
            (λ n.
              All
                (λ leaf.
                  All (λ p. Has A v.store (id p)) (forebears F A view (tree_depth leaf) leaf))
                (leaves n))
            ns
  bootstrap_restores quantity view peer w strict sorts lists rooted alone valid a h f closed ka b =
      let ns = communities_in F A view quantity in
      let leaves = leaves_in F A view quantity in
      let ancestors = λ (m : Node). forebears F A view (tree_depth m) m in
      let are = λ (m : Node). forebears-AreAncestors view peer (tree_depth m) m a in
      let c = (send_list node_type_community (pos quantity) (replied (is_response ns)) w.conn).1 in
      let (o, works, wrote) = listed (pos quantity) ns [] w f in
      let (asks, l, filled) =
        rounds laws view.look rooted valid sorts ancestors are lists (IsOwed F A view)
          (owes_replies F A view) leaves ns (pos quantity) (with_conn c w) h
          (All-all (owes_leaves F A view quantity) ns) works ka b in
      let first = listing F (pos quantity) ns in
      let said =
        rounds_asks laws view.look rooted valid sorts ancestors are lists (IsOwed F A view)
          (owes_replies F A view) leaves (pos quantity) ns asks in
      let taken = wakes F said in
      let v = with_wakeups [] l.last in
      let ends =
        bootstrap_local_store-at (pos quantity) ns
          (with_wakeups (replied (is_response ns) ∷ taken) w) (with_wakeups taken (with_conn c w)) v
          (listed (pos quantity) ns taken w f).0
          (ap (λ ks. bootstrap_loop F A ns (pos quantity) (with_wakeups ks (with_conn c w)))
              (sym (append-nil taken))
            ∙ l.ends []) in
      let still =
        stays-IsClosed strict (pos quantity) (with_wakeups (replied (is_response ns) ∷ taken) w) v
          ends closed in
      (
        first ∷ said,
        v,
        ends,
        refl,
        (owes_communities F A view quantity, l.owed),
        (written_after F (first ∷ []) said w.conn c l.last.conn wrote l.wrote).1,
        filled,
        All-map
            (λ n done.
              All-map
                (λ leaf.
                  has_ancestors laws.keeps strict view.look v.store leaf (ancestors leaf) rooted.ids
                    alone still (are leaf).lineage)
                (leaves n) done.2)
            ns filled,
      )
