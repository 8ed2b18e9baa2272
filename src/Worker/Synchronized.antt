-- ===== src/Worker/Synchronized.antt =====
-- What synchronizeFullTree, and the round of BootstrapLocalStore for a community, have done when they
-- end without an error.
use sprout_go.Base.{◌≡◌, true, Eq, List, All}
use sprout_go.Base.Int.{ℤ}
use sprout_go.Base.Exec.{ok, Exec, rethrow, ◌>>◌}
use sprout_go.Forest.{Forest}
use sprout_go.Conn.Kept.{Anything, written-Anything, delivered-Anything, requested-Anything}
use sprout_go.Conn.Send.{send_leaves_of, send_announce, send_subscribe}
use sprout_go.Session.{is_subscribed}
use sprout_go.Worker.Subscribed.{AddressesBelow}
use sprout_go.Worker.Bootstrapped.{bootstrap_community-subscribes}
use sprout_go.Worker.Store.{Archive}
use sprout_go.Worker.State.{Worker, from_store}
use sprout_go.Worker.Handlers.{present_nodes, subscribe_new}
use sprout_go.Worker.Ingest.{request, add_node, ensure_author_available}
use sprout_go.Worker.Bootstrap.{synchronize_full_tree, bootstrap_community}
use sprout_go.Worker.Keeps.{Always, subscribed-Always, request-Keeps, subscribe_new-Keeps}
use sprout_go.Conn.KeptSends.{send_subscribe-Preserves}
use sprout_go.Worker.Kept.{synchronize_full_tree-Keeps}
use sprout_go.Worker.Ingested.{continue-ok, continue-at, on_error-ok}
use sprout_go.Worker.Gained.{
  Has, KeepsNodes, Has-IsKeptByValid, kept-Has, taken-Has, synchronize_leaves-ok,
}

module _ {F : Forest} (A : Archive F) where
  -- What a round of BootstrapLocalStore does before it asks for leaves.
  abbrev pub until_subscribed : F.Node → Exec (Worker F A) (Unit {0})
  until_subscribed n = do
    ensure_author_available F A n
    add_node F A n
    request F A (send_subscribe F n)
    subscribe_new F A (F.id n)

module _ {F : Forest} {A : Archive F} (laws : KeepsNodes A) where
  open F use {Hash, Node, id, tree_depth}

  -- If synchronizeFullTree ends without an error, then the peer has answered the request for the
  -- leaves of the root, and the store has each of the leaves that it has answered with. The store
  -- must have a node from when it has taken it, and lose none of the others when a node is added.
  pub synchronize_full_tree-ok :
      (root : Node) (max_nodes : ℤ) (w w' : Worker F A)
      → synchronize_full_tree F A root max_nodes w ≡ (ok tt, w')
      → (leaves : List Node) × (v : Worker F A) × (request F A
            (send_leaves_of F (id root) max_nodes)
            w
          ≡ (ok leaves, v))
        × All (λ leaf. Has A w'.store (id leaf)) leaves
  unfolding synchronize_full_tree
  synchronize_full_tree-ok root max_nodes w w' h =
      let (leaves, w1, h1, r1) =
        continue-ok (rethrow _ (request F A (send_leaves_of F (id root) max_nodes)) w) _ tt w' h in
      let (local_leaves, w2, _, r2) =
        continue-ok (rethrow _ (from_store F A (λ s. A.leaves_of s (id root))) w1) _ tt w' r1 in
      let (local_leaf_nodes, w3, _, r3) =
        continue-ok (present_nodes F A _ local_leaves w2) _ tt w' r2 in
      let (_, w4, _, r4) =
        continue-ok (rethrow _ (request F A (send_announce F local_leaf_nodes)) w3) _ tt w' r3 in
      (
        leaves,
        w1,
        on_error-ok _ (request F A (send_leaves_of F (id root) max_nodes) w) leaves w1 h1,
        synchronize_leaves-ok laws leaves w4 w' r4,
      )

  bootstrapped :
      (n : Node) (max_communities : ℤ) (w w' : Worker F A)
      → bootstrap_community F A n max_communities w ≡ (ok tt, w')
      → Has A w'.store (id n)
        × ((leaves : List Node) × (u : Worker F A) × (v : Worker F A) × (until_subscribed A n w
              ≡ (ok tt, u))
            × (request F A (send_leaves_of F (id n) max_communities) u ≡ (ok leaves, v))
            × All (λ leaf. Has A w'.store (id leaf)) leaves)
  unfolding bootstrap_community
  bootstrapped n max_communities w w' h =
      let (_, w1, h1, r1) = continue-ok (ensure_author_available F A n w) _ tt w' h in
      let (_, w2, h2, r2) = continue-ok (add_node F A n w1) _ tt w' r1 in
      let (_, w3, h3, r3) = continue-ok (request F A (send_subscribe F n) w2) _ tt w' r2 in
      let (_, w4, h4, r4) = continue-ok (subscribe_new F A (id n) w3) _ tt w' r3 in
      let (leaves, v, asked, stored) = synchronize_full_tree-ok n max_communities w4 w' r4 in
      (
        kept-Has laws (id n) w4 w' tt
            (synchronize_full_tree-Keeps Anything (λ s. Has A s (id n)) Always written-Anything
              delivered-Anything requested-Anything (Has-IsKeptByValid laws (id n)) n
              max_communities)
            r4
            (kept-Has laws (id n) w3 w4 tt
              (subscribe_new-Keeps Anything (λ s. Has A s (id n)) Always subscribed-Always (id n))
              h4
              (kept-Has laws (id n) w2 w3 tt
                (request-Keeps Anything (λ s. Has A s (id n)) Always
                  (send_subscribe-Preserves F Anything written-Anything delivered-Anything
                    requested-Anything n))
                h3 (taken-Has laws n w1 w2 h2))),
        (
          leaves,
          w4,
          v,
          continue-at _ tt w1 h1 (continue-at _ tt w2 h2 (continue-at _ tt w3 h3 h4)),
          asked,
          stored,
        ),
      )

  -- If the round of BootstrapLocalStore for a community ends without an error, then the community is
  -- subscribed, the peer has answered the request for its leaves that followed, and the store has
  -- the community and each of those leaves. The store must have a node from when it has taken it,
  -- and lose none of the others when a node is added. The pointers in the session were all given
  -- before.
  pub bootstrap_community-stores :
      ⦃e : Eq Hash⦄ (n : Node) (max_communities : ℤ) (w w' : Worker F A)
      → AddressesBelow w.addresses w.session.communities
      → bootstrap_community F A n max_communities w ≡ (ok tt, w')
      → (is_subscribed (id n) w'.session ≡ true)
        × Has A w'.store (id n)
        × ((leaves : List Node) × (u : Worker F A) × (v : Worker F A) × (until_subscribed A n w
              ≡ (ok tt, u))
            × (request F A (send_leaves_of F (id n) max_communities) u ≡ (ok leaves, v))
            × All (λ leaf. Has A w'.store (id leaf)) leaves)
  bootstrap_community-stores n max_communities w w' b h =
      let (has, leaves) = bootstrapped n max_communities w w' h in
      (bootstrap_community-subscribes n max_communities w w' b h, has, leaves)
