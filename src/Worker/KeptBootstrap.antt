-- ===== src/Worker/KeptBootstrap.antt =====
-- What BootstrapLocalStore keeps true of the store.
use sprout_go.Base.{ℕ, ◌≡◌, refl, List, [], ◌∷◌}
use sprout_go.Base.Int.{ℤ}
use sprout_go.Forest.{Forest, Shape, identity, community, reply, other}
use sprout_go.Worker.Store.{Archive}
use sprout_go.Worker.State.{Worker}
use sprout_go.Worker.Ingest.{add_node}
use sprout_go.Worker.Bootstrap.{
  bootstrap_community, bootstrap_node, bootstrap_loop, bootstrap_local_store,
}
use sprout_go.Worker.Keeps.{
  IsKeptBySubscribe, subscribe_new-Keeps, Always, subscribed-Always, IsKeptByValid,
  IsKeptByCommunity, Held, Keeps, request-Keeps, logged-Keeps,
}
use sprout_go.Base.Preserves.{Preserves-lift, Preserves-bind, Preserves-then}
use sprout_go.Session.{Session}
use sprout_go.Conn.State.{Conn}
use sprout_go.Conn.Kept.{
  IsKeptByWrites, IsKeptByReplies, IsKeptByRequests, Anything, written-Anything, delivered-Anything,
  requested-Anything,
}
use sprout_go.Conn.KeptSends.{send_list-Preserves, send_subscribe-Preserves}
use sprout_go.Worker.KeptNode.{ensure_author_available-Keeps}
use sprout_go.Worker.Kept.{synchronize_full_tree-Keeps}

module _ {F : Forest} {A : Archive F} (Q : Conn F.Node → Type 0) (P : A.Store → Type 0)
    (R : Session F.Hash → ℕ → Type 0) (written : IsKeptByWrites Q) (replied : IsKeptByReplies Q)
    (requested : IsKeptByRequests Q) (kept : IsKeptByValid F A P) (kept' : IsKeptByCommunity F A P)
    (subscribed : IsKeptBySubscribe F.Hash R) where
  add_community-Keeps :
      (n : F.Node) (author : F.Hash) → F.shape n ≡ community author → Keeps Q P R (add_node F A n)
  unfolding add_node
  add_community-Keeps n author e = record {
    preserves = λ w (q, p, r). (q, kept'.add_community w.store n author w.subscription_id p e, r);
  }

  pub bootstrap_community-Keeps :
      (n : F.Node) (author : F.Hash) (max_communities : ℤ)
      → F.shape n ≡ community author
      → Keeps Q P R (bootstrap_community F A n max_communities)
  unfolding bootstrap_community
  bootstrap_community-Keeps n author max_communities e =
      Preserves-then _ (ensure_author_available-Keeps Q P R written replied requested kept n) (
        Preserves-then _ (add_community-Keeps n author e) (
          Preserves-then _
            (request-Keeps Q P R (send_subscribe-Preserves F Q written replied requested _))
            (Preserves-then _ (subscribe_new-Keeps Q P R subscribed (F.id n)) (
              synchronize_full_tree-Keeps Q P R written replied requested kept n max_communities))))

  bootstrap_node-Keeps :
      (s : Shape F.Hash) (n : F.Node) (max_communities : ℤ)
      → F.shape n ≡ s
      → Keeps Q P R (bootstrap_node F A s n max_communities)
  unfolding bootstrap_node
  bootstrap_node-Keeps (community author) n max_communities e =
      bootstrap_community-Keeps n author max_communities e
  bootstrap_node-Keeps identity n max_communities e = Preserves-lift _ _
  bootstrap_node-Keeps (reply author h) n max_communities e = Preserves-lift _ _
  bootstrap_node-Keeps other n max_communities e = Preserves-lift _ _

  pub bootstrap_loop-Keeps :
      (ns : List F.Node) (max_communities : ℤ) → Keeps Q P R (bootstrap_loop F A ns max_communities)
  unfolding bootstrap_loop
  bootstrap_loop-Keeps [] max_communities = Preserves-lift _ _
  bootstrap_loop-Keeps (n ∷ ns) max_communities =
      Preserves-then _
        (logged-Keeps Q P R (bootstrap_node-Keeps (F.shape n) n max_communities refl))
        (bootstrap_loop-Keeps ns max_communities)

  pub bootstrap_local_store-Keeps :
      (max_communities : ℤ) → Keeps Q P R (bootstrap_local_store F A max_communities)
  unfolding bootstrap_local_store
  bootstrap_local_store-Keeps max_communities = logged-Keeps Q P R (
      Preserves-bind (Held Q P R)
        (request-Keeps Q P R (send_list-Preserves F Q written replied requested _ _))
        (λ ns. bootstrap_loop-Keeps ns max_communities))

module _ {F : Forest} {A : Archive F} (P : A.Store → Type 0) (kept : IsKeptByValid F A P)
    (kept' : IsKeptByCommunity F A P) where
  -- While BootstrapLocalStore runs, what holds of the store stays true if adding a node that
  -- validates against the store keeps it true, and so does adding a community that was not
  -- validated.
  pub bootstrap_local_store-kept :
      (max_communities : ℤ) (w : Worker F A)
      → P w.store
      → P (bootstrap_local_store F A max_communities w).1.store
  bootstrap_local_store-kept max_communities w h =
      ((bootstrap_local_store-Keeps Anything P Always written-Anything delivered-Anything
          requested-Anything kept kept' subscribed-Always max_communities).preserves
        w (tt, h, tt)).1
