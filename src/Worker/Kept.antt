-- ===== src/Worker/Kept.antt =====
-- What IngestNode and synchronizeFullTree keep true of the store.
use sprout_go.Base.{ℕ, Option, none, some, List, [], ◌∷◌, ◌++◌}
use sprout_go.Base.Int.{ℤ}
use sprout_go.Base.Errors.{Error}
use sprout_go.Forest.{Forest}
use sprout_go.Worker.Store.{Archive}
use sprout_go.Worker.State.{Worker}
use sprout_go.Worker.Handlers.{present_nodes}
use sprout_go.Worker.Ingest.{ingest_node}
use sprout_go.Worker.Bootstrap.{
  add_all, synchronize_leaf, synchronize_leaves, synchronize_full_tree,
}
use sprout_go.Worker.Keeps.{
  Always, IsKeptByValid, Keeps, request-Keeps, from_store-Keeps, add_validated_then-Keeps,
}
use sprout_go.Base.Preserves.{Preserves-lift, Preserves-bind, Preserves-then, Preserves-rethrow}
use sprout_go.Session.{Session}
use sprout_go.Conn.State.{Conn}
use sprout_go.Conn.Kept.{
  IsKeptByWrites, IsKeptByReplies, IsKeptByRequests, Anything, written-Anything, delivered-Anything,
  requested-Anything,
}
use sprout_go.Conn.KeptSends.{
  send_ancestry-Preserves, send_leaves_of-Preserves, send_announce-Preserves,
}
use sprout_go.Worker.KeptNode.{ensure_author_available-Keeps, ingest_node-Keeps}

module _ {F : Forest} {A : Archive F} (Q : Conn F.Node → Type 0) (P : A.Store → Type 0)
    (R : Session F.Hash → ℕ → Type 0) (written : IsKeptByWrites Q) (replied : IsKeptByReplies Q)
    (requested : IsKeptByRequests Q) (kept : IsKeptByValid F A P) where
  pub add_all-Keeps : (ns : List F.Node) → Keeps Q P R (add_all F A ns)
  unfolding add_all
  add_all-Keeps [] = Preserves-lift _ _
  add_all-Keeps (n ∷ ns) =
      Preserves-then _
        (Preserves-rethrow _ _
          (ensure_author_available-Keeps Q P R written replied requested kept n))
        (add_validated_then-Keeps Q P R kept _ _ n (add_all-Keeps ns))

  pub synchronize_leaf-Keeps :
      (leaf : F.Node) (found : Option F.Node) → Keeps Q P R (synchronize_leaf F A leaf found)
  unfolding synchronize_leaf
  synchronize_leaf-Keeps leaf (some old) = Preserves-lift _ _
  synchronize_leaf-Keeps leaf none =
      Preserves-bind _
        (Preserves-rethrow _ _
          (request-Keeps Q P R (send_ancestry-Preserves F Q written replied requested _ _)))
        (λ ancestry. add_all-Keeps (A.sort_by F.tree_depth ancestry ++ leaf ∷ []))

  pub synchronize_leaves-Keeps : (ns : List F.Node) → Keeps Q P R (synchronize_leaves F A ns)
  unfolding synchronize_leaves
  synchronize_leaves-Keeps [] = Preserves-lift _ _
  synchronize_leaves-Keeps (n ∷ ns) =
      Preserves-bind _ (Preserves-rethrow _ _ (from_store-Keeps Q P R _))
        (λ found. Preserves-then _ (synchronize_leaf-Keeps n found) (synchronize_leaves-Keeps ns))

  pub present_nodes-Keeps :
      (f : Error → Error) (hs : List F.Hash) → Keeps Q P R (present_nodes F A f hs)
  unfolding present_nodes
  present_nodes-Keeps f [] = Preserves-lift _ _
  present_nodes-Keeps f (h ∷ hs) =
      Preserves-bind _ (Preserves-rethrow _ _ (from_store-Keeps Q P R _))
        (λ found. Preserves-bind _ (present_nodes-Keeps f hs) (λ rest. Preserves-lift _ _))

  pub synchronize_full_tree-Keeps :
      (root : F.Node) (max_nodes : ℤ) → Keeps Q P R (synchronize_full_tree F A root max_nodes)
  unfolding synchronize_full_tree
  synchronize_full_tree-Keeps root max_nodes =
      Preserves-bind _
        (Preserves-rethrow _ _
          (request-Keeps Q P R (send_leaves_of-Preserves F Q written replied requested _ _)))
        (λ leaves.
          Preserves-bind _ (Preserves-rethrow _ _ (from_store-Keeps Q P R _)) (λ local_leaves.
            Preserves-bind _ (present_nodes-Keeps _ local_leaves) (λ local_leaf_nodes.
              Preserves-then _
                (Preserves-rethrow _ _
                  (request-Keeps Q P R (send_announce-Preserves F Q written replied requested _)))
                (synchronize_leaves-Keeps leaves))))

module _ {F : Forest} {A : Archive F} (P : A.Store → Type 0) (kept : IsKeptByValid F A P) where
  -- While IngestNode runs, with or without an error, what holds of the store stays true if adding a
  -- node that validates against the store keeps it true.
  ingest_node-kept : (n : F.Node) (w : Worker F A) → P w.store → P (ingest_node F A n w).1.store
  ingest_node-kept n = λ w h.
      ((ingest_node-Keeps Anything P Always written-Anything delivered-Anything requested-Anything
          kept n).preserves
        w (tt, h, tt)).1

  -- While synchronizeFullTree runs, with or without an error, what holds of the store stays true if
  -- adding a node that validates against the store keeps it true.
  synchronize_full_tree-kept :
      (root : F.Node) (max_nodes : ℤ) (w : Worker F A)
      → P w.store
      → P (synchronize_full_tree F A root max_nodes w).1.store
  synchronize_full_tree-kept root max_nodes = λ w h.
      ((synchronize_full_tree-Keeps Anything P Always written-Anything delivered-Anything
          requested-Anything kept root max_nodes).preserves
        w (tt, h, tt)).1
