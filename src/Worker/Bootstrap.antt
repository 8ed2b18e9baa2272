-- ===== src/Worker/Bootstrap.antt =====
-- BootstrapLocalStore and synchronizeFullTree.
use sprout_go.Base.{Option, none, some, List, [], ◌∷◌, ◌++◌}
use sprout_go.Base.Int.{ℤ, pos}
use sprout_go.Base.Exec.{Exec, pure, rethrow, ◌>>=◌, ◌>>◌}
use sprout_go.Base.Errors.{opaque, wrapped}
use sprout_go.Forest.{Forest, Shape, community}
use sprout_go.Conn.Send.{send_list, send_leaves_of, send_ancestry, send_announce, send_subscribe}
use sprout_go.Worker.Store.{Archive}
use sprout_go.Worker.State.{Worker, from_store}
use sprout_go.Worker.Handlers.{present_nodes, subscribe_new}
use sprout_go.Worker.Ingest.{request, validate, add_node, ensure_author_available, logged}

module _ (F : Forest) (A : Archive F) where
  open F use {Hash, Node, id, shape, tree_depth, node_type_community}
  open A use {get, leaves_of, sort_by}

  -- The inner loop of synchronizeFullTree, over the ancestry of a leaf and the leaf.
  unfoldable pub add_all : List Node → Exec (Worker F A) (Unit {0})
  add_all [] = pure tt
  add_all (n ∷ ns) = do
    rethrow (wrapped "couldn't fetch author for node %s: %w") (ensure_author_available F A n)
    rethrow (wrapped "couldn't validate node %s: %w") (validate F A n)
    rethrow (wrapped "couldn't add node %s to store: %w") (add_node F A n)
    add_all ns

  -- The body of its outer loop: a leaf that the store has is passed over.
  unfoldable pub synchronize_leaf : Node → Option Node → Exec (Worker F A) (Unit {0})
  synchronize_leaf leaf (some old) = pure tt
  synchronize_leaf leaf none = do
    ancestry ←
        rethrow (opaque "couldn't fetch ancestry of node %s: %v")
          (request F A (send_ancestry F (id leaf) (pos (tree_depth leaf))))
    add_all (sort_by tree_depth ancestry ++ leaf ∷ [])

  unfoldable pub synchronize_leaves : List Node → Exec (Worker F A) (Unit {0})
  synchronize_leaves [] = pure tt
  synchronize_leaves (leaf ∷ leaves) = do
    found ←
        rethrow (wrapped "failed checking if we already have leaf node %s: %w")
          (from_store F A (λ s. get s (id leaf)))
    synchronize_leaf leaf found
    synchronize_leaves leaves

  -- synchronizeFullTree
  unfoldable pub synchronize_full_tree : Node → ℤ → Exec (Worker F A) (Unit {0})
  synchronize_full_tree root max_nodes = do
    leaf_list ←
        rethrow (wrapped "couldn't fetch leaves of node %s: %w")
          (request F A (send_leaves_of F (id root) max_nodes))
    local_leaves ←
        rethrow (wrapped "couldn't list local leaves of node %s: %w")
          (from_store F A (λ s. leaves_of s (id root)))
    local_leaf_nodes ← present_nodes F A (wrapped "couldn't get local node %s: %w") local_leaves
    rethrow (wrapped "failed announcing available local nodes: %w")
        (request F A (send_announce F local_leaf_nodes))
    synchronize_leaves leaf_list

  -- What the loop of BootstrapLocalStore does with one community. Each step that fails is logged and
  -- ends the round.
  unfoldable pub bootstrap_community : Node → ℤ → Exec (Worker F A) (Unit {0})
  bootstrap_community n max_communities = do
    ensure_author_available F A n
    add_node F A n
    request F A (send_subscribe F n)
    subscribe_new F A (id n)
    synchronize_full_tree n max_communities

  -- The type assertion.
  unfoldable pub bootstrap_node : Shape Hash → Node → ℤ → Exec (Worker F A) (Unit {0})
  bootstrap_node (community author) n max_communities = bootstrap_community n max_communities
  bootstrap_node _ n max_communities = pure tt

  unfoldable pub bootstrap_loop : List Node → ℤ → Exec (Worker F A) (Unit {0})
  bootstrap_loop [] max_communities = pure tt
  bootstrap_loop (n ∷ ns) max_communities = do
    λ w. logged F A (bootstrap_node (shape n) n max_communities w)
    bootstrap_loop ns max_communities

  -- BootstrapLocalStore; it returns no error.
  unfoldable pub bootstrap_local_store : ℤ → Exec (Worker F A) (Unit {0})
  bootstrap_local_store max_communities w = logged F A (
      (request F A (send_list node_type_community max_communities) >>= λ communities.
      bootstrap_loop communities max_communities)
        w)
