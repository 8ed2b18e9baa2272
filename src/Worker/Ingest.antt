-- ===== src/Worker/Ingest.antt =====
-- IngestNode and ensureAuthorAvailable, and the goroutine of HandleNewNode.
use sprout_go.Base.{Option, none, some, List, [], ◌∷◌, if◌then◌else◌, Eq}
use sprout_go.Base.Int.{pos}
use sprout_go.Base.Exec.{Result, ok, err, panics, Exec, pure, raise, panic, rethrow, ◌>>=◌, ◌>>◌}
use sprout_go.Base.Errors.{message, wrapped}
use sprout_go.Forest.{Forest, Shape, identity, community, reply, other}
use sprout_go.Session.{is_subscribed}
use sprout_go.Conn.State.{Conn}
use sprout_go.Conn.Send.{Wakeup, timed_out, send_query, send_ancestry, send_announce}
use sprout_go.Worker.Store.{Archive}
use sprout_go.Worker.State.{Worker, on_wire, from_store}

module _ (F : Forest) (A : Archive F) where
  open F use {Hash, Node, id, shape, tree_depth}
  open A use {Store, get, get_identity, add_as, validate_deep}

  abbrev pub first_wakeup : List (Wakeup Node) → Wakeup Node
  first_wakeup [] = timed_out
  first_wakeup (k ∷ ks) = k

  abbrev pub later_wakeups : List (Wakeup Node) → List (Wakeup Node)
  later_wakeups [] = []
  later_wakeups (k ∷ ks) = ks

  -- A synchronous request. Each one takes its own wake-up, also if it cannot be written.
  unfoldable pub request {ℓ} :
      {B : Type ℓ} → (Wakeup Node → Exec (Conn Node) B) → Exec (Worker F A) B
  request op w =
      on_wire F A (op (first_wakeup w.wakeups)) (record w { wakeups = later_wakeups w.wakeups })

  -- node.ValidateDeep(c.SubscribableStore)
  unfoldable pub validate : Node → Exec (Worker F A) (Unit {0})
  validate n = from_store F A (λ s. validate_deep s n)

  -- c.SubscribableStore.AddAs(node, c.subscriptionID)
  unfoldable pub add_node : Node → Exec (Worker F A) (Unit {0})
  add_node n w = let (r, s) = add_as n w.subscription_id w.store in (r, record w { store = s })

  -- The end of ensureAuthorAvailable, of the nodes that the peer answered with.
  unfoldable pub add_author : List Node → Exec (Worker F A) (Unit {0})
  add_author (author ∷ []) = do
    rethrow (wrapped "unable to validate author %s: %w") (validate author)
    rethrow (wrapped "failed inserting new valid author %s into store: %w") (add_node author)
  add_author _ = raise (message "query for single author id %s returned %d nodes")

  unfoldable pub fetch_author : Hash → Option Node → Exec (Worker F A) (Unit {0})
  fetch_author author_id (some author) = pure tt
  fetch_author author_id none = do
    nodes ←
        rethrow (wrapped "failed querying for author %s: %w")
          (request (send_query F (author_id ∷ [])))
    add_author nodes

  unfoldable pub ensure_author : Hash → Exec (Worker F A) (Unit {0})
  ensure_author author_id = do
    found ←
        rethrow (wrapped "failed looking for author id %s in store: %w")
          (from_store F A (λ s. get_identity s author_id))
    fetch_author author_id found

  -- The type switch of ensureAuthorAvailable.
  unfoldable pub ensure_author_of : Shape Hash → Exec (Worker F A) (Unit {0})
  ensure_author_of identity = pure tt
  ensure_author_of (community author) = ensure_author author
  ensure_author_of (reply author community_id) = ensure_author author
  ensure_author_of other = raise (message "unsupported type in ensureAuthorAvailable: %T")

  -- ensureAuthorAvailable
  unfoldable pub ensure_author_available : Node → Exec (Worker F A) (Unit {0})
  ensure_author_available n = ensure_author_of (shape n)

  -- The body of the loop of IngestNode: an ancestor that the store has is passed over.
  unfoldable pub ingest_ancestor : Node → Option Node → Exec (Worker F A) (Unit {0})
  ingest_ancestor n (some old) = pure tt
  ingest_ancestor n none = do
    rethrow (wrapped "validation unable to fetch author for ancestor %s: %w")
        (ensure_author_available n)
    rethrow (wrapped "validation failed for ancestor %s: %w") (validate n)
    rethrow (wrapped "failed inserting ancestory %s into store: %w") (add_node n)

  unfoldable pub ingest_ancestors : List Node → Exec (Worker F A) (Unit {0})
  ingest_ancestors [] = pure tt
  ingest_ancestors (n ∷ ns) = do
    found ←
        rethrow (wrapped "unable to check whether %s is in local store: %w")
          (from_store F A (λ s. get s (id n)))
    ingest_ancestor n found
    ingest_ancestors ns

  -- What IngestNode does if the node does not validate at once.
  unfoldable pub fetch_ancestry : Node → Exec (Worker F A) (Unit {0})
  fetch_ancestry n = do
    ancestry ←
        rethrow (wrapped "validation unable to fetch ancestry for node %s: %w")
          (request (send_ancestry F (id n) (pos (tree_depth n))))
    ingest_ancestors ancestry
    rethrow (wrapped "failed validating %s after fetching ancestry: %w") (validate n)

  abbrev pub validate_or_fetch : Result (Unit {0}) → Node → Exec (Worker F A) (Unit {0})
  validate_or_fetch (ok u) n = pure tt
  validate_or_fetch (err e) n = fetch_ancestry n
  validate_or_fetch panics n = panic

  -- IngestNode
  unfoldable pub ingest_node : Node → Exec (Worker F A) (Unit {0})
  ingest_node n = do
    ensure_author_available n
    λ w. validate_or_fetch (validate_deep w.store n) n w
    add_node n

  -- A call whose error is only logged; a run-time panic goes through.
  abbrev pub logged : Result (Unit {0}) × Worker F A → Result (Unit {0}) × Worker F A
  logged (ok u, w) = (ok u, w)
  logged (err e, w) = (ok tt, w)
  logged (panics, w) = (panics, w)

  unfoldable pub announce_one : Node → Exec (Worker F A) (Unit {0})
  announce_one n w = logged (request (send_announce F (n ∷ [])) w)

  module _ ⦃e : Eq Hash⦄ where
    -- The case of a reply: it is announced if its community is subscribed.
    unfoldable pub announce_reply : Hash → Node → Exec (Worker F A) (Unit {0})
    announce_reply community_id n w =
        if is_subscribed community_id w.session then announce_one n w else (ok tt, w)

    -- The type switch of HandleNewNode.
    unfoldable pub announce_by_shape : Shape Hash → Node → Exec (Worker F A) (Unit {0})
    announce_by_shape identity n = announce_one n
    announce_by_shape (community author) n = announce_one n
    announce_by_shape (reply author community_id) n = announce_reply community_id n
    announce_by_shape other n = pure tt

    -- The goroutine that HandleNewNode starts.
    unfoldable pub handle_new_node : Node → Exec (Worker F A) (Unit {0})
    handle_new_node n = announce_by_shape (shape n) n
