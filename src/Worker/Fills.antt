-- ===== src/Worker/Fills.antt =====
-- BootstrapLocalStore on a store that lacks a community and its messages, with a peer that has them.
use sprout_go.Base.{◌≡◌, ◌≢◌, inl, inr, refl, true, Option, none, some, List, [], ◌∷◌, ◌++◌, All}
use sprout_go.Base.Int.{ℤ}
use sprout_go.Base.Exec.{Result, ok, Exec}
use sprout_go.Base.Errors.{Error, wrapped}
use sprout_go.Forest.{Forest, other}
use sprout_go.Conn.State.{is_response}
use sprout_go.Conn.Send.{Wakeup, replied, send_leaves_of, send_announce, send_subscribe}
use sprout_go.Worker.Store.{Archive}
use sprout_go.Worker.State.{Worker}
use sprout_go.Worker.Handlers.{present_nodes, cons_if_present, subscribe_new}
use sprout_go.Worker.Ingest.{request, add_node, ensure_author_available}
use sprout_go.Worker.Bootstrap.{synchronize_leaves, synchronize_full_tree, bootstrap_community}
use sprout_go.Worker.Lineage.{AreAncestors}
use sprout_go.Worker.Propagates.{ensure_author_of-known}
use sprout_go.Worker.RootFirst.{SortLaws}
use sprout_go.Worker.Gained.{Has, synchronize_leaves-ok}
use sprout_go.Worker.Rooted.{StoreLaws, IsRooted, AreValid, KnowsAuthors, root-IsReady, IsReady-add}
use sprout_go.Worker.Fetched.{adding, add_node-accepts, ready_is_valid}
use sprout_go.Worker.Filled.{Leads, ancestries, synchronize_each}
use sprout_go.Worker.Requests.{
  Exchange, wakes, subscription, leaves_request, announcement, ancestry_request, written_after,
}
use sprout_go.Worker.Woken.{with_wakeups, with_conn, accepted, subscribed, leaves_listed, announced}

-- A store that lists the leaves of each node.
pub record ListsLeaves {F : Forest} (A : Archive F) : Type 0 where
  pub lists : (s : A.Store) (h : F.Hash) → (hs : List F.Hash) × (A.leaves_of s h ≡ ok hs)
  -- it has no nodes of an unknown type
  pub no_other :
      (s : A.Store) (h : F.Hash) (n : F.Node) → A.get s h ≡ ok (some n) → F.shape n ≢ other

-- The replies that a peer owes to the requests of BootstrapLocalStore, but for the lists of nodes.
pub record OwesReplies (F : Forest) (A : Archive F) (look : F.Hash → Option F.Node)
    (ancestors : F.Node → List F.Node) (Owed : Exchange F → Type 0) : Type 0 where
  pub ancestry :
      (n : F.Node)
      → look (F.id n) ≡ some n
      → Owed (ancestry_request F n (A.sort_by F.tree_depth (ancestors n)))
  pub subscribed : (n : F.Node) → Owed (subscription F n)
  pub announced : (ns : List F.Node) → All (λ n. F.shape n ≢ other) ns → Owed (announcement F ns)

module _ {F : Forest} {A : Archive F} (laws : StoreLaws A) where
  open F use {Hash, Node, id, shape, parent_id, null_hash, equals, tree_depth}

  -- The nodes that are announced are what the store has.
  present_nodes-ok :
      (lists : ListsLeaves A) (f : Error → Error) (hs : List Hash) (w : Worker F A)
      → (ns : List Node) × ((ks : List (Wakeup Node))
          → present_nodes F A f hs (with_wakeups ks w) ≡ (ok ns, with_wakeups ks w))
        × All (λ n. shape n ≢ other) ns
  unfolding present_nodes
  present_nodes-ok lists f [] w = ([], (λ ks. refl), tt)
  present_nodes-ok lists f (h ∷ hs) w =
      let (ns, e, known) = present_nodes-ok lists f hs w in
      elim (laws.answers w.store h) [
        | inl g ↦ (cons_if_present F A none ns, (λ ks. rw (g, e)), known)
        | inr (n, g) ↦ (
          cons_if_present F A (some n) ns,
          (λ ks. rw (g, e)),
          (lists.no_other w.store h n g, known),
        )
      ]

  -- The steps of synchronizeFullTree that end without an error.
  synchronize_full_tree-at :
      (root : Node) (max_nodes : ℤ) (leaves ns : List Node) (hs : List Hash) (w w1 w2 : Worker F A)
      {r : Result (Unit {0}) × Worker F A}
      → request F A (send_leaves_of F (id root) max_nodes) w ≡ (ok leaves, w1)
      → A.leaves_of w1.store (id root) ≡ ok hs
      → present_nodes F A (wrapped "couldn't get local node %s: %w") hs w1 ≡ (ok ns, w1)
      → request F A (send_announce F ns) w1 ≡ (ok tt, w2)
      → synchronize_leaves F A leaves w2 ≡ r
      → synchronize_full_tree F A root max_nodes w ≡ r
  unfolding synchronize_full_tree
  synchronize_full_tree-at root max_nodes leaves ns hs w w1 w2 q l p a rest = rw (q, l, p, a) rest

  bootstrap_community-at :
      (n : Node) (max_communities : ℤ) (w w1 w2 : Worker F A) {r : Result (Unit {0}) × Worker F A}
      → ensure_author_available F A n w ≡ (ok tt, w)
      → add_node F A n w ≡ (ok tt, w1)
      → request F A (send_subscribe F n) w1 ≡ (ok tt, w2)
      → synchronize_full_tree F A n max_communities (subscribe_new F A (id n) w2).1 ≡ r
      → bootstrap_community F A n max_communities w ≡ r
  unfolding bootstrap_community subscribe_new
  bootstrap_community-at n max_communities w w1 w2 k a q rest = rw (k, a, q) rest

  module _ (look : Hash → Option Node) (rooted : IsRooted A look) (valid : AreValid A look)
      (sorts : SortLaws A) (ancestors : Node → List Node)
      (are : (n : Node) → AreAncestors F A look (tree_depth n) n (ancestors n))
      (lists : ListsLeaves A) (Owed : Exchange F → Type 0)
      (owes : OwesReplies F A look ancestors Owed) where
    -- The requests of a round, with what the store has to announce, that comes to ask for these
    -- ancestries.
    abbrev pub asked_for : List Node → List (Exchange F)
    asked_for asked = ancestries laws look rooted valid sorts ancestors are Owed owes.ancestry asked

    abbrev pub round_asks : Node → ℤ → List Node → List Node → List Node → List (Exchange F)
    round_asks n quantity leaves local asked =
        subscription F n
        ∷ leaves_request F n quantity leaves
        ∷ announcement F local
        ∷ asked_for asked

    abbrev pub LeadsTo : Exec (Worker F A) (Unit {0}) → List (Exchange F) → Worker F A → Type 0
    LeadsTo m said w = Leads laws look rooted valid sorts ancestors are Owed owes.ancestry m said w

    -- synchronizeFullTree, of a peer that answers.
    full_tree :
        (root : Node) (max_nodes : ℤ) (leaves : List Node) (w : Worker F A)
        → All (λ leaf. look (id leaf) ≡ some leaf) leaves
        → Owed (leaves_request F root max_nodes leaves)
        → w.conn.faults ≡ []
        → KnowsAuthors A look w.store
        → (local : List Node) × (asked : List Node) × (l : LeadsTo
            (synchronize_full_tree F A root max_nodes)
            (leaves_request F root max_nodes leaves ∷ announcement F local ∷ asked_for asked)
            w)
          × All (λ leaf. Has A l.last.store (id leaf)) leaves
    full_tree root max_nodes leaves w h o f a =
        let c1 = (send_leaves_of F (id root) max_nodes (replied (is_response leaves)) w.conn).1 in
        let w1 = with_conn c1 w in
        let (hs, l) = lists.lists w.store (id root) in
        let (ns, p, known) =
          present_nodes-ok lists (wrapped "couldn't get local node %s: %w") hs w1 in
        let (_, f1, wrote1) = leaves_listed root max_nodes leaves [] w f in
        let c2 = (send_announce F ns accepted c1).1 in
        let w2 = with_conn c2 w in
        let (_, f2, wrote2) = announced ns [] w1 f1 in
        let (asked, each) =
          synchronize_each laws look rooted valid sorts ancestors are Owed owes.ancestry leaves w2 h
            f2 a in
        (
          ns,
          asked,
          record {
            last = each.last;
            works = each.works;
            authors = each.authors;
            wrote =
                written_after F (leaves_request F root max_nodes leaves ∷ [])
                  (announcement F ns ∷ asked_for asked) w.conn c1 each.last.conn wrote1
                  (written_after F (announcement F ns ∷ []) (asked_for asked) c1 c2 each.last.conn
                    wrote2 each.wrote);
            owed = (o, (owes.announced ns known, each.owed));
            ends = λ ks.
                let later = wakes F (asked_for asked) ++ ks in
                synchronize_full_tree-at root max_nodes leaves ns hs
                  (with_wakeups (replied (is_response leaves) ∷ accepted ∷ later) w)
                  (with_wakeups (accepted ∷ later) w1) (with_wakeups later w2)
                  (leaves_listed root max_nodes leaves (accepted ∷ later) w f).0 l
                  (p (accepted ∷ later)) (announced ns later w1 f1).0 (each.ends ks);
          },
          synchronize_leaves-ok laws.keeps leaves
              (with_wakeups (wakes F (asked_for asked) ++ []) w2) (with_wakeups [] each.last)
              (each.ends []),
        )

    -- The round of BootstrapLocalStore, of a peer that answers.
    pub round :
        (n : Node) (max_communities : ℤ) (leaves : List Node) (w : Worker F A)
        → look (id n) ≡ some n
        → equals (parent_id n) null_hash ≡ true
        → All (λ leaf. look (id leaf) ≡ some leaf) leaves
        → Owed (leaves_request F n max_communities leaves)
        → w.conn.faults ≡ []
        → KnowsAuthors A look w.store
        → (local : List Node) × (asked : List Node) × (l : LeadsTo
            (bootstrap_community F A n max_communities)
            (round_asks n max_communities leaves local asked)
            w)
          × All (λ leaf. Has A l.last.store (id leaf)) leaves
    unfolding subscribe_new ensure_author_available
    round n max_communities leaves w l t h o f a =
        let ready = root-IsReady A look (id n) n w.store rooted l a t in
        let d = ready_is_valid laws look rooted valid (id n) n [] w.store l ready in
        let w1 = adding laws n w in
        let c = (send_subscribe F n accepted w.conn).1 in
        let w2 = (subscribe_new F A (id n) (with_conn c w1)).1 in
        let a2 = (IsReady-add A laws look n n w.subscription_id [] w.store ready).authors in
        let (_, works, wrote) = subscribed n [] w f in
        let (local, asked, tree, all) = full_tree n max_communities leaves w2 h o works a2 in
        let rest =
          leaves_request F n max_communities leaves ∷ announcement F local ∷ asked_for asked in
        (
          local,
          asked,
          record {
            last = tree.last;
            works = tree.works;
            authors = tree.authors;
            wrote =
                written_after F (subscription F n ∷ []) rest w.conn c tree.last.conn wrote
                  tree.wrote;
            owed = (owes.subscribed n, tree.owed);
            ends = λ ks.
                let later = wakes F rest ++ ks in
                bootstrap_community-at n max_communities (with_wakeups (accepted ∷ later) w)
                  (with_wakeups (accepted ∷ later) w1) (with_wakeups later (with_conn c w1))
                  (ensure_author_of-known F A (shape n) (with_wakeups (accepted ∷ later) w)
                    (a (id n) n l))
                  (add_node-accepts laws n (with_wakeups (accepted ∷ later) w) d)
                  (subscribed n later w1 f).0 (tree.ends ks);
          },
          all,
        )
