-- ===== src/Worker/Filled.antt =====
-- The loops of synchronizeFullTree on a store that lacks nodes, once the peer has answered: they end
-- without an error.
use sprout_go.Base.{
  ◌≡◌, ◌∙◌, inl, inr, refl, ap, true, Option, none, some, List, [], ◌∷◌, ◌++◌, All,
}
use sprout_go.Base.Int.{pos}
use sprout_go.Base.Exec.{Result, ok, rethrow, on_error, Exec}
use sprout_go.Base.Sorted.{turned_round, Shuffles-IsRising, turned_round-IsRising}
use sprout_go.Forest.{Forest}
use sprout_go.Conn.State.{is_response}
use sprout_go.Conn.Send.{Wakeup, replied, send_ancestry}
use sprout_go.Worker.Store.{Archive}
use sprout_go.Worker.State.{Worker}
use sprout_go.Worker.Ingest.{validate, add_node, ensure_author_available}
use sprout_go.Worker.Bootstrap.{add_all, synchronize_leaf, synchronize_leaves}
use sprout_go.Worker.Ingested.{continue-ok, continue-at}
use sprout_go.Worker.Lineage.{IsLineage, top, AreAncestors}
use sprout_go.Worker.Propagates.{ensure_author_of-known}
use sprout_go.Worker.Rooted.{
  StoreLaws, IsRooted, AreValid, KnowsAuthors, IsReady, next-IsReady, root-IsReady, IsReady-add,
  top_is_root,
}
use sprout_go.Worker.Requests.{
  Exchange, wakes, Wrote, ancestry_request, nothing_written, written_after,
}
use sprout_go.Worker.Woken.{with_wakeups, with_store, with_conn, ancestry_answered}
use sprout_go.Worker.RootFirst.{SortLaws, lineage-IsFalling}
use sprout_go.Worker.CaughtUp.{whole, sorted_ancestors}
use sprout_go.Worker.Fetched.{adding, add_node-accepts, adding-Has, ready_is_valid}

module _ {F : Forest} {A : Archive F} (laws : StoreLaws A) (look : F.Hash → Option F.Node)
    (rooted : IsRooted A look) (valid : AreValid A look) where
  open F use {Hash, Node, id, shape, parent_id, null_hash, equals, tree_depth}

  -- The next node of a lineage is added, whether or not the store has it.
  add_next :
      (h : Hash) (n : Node) (ps : List Node) (w : Worker F A)
      → look h ≡ some n
      → IsReady A look n ps w.store
      → add_all F A (n ∷ []) w ≡ (ok tt, adding laws n w)
  unfolding add_all ensure_author_available validate
  add_next h n ps w l i = rw (
    ensure_author_of-known F A (shape n) w (i.authors h n l),
    ready_is_valid laws look rooted valid h n ps w.store l i,
    add_node-accepts laws n w (ready_is_valid laws look rooted valid h n ps w.store l i),
  )

  add_all-append :
      (ns ms : List Node) (w v : Worker F A)
      → add_all F A ns w ≡ (ok tt, v)
      → add_all F A (ns ++ ms) w ≡ add_all F A ms v
  unfolding add_all
  add_all-append [] ms w v e = ap (λ (p : Result (Unit {0}) × Worker F A). add_all F A ms p.1) e
  add_all-append (n ∷ ns) ms w v e =
      let (_, w1, h1, r1) = continue-ok (rethrow _ (ensure_author_available F A n) w) _ tt v e in
      let (_, w2, h2, r2) = continue-ok (rethrow _ (validate F A n) w1) _ tt v r1 in
      let (_, w3, h3, r3) = continue-ok (rethrow _ (add_node F A n) w2) _ tt v r2 in
      continue-at _ tt w1 h1
        (continue-at _ tt w2 h2 (continue-at _ tt w3 h3 (add_all-append ns ms w3 v r3)))

  -- A lineage is added from the root down, whatever wakes the worker later.
  add_lineage :
      (h : Hash) (n : Node) (ps : List Node) (w : Worker F A)
      → look h ≡ some n
      → IsLineage F A look n ps
      → equals (parent_id (top F A n ps)) null_hash ≡ true
      → KnowsAuthors A look w.store
      → (s : A.Store) × ((ks : List (Wakeup Node))
          → add_all F A (turned_round ps) (with_wakeups ks w)
            ≡ (ok tt, with_wakeups ks (with_store s w)))
        × IsReady A look n ps s
  unfolding IsLineage add_all
  add_lineage h n [] w l i t a =
      (w.store, (λ ks. refl), root-IsReady A look h n w.store rooted l a t)
  add_lineage h n (p ∷ ps) w l (k, i) t a =
      let (s, f, r) = add_lineage (parent_id n) p ps w k i t a in
      let u = with_store s w in
      let v = ready_is_valid laws look rooted valid (parent_id n) p ps s k r in
      (
        (adding laws p u).store,
        (λ ks.
            add_all-append (turned_round ps) (p ∷ []) (with_wakeups ks w) (with_wakeups ks u) (f ks)
            ∙ add_next (parent_id n) p ps (with_wakeups ks u) k r),
        next-IsReady A look h n p ps (adding laws p u).store rooted l k (adding-Has laws p u v)
            (IsReady-add A laws look p p w.subscription_id ps s r),
      )

  -- A leaf that the store lacks, and what comes after it.
  synchronize_leaves-at :
      (leaf : Node) (leaves : List Node) (w u : Worker F A) {r : Result (Unit {0}) × Worker F A}
      → A.get w.store (id leaf) ≡ ok none
      → synchronize_leaf F A leaf none w ≡ (ok tt, u)
      → synchronize_leaves F A leaves u ≡ r
      → synchronize_leaves F A (leaf ∷ leaves) w ≡ r
  unfolding synchronize_leaves
  synchronize_leaves-at leaf leaves w u g one rest = rw (g, one) rest

  module _ (sorts : SortLaws A) (ancestors : Node → List Node)
      (are : (n : Node) → AreAncestors F A look (tree_depth n) n (ancestors n))
      (Owed : Exchange F → Type 0)
      (owes : (n : Node)
        → look (id n) ≡ some n
        → Owed (ancestry_request F n (A.sort_by tree_depth (ancestors n)))) where
    -- A request for the ancestry of a leaf, and what a peer answers it with.
    abbrev pub ancestry_of : Node → Exchange F
    ancestry_of leaf = ancestry_request F leaf (A.sort_by tree_depth (ancestors leaf))

    -- The answer, sorted once more.
    sorted_twice :
        (n : Node)
        → A.sort_by tree_depth (A.sort_by tree_depth (ancestors n)) ≡ turned_round (ancestors n)
    sorted_twice n =
        let ps = ancestors n in
        let falls = lineage-IsFalling F A look n ps rooted.deeper (are n).lineage in
        ap (A.sort_by tree_depth) (sorted_ancestors look n ps sorts rooted.deeper (are n))
        ∙ Shuffles-IsRising tree_depth (sorts.sort-Shuffles tree_depth (turned_round ps))
            (sorts.sort-IsSorted tree_depth (turned_round ps))
            (turned_round-IsRising tree_depth ps falls)

    -- Where synchronizing leads to, with the answers that each request is owed: a working transport,
    -- and a store that knows the authors.
    pub record Leads (m : Exec (Worker F A) (Unit {0})) (said : List (Exchange F)) (w : Worker F A)
        : Type 0 where
      pub last : Worker F A
      pub works : last.conn.faults ≡ []
      pub authors : KnowsAuthors A look last.store
      pub wrote : Wrote F w.conn said last.conn
      pub owed : All Owed said
      pub ends :
          (ks : List (Wakeup Node))
          → m (with_wakeups (wakes F said ++ ks) w) ≡ (ok tt, with_wakeups ks last)

    synchronize_missing :
        (leaf : Node) (w : Worker F A)
        → look (id leaf) ≡ some leaf
        → w.conn.faults ≡ []
        → KnowsAuthors A look w.store
        → Leads (synchronize_leaf F A leaf none) (ancestry_of leaf ∷ []) w
    unfolding synchronize_leaf
    synchronize_missing leaf w l f a =
        let ps = ancestors leaf in
        let nodes = A.sort_by tree_depth ps in
        let (o, works, wrote) = ancestry_answered leaf nodes [] w f in
        let c =
          (send_ancestry F (id leaf) (pos (tree_depth leaf)) (replied (is_response nodes))
            w.conn).1 in
        let t =
          top_is_root A look (id leaf) leaf ps rooted l (are leaf).lineage
            (whole look leaf ps (are leaf)) in
        let (s, g, r) = add_lineage (id leaf) leaf ps (with_conn c w) l (are leaf).lineage t a in
        let u = adding laws leaf (with_store s (with_conn c w)) in
        let ready = IsReady-add A laws look leaf leaf w.subscription_id ps s r in
        record {
          last = u;
          works = works;
          authors = ready.authors;
          wrote = wrote;
          owed = (owes leaf l, tt);
          ends = λ ks.
              continue-at _ nodes (with_wakeups ks (with_conn c w))
                (ap (on_error _) (ancestry_answered leaf nodes ks w f).0)
                (ap (λ ns. add_all F A (ns ++ leaf ∷ []) (with_wakeups ks (with_conn c w)))
                    (sorted_twice leaf)
                  ∙ add_all-append (turned_round ps) (leaf ∷ []) (with_wakeups ks (with_conn c w))
                      (with_wakeups ks (with_store s (with_conn c w))) (g ks)
                  ∙ add_next (id leaf) leaf ps (with_wakeups ks (with_store s (with_conn c w))) l
                      r);
        }

    -- The requests for the ancestry of some leaves.
    abbrev pub ancestries : List Node → List (Exchange F)
    ancestries [] = []
    ancestries (n ∷ ns) = ancestry_of n ∷ ancestries ns

    -- The leaves one after the other: a node that the store has by then is passed over.
    pub synchronize_each :
        (leaves : List Node) (w : Worker F A)
        → All (λ leaf. look (id leaf) ≡ some leaf) leaves
        → w.conn.faults ≡ []
        → KnowsAuthors A look w.store
        → (asked : List Node) × Leads (synchronize_leaves F A leaves) (ancestries asked) w
    unfolding synchronize_leaves synchronize_leaf
    synchronize_each [] w h f a = (
      [],
      record {
        last = w;
        works = f;
        authors = a;
        wrote = nothing_written F w.conn;
        owed = tt;
        ends = λ ks. refl;
      },
    )
    synchronize_each (leaf ∷ leaves) w (l, h) f a = elim (laws.answers w.store (id leaf)) [
      | inr (old, g) ↦
          let (asked, rest) = synchronize_each leaves w h f a in
          (
            asked,
            record {
              last = rest.last;
              works = rest.works;
              authors = rest.authors;
              wrote = rest.wrote;
              owed = rest.owed;
              ends = λ ks. rw g (rest.ends ks);
            },
          )
      | inl g ↦
          let one = synchronize_missing leaf w l f a in
          let u = one.last in
          let (asked, rest) = synchronize_each leaves u h one.works one.authors in
          (
            leaf ∷ asked,
            record {
              last = rest.last;
              works = rest.works;
              authors = rest.authors;
              wrote =
                  written_after F (ancestry_of leaf ∷ []) (ancestries asked) w.conn u.conn
                    rest.last.conn one.wrote rest.wrote;
              owed = (one.owed.0, rest.owed);
              ends = λ ks.
                  let later = wakes F (ancestries asked) ++ ks in
                  synchronize_leaves-at leaf leaves
                    (with_wakeups (replied (ancestry_of leaf).answer ∷ later) w)
                    (with_wakeups later u) g (one.ends later) (rest.ends ks);
            },
          )
    ]
