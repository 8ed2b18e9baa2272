-- ===== src/Worker/Fetched.antt =====
-- How IngestNode gets a node into a store that lacks its ancestors, once the peer has answered.
use sprout_go.Base.{
  ◌≡◌, ◌∙◌, inl, inr, refl, sym, ap, subst, true, Option, some, List, [], ◌∷◌, ◌++◌, All,
}
use sprout_go.Base.Int.{ℤ, pos}
use sprout_go.Base.Exec.{Result, ok, err, rethrow}
use sprout_go.Base.Errors.{Error}
use sprout_go.Base.Sorted.{turned_round}
use sprout_go.Forest.{Forest}
use sprout_go.Conn.State.{Conn, is_response}
use sprout_go.Conn.Verbs.{ancestry}
use sprout_go.Fmt.Format.{string, int}
use sprout_go.Conn.Replies.{
  awaiting, request_sent, handle_expected_response_lem, response_request-output,
}
use sprout_go.Conn.Send.{replied, send_ancestry, send_ancestry_async, op_format}
use sprout_go.Conn.Dispatch.{on_conn}
use sprout_go.Worker.Store.{Archive}
use sprout_go.Worker.State.{Worker, on_wire, from_store}
use sprout_go.Worker.Ingest.{
  ensure_author_available, add_node, validate, request, ingest_ancestor, ingest_ancestors,
  fetch_ancestry, validate_or_fetch, ingest_node,
}
use sprout_go.Worker.Ingested.{continue-at, continue-ok}
use sprout_go.Worker.Lineage.{IsLineage, top}
use sprout_go.Worker.Propagates.{ensure_author_of-known}
use sprout_go.Worker.Gained.{Has}
use sprout_go.Worker.Rooted.{
  StoreLaws, IsRooted, AreValid, KnowsAuthors, IsReady, next-IsReady, root-IsReady, IsReady-add,
  All-Has-add,
}

module _ {F : Forest} {A : Archive F} where
  -- A worker whose next request is answered with these nodes.
  abbrev pub woken : List F.Node → Worker F A → Worker F A
  woken ns w = record w { wakeups = replied (is_response ns) ∷ w.wakeups }

module _ {F : Forest} {A : Archive F} (laws : StoreLaws A) where
  open F use {Hash, Node, id, shape, parent_id, null_hash, equals, tree_depth}

  -- The store after a node was added.
  abbrev pub adding : Node → Worker F A → Worker F A
  adding n w = record w { store = (A.add_as n w.subscription_id w.store).1 }

  pub add_node-accepts :
      (n : Node) (w : Worker F A)
      → A.validate_deep w.store n ≡ ok tt
      → add_node F A n w ≡ (ok tt, adding n w)
  unfolding add_node
  add_node-accepts n w v = ap (λ r. (r, adding n w)) (laws.accepts n w.subscription_id w.store v)

  pub adding-Has :
      (n : Node) (w : Worker F A)
      → A.validate_deep w.store n ≡ ok tt
      → Has A (adding n w).store (id n)
  adding-Has n w v =
      laws.keeps.takes n w.subscription_id w.store (adding n w).store
        (ap (λ r. (r, (adding n w).store)) (laws.accepts n w.subscription_id w.store v))

  module _ (look : Hash → Option Node) (rooted : IsRooted A look) (valid : AreValid A look) where
    -- A node that is ready for is valid.
    pub ready_is_valid :
        (h : Hash) (n : Node) (ps : List Node) (s : A.Store)
        → look h ≡ some n
        → IsReady A look n ps s
        → A.validate_deep s n ≡ ok tt
    ready_is_valid h n ps s l i = valid h n s l (i.authors h n l) i.parent i.community

    -- What ingesting leads to: it ends without an error, and the store is ready for a node.
    abbrev Prepares : (n : Node) (ps ns : List Node) → Worker F A → Type 0
    Prepares n ps ns w =
        (v : Worker F A) × (ingest_ancestors F A ns w ≡ (ok tt, v))
        × IsReady A look n ps v.store
        × (v.conn ≡ w.conn)

    -- The next ancestor is ingested, or passed over.
    ingest_next :
        (h : Hash) (n p : Node) (ps : List Node) (w : Worker F A)
        → look h ≡ some n
        → look (parent_id n) ≡ some p
        → IsReady A look p ps w.store
        → Prepares n (p ∷ ps) (p ∷ []) w
    unfolding ingest_ancestors ingest_ancestor ensure_author_available validate
    ingest_next h n p ps w l k i = elim (laws.answers w.store (id p)) [
      | inr (old, e) ↦ (w, rw e, next-IsReady A look h n p ps w.store rooted l k (old, e) i, refl)
      | inl e ↦
          let v = ready_is_valid (parent_id n) p ps w.store k i in
          let known = ensure_author_of-known F A (shape p) w (i.authors (parent_id n) p k) in
          (
            adding p w,
            rw (e, known, v, add_node-accepts p w v),
            next-IsReady A look h n p ps (adding p w).store rooted l k (adding-Has p w v)
                (IsReady-add A laws look p p w.subscription_id ps w.store i),
            refl,
          )
    ]

    ingest_ancestors-append :
        (ns ms : List Node) (w v : Worker F A)
        → ingest_ancestors F A ns w ≡ (ok tt, v)
        → ingest_ancestors F A (ns ++ ms) w ≡ ingest_ancestors F A ms v
    unfolding ingest_ancestors
    ingest_ancestors-append [] ms w v e =
        ap (λ (p : Result (Unit {0}) × Worker F A). ingest_ancestors F A ms p.1) e
    ingest_ancestors-append (n ∷ ns) ms w v e =
        let (found, w1, h1, r1) =
          continue-ok (rethrow _ (from_store F A (λ s. A.get s (id n))) w) _ tt v e in
        let (_, w2, h2, r2) = continue-ok (ingest_ancestor F A n found w1) _ tt v r1 in
        continue-at _ found w1 h1 (continue-at _ tt w2 h2 (ingest_ancestors-append ns ms w2 v r2))

    -- The ancestors of a node are ingested from the root down.
    ingest_lineage :
        (h : Hash) (n : Node) (ps : List Node) (w : Worker F A)
        → look h ≡ some n
        → IsLineage F A look n ps
        → equals (parent_id (top F A n ps)) null_hash ≡ true
        → KnowsAuthors A look w.store
        → Prepares n ps (turned_round ps) w
    unfolding IsLineage ingest_ancestors
    ingest_lineage h n [] w l i t a = (w, refl, root-IsReady A look h n w.store rooted l a t, refl)
    ingest_lineage h n (p ∷ ps) w l (k, i) t a =
        let (u, e, r, c) = ingest_lineage (parent_id n) p ps w k i t a in
        let (v, e', r', c') = ingest_next h n p ps u l k r in
        (v, ingest_ancestors-append (turned_round ps) (p ∷ []) w u e ∙ e', r', c' ∙ c)

  -- A request for the ancestry of a node that is answered leaves the store as it is.
  request_ancestry :
      (h : Hash) (levels : ℤ) (ns : List Node) (w : Worker F A)
      → w.conn.faults ≡ []
      → let asked = request F A (send_ancestry F h levels) (woken ns w) in
        (asked.0 ≡ ok ns)
        × (asked.1.store ≡ w.store)
        × (asked.1.conn.output ≡ (send_ancestry_async F h levels w.conn).1.output)
  unfolding request on_wire on_conn send_ancestry send_ancestry_async
  request_ancestry h levels ns w f =
      let args = string (F.hash_string h) ∷ int levels ∷ [] in
      let sent = request_sent ancestry (op_format ancestry) args w.conn f in
      let after = awaiting ancestry (op_format ancestry) args w.conn in
      (
        (handle_expected_response_lem (send_ancestry_async F h levels) (replied (is_response ns))
            w.conn after w.conn.next_message_id sent).0,
        refl,
        response_request-output (send_ancestry_async F h levels) ns w.conn after
            w.conn.next_message_id sent,
      )

  fetch_ancestry-at :
      (n : Node) (ns : List Node) (w u v : Worker F A)
      → request F A (send_ancestry F (id n) (pos (tree_depth n))) w ≡ (ok ns, u)
      → ingest_ancestors F A ns u ≡ (ok tt, v)
      → A.validate_deep v.store n ≡ ok tt
      → fetch_ancestry F A n w ≡ (ok tt, v)
  unfolding fetch_ancestry validate
  fetch_ancestry-at n ns w u v q g d = rw (q, g, d)

  module _ (look : Hash → Option Node) (rooted : IsRooted A look) (valid : AreValid A look) where
    pub ingest_fetched :
        (n : Node) (ps : List Node) (w : Worker F A) (x : Error)
        → look (id n) ≡ some n
        → IsLineage F A look n ps
        → equals (parent_id (top F A n ps)) null_hash ≡ true
        → w.conn.faults ≡ []
        → KnowsAuthors A look w.store
        → A.validate_deep w.store n ≡ err x
        → (v : Worker F A) × (ingest_node F A n (woken (turned_round ps) w) ≡ (ok tt, v))
          × (v.conn.output ≡ (send_ancestry_async F (id n) (pos (tree_depth n)) w.conn).1.output)
          × Has A v.store (id n)
          × All (λ p. Has A v.store (id p)) ps
    unfolding ingest_node fetch_ancestry ensure_author_available validate
    ingest_fetched n ps w x l i t f a e =
        let w1 = woken (turned_round ps) w in
        let asked = request F A (send_ancestry F (id n) (pos (tree_depth n))) w1 in
        let (o, same, wrote) = request_ancestry (id n) (pos (tree_depth n)) (turned_round ps) w f in
        let (v, g, r, talked) =
          ingest_lineage look rooted valid (id n) n ps asked.1 l i t
            (subst (KnowsAuthors A look) (sym same) a) in
        let d = ready_is_valid look rooted valid (id n) n ps v.store l r in
        (
          adding n v,
          continue-at _ tt w1 (ensure_author_of-known F A (shape n) w1 (a (id n) n l)) (
              continue-at _ tt v
                (ap (λ r. validate_or_fetch F A r n w1) e
                  ∙ fetch_ancestry-at n (turned_round ps) w1 asked.1 v (ap (λ r. (r, asked.1)) o) g
                      d)
                (add_node-accepts n v d)),
          ap (λ (c : Conn Node). c.output) talked ∙ wrote,
          adding-Has n v d,
          All-Has-add A laws n v.subscription_id v.store ps r.ancestors,
        )
