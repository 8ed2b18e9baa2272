-- ===== src/Worker/Authors.antt =====
-- What a success of ensureAuthorAvailable means.
use sprout_go.Base.{◌≡◌, ◌∙◌, ◌⊎◌, inl, inr, ap, sym, subst, Option, none, some, List, [], ◌∷◌}
use sprout_go.Base.Exec.{Result, ok, rethrow}
use sprout_go.Forest.{Forest}
use sprout_go.Conn.Send.{send_query}
use sprout_go.Worker.Store.{Archive}
use sprout_go.Worker.State.{Worker, from_store}
use sprout_go.Worker.Ingest.{request, validate, add_node, add_author, fetch_author, ensure_author}
use sprout_go.Worker.Ingested.{continue-ok, on_error-ok}

module _ (F : Forest) (A : Archive F) where
  open F use {Hash, Node}

  -- The peer has answered a query for the author with one node, which was valid in the store that the
  -- answer found, and is added to it.
  HasAdded : Hash → Worker F A → Worker F A → Type 0
  HasAdded a w w' =
      (n : Node) × (v : Worker F A) × (request F A (send_query F (a ∷ [])) w ≡ (ok (n ∷ []), v))
      × (A.validate_deep v.store n ≡ ok tt)
      × (A.add_as n v.subscription_id v.store ≡ (ok tt, w'.store))

  add_author-HasAdded :
      (a : Hash) (ns : List Node) (w u w' : Worker F A)
      → request F A (send_query F (a ∷ [])) w ≡ (ok ns, u)
      → add_author F A ns u ≡ (ok tt, w')
      → HasAdded a w w'
  unfolding add_author validate add_node HasAdded
  add_author-HasAdded a [] w u w' q h = cc
  add_author-HasAdded a (n ∷ m ∷ ns) w u w' q h = cc
  add_author-HasAdded a (n ∷ []) w u w' q h =
      let (t, v, h1, h2) = continue-ok (rethrow _ (validate F A n) u) _ tt w' h in
      let e = on_error-ok _ (A.validate_deep u.store n, u) t v h1 in
      let e2 : u ≡ v = ap (λ (p : Result (Unit {0}) × Worker F A). p.1) e in
      let k = on_error-ok _ (add_node F A n v) tt w' h2 in
      (
        n,
        v,
        q ∙ ap (λ x. (ok (n ∷ []), x)) e2,
        subst (λ (x : Worker F A). A.validate_deep x.store n ≡ ok tt) e2
            (ap (λ (p : Result (Unit {0}) × Worker F A). p.0) e),
        ap (λ (p : Result (Unit {0}) × Worker F A). (p.0, p.1.store)) k,
      )

  -- The author was in the store, and nothing has changed.
  IsKnown : Hash → Worker F A → Worker F A → Type 0
  IsKnown a w w' = (n : Node) × (A.get_identity w.store a ≡ ok (some n)) × (w ≡ w')

  fetch_author-ok :
      (a : Hash) (found : Option Node) (w v w' : Worker F A)
      → from_store F A (λ s. A.get_identity s a) w ≡ (ok found, v)
      → fetch_author F A a found v ≡ (ok tt, w')
      → IsKnown a w w' ⊎ HasAdded a w w'
  unfolding fetch_author IsKnown
  fetch_author-ok a (some n) w v w' g h = inl (
    n,
    ap (λ (p : Result (Option Node) × Worker F A). p.0) g,
    ap (λ (p : Result (Option Node) × Worker F A). p.1) g
        ∙ ap (λ (p : Result (Unit {0}) × Worker F A). p.1) h,
  )
  fetch_author-ok a none w v w' g h =
      let (ns, u, q, k) =
        continue-ok (rethrow _ (request F A (send_query F (a ∷ []))) v) (add_author F A) tt w' h in
      let e : v ≡ w = sym (ap (λ (p : Result (Option Node) × Worker F A). p.1) g) in
      let q' = on_error-ok _ (request F A (send_query F (a ∷ [])) v) ns u q in
      inr (
        add_author-HasAdded a ns w u w'
          (subst (λ x. request F A (send_query F (a ∷ [])) x ≡ (ok ns, u)) e q') k)

  -- ensureAuthorAvailable returns no error for an author only if the store knew the author, and then
  -- nothing has changed, or if the peer has answered a query for the author with one node, which was
  -- then valid in the store, and the store took it: the store that is left is that one with the node
  -- added.
  pub ensure_author-ok :
      (a : Hash) (w w' : Worker F A)
      → ensure_author F A a w ≡ (ok tt, w')
      → ((n : Node) × (A.get_identity w.store a ≡ ok (some n)) × (w ≡ w'))
        ⊎ ((n : Node) × (v : Worker F A) × (request F A (send_query F (a ∷ [])) w
              ≡ (ok (n ∷ []), v))
            × (A.validate_deep v.store n ≡ ok tt)
            × (A.add_as n v.subscription_id v.store ≡ (ok tt, w'.store)))
  unfolding ensure_author IsKnown HasAdded
  ensure_author-ok a w w' h =
      let (found, v, g, k) =
        continue-ok (rethrow _ (from_store F A (λ s. A.get_identity s a)) w) (fetch_author F A a) tt
          w' h in
      fetch_author-ok a found w v w' (on_error-ok _ (A.get_identity w.store a, w) found v g) k
