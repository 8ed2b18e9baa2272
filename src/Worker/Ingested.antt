-- ===== src/Worker/Ingested.antt =====
-- What a success of IngestNode means, and what HandleNewNode writes.
use sprout_go.Base.{◌≡◌, ◌∙◌, refl, ap, subst}
use sprout_go.Base.Exec.{Result, ok, err, panics, Exec, rethrow, continue, on_error, ◌>>◌}
use sprout_go.Base.Errors.{Error}
use sprout_go.Forest.{Forest}
use sprout_go.Worker.Store.{Archive}
use sprout_go.Worker.State.{Worker}
use sprout_go.Worker.Ingest.{
  request, validate, add_node, ensure_author_available, ingest_ancestors, fetch_ancestry,
  validate_or_fetch, ingest_node,
}

module _ {S B : Type 0} where
  -- A sequence of two steps is a success only if both are.
  pub continue-ok :
      {C : Type 0} (p : Result B × S) (f : B → Exec S C) (c : C) (s : S)
      → continue p f ≡ (ok c, s)
      → (b : B) × (t : S) × (p ≡ (ok b, t)) × (f b t ≡ (ok c, s))
  continue-ok (ok b, t) f c s h = (b, t, refl, h)
  continue-ok (err e, t) f c s h = cc
  continue-ok (panics, t) f c s h = cc

  -- A step that is a success goes on with the next one.
  pub continue-at :
      {C : Type 0} {p : Result B × S} (f : B → Exec S C) (b : B) (t : S) {r : Result C × S}
      → p ≡ (ok b, t)
      → f b t ≡ r
      → continue p f ≡ r
  continue-at f b t h k = ap (λ p. continue p f) h ∙ k

  pub on_error-ok :
      (f : Error → Error) (p : Result B × S) (b : B) (s : S)
      → on_error f p ≡ (ok b, s)
      → p ≡ (ok b, s)
  on_error-ok f (ok a, t) b s h = h
  on_error-ok f (err e, t) b s h = cc
  on_error-ok f (panics, t) b s h = cc

module _ (F : Forest) (A : Archive F) where
  open F use {Hash, Node}

  fetch_ancestry-ok :
      (n : Node) (w v : Worker F A)
      → fetch_ancestry F A n w ≡ (ok tt, v)
      → A.validate_deep v.store n ≡ ok tt
  unfolding fetch_ancestry validate
  fetch_ancestry-ok n w v h =
      let (ns, w1, _, h1) = continue-ok (rethrow _ (request F A _) w) _ tt v h in
      let (_, w2, _, h2) = continue-ok (ingest_ancestors F A ns w1) _ tt v h1 in
      let h3 = on_error-ok _ (A.validate_deep w2.store n, w2) tt v h2 in
      subst (λ (u : Worker F A). A.validate_deep u.store n ≡ ok tt)
        (ap (λ (p : Result (Unit {0}) × Worker F A). p.1) h3)
        (ap (λ (p : Result (Unit {0}) × Worker F A). p.0) h3)

  validate_or_fetch-ok :
      (n : Node) (r : Result (Unit {0})) (w v : Worker F A)
      → A.validate_deep w.store n ≡ r
      → validate_or_fetch F A r n w ≡ (ok tt, v)
      → A.validate_deep v.store n ≡ ok tt
  validate_or_fetch-ok n (ok tt) w v e h =
      subst (λ (u : Worker F A). A.validate_deep u.store n ≡ ok tt)
        (ap (λ (p : Result (Unit {0}) × Worker F A). p.1) h) e
  validate_or_fetch-ok n (err x) w v e h = fetch_ancestry-ok n w v h
  validate_or_fetch-ok n panics w v e h = cc

  -- What IngestNode does before it adds its node.
  abbrev pub until_valid : Node → Exec (Worker F A) (Unit {0})
  until_valid n = do
    ensure_author_available F A n
    λ w. validate_or_fetch F A (A.validate_deep w.store n) n w

  -- IngestNode returns no error only if what it does before it adds its node ends without one, the
  -- node is then valid in the store, and the store takes it: the store that IngestNode leaves is that
  -- one with the node added.
  pub ingest_node-ok :
      (n : Node) (w w' : Worker F A)
      → ingest_node F A n w ≡ (ok tt, w')
      → (v : Worker F A) × (until_valid n w ≡ (ok tt, v))
        × (A.validate_deep v.store n ≡ ok tt)
        × (A.add_as n v.subscription_id v.store ≡ (ok tt, w'.store))
  unfolding ingest_node add_node
  ingest_node-ok n w w' h =
      let (_, w1, h1, r1) = continue-ok (ensure_author_available F A n w) _ tt w' h in
      let (_, v, h2, h3) =
        continue-ok (validate_or_fetch F A (A.validate_deep w1.store n) n w1) _ tt w' r1 in
      (
        v,
        continue-at _ tt w1 h1 h2,
        validate_or_fetch-ok n (A.validate_deep w1.store n) w1 v refl h2,
        ap (λ (p : Result (Unit {0}) × Worker F A). (p.0, p.1.store)) h3,
      )
