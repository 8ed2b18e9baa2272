-- ===== src/Worker/KeptNode.antt =====
-- What ensureAuthorAvailable and IngestNode keep true of the store.
use sprout_go.Base.{ℕ, ◌≡◌, refl, Option, none, some, List, [], ◌∷◌}
use sprout_go.Base.Exec.{Result, ok, err, panics, Exec, rethrow, continue, on_error}
use sprout_go.Base.Errors.{Error}
use sprout_go.Forest.{Forest, Shape, identity, community, reply, other}
use sprout_go.Worker.Store.{Archive}
use sprout_go.Worker.State.{Worker}
use sprout_go.Worker.Ingest.{
  request, validate, add_node, add_author, fetch_author, ensure_author, ensure_author_of,
  ensure_author_available, ingest_ancestor, ingest_ancestors, fetch_ancestry, validate_or_fetch,
  ingest_node,
}
use sprout_go.Worker.Keeps.{
  IsKeptByValid, Held, Keeps, request-Keeps, from_store-Keeps, add_validated-Keeps,
}
use sprout_go.Base.Preserves.{Preserves-lift, Preserves-bind, Preserves-then, Preserves-rethrow}
use sprout_go.Session.{Session}
use sprout_go.Conn.State.{Conn}
use sprout_go.Conn.Kept.{IsKeptByWrites, IsKeptByReplies, IsKeptByRequests}
use sprout_go.Conn.KeptSends.{send_query-Preserves, send_ancestry-Preserves}

module _ {F : Forest} {A : Archive F} (Q : Conn F.Node → Type 0) (P : A.Store → Type 0)
    (R : Session F.Hash → ℕ → Type 0) (written : IsKeptByWrites Q) (replied : IsKeptByReplies Q)
    (requested : IsKeptByRequests Q) (kept : IsKeptByValid F A P) where
  -- The inner end of IngestNode: what was valid in the store that it found is added to that store.
  AfterValid : F.Node → Result (Unit {0}) × Worker F A → Type 0
  AfterValid n (ok u, w) = Held Q P R w × (A.validate_deep w.store n ≡ ok tt)
  AfterValid n (err e, w) = Held Q P R w
  AfterValid n (panics, w) = Held Q P R w

  continue-AfterValid :
      {B : Type 0} (n : F.Node) (p : Result B × Worker F A) (f : B → Exec (Worker F A) (Unit {0}))
      → Held Q P R p.1
      → ((b : B) (w : Worker F A) → Held Q P R w → AfterValid n (f b w))
      → AfterValid n (continue p f)
  unfolding AfterValid
  continue-AfterValid n (ok b, w) f h k = k b w h
  continue-AfterValid n (err e, w) f h k = h
  continue-AfterValid n (panics, w) f h k = h

  validated-AfterValid :
      (f : Error → Error) (n : F.Node) (r : Result (Unit {0})) (w : Worker F A)
      → A.validate_deep w.store n ≡ r
      → Held Q P R w
      → AfterValid n (on_error f (r, w))
  unfolding AfterValid
  validated-AfterValid f n (ok tt) w e h = (h, e)
  validated-AfterValid f n (err x) w e h = h
  validated-AfterValid f n panics w e h = h

  add_node-AfterValid :
      (n : F.Node) (p : Result (Unit {0}) × Worker F A)
      → AfterValid n p
      → Held Q P R (continue p (λ _. add_node F A n)).1
  unfolding AfterValid add_node
  add_node-AfterValid n (ok u, w) ((q, p, r), e) =
      (q, kept.add_valid w.store n w.subscription_id p e, r)
  add_node-AfterValid n (err x, w) h = h
  add_node-AfterValid n (panics, w) h = h

  add_author-Keeps : (ns : List F.Node) → Keeps Q P R (add_author F A ns)
  unfolding add_author
  add_author-Keeps [] = Preserves-lift _ _
  add_author-Keeps (n ∷ []) = add_validated-Keeps Q P R kept _ _ n
  add_author-Keeps (n ∷ m ∷ ns) = Preserves-lift _ _

  fetch_author-Keeps : (a : F.Hash) (found : Option F.Node) → Keeps Q P R (fetch_author F A a found)
  unfolding fetch_author
  fetch_author-Keeps a (some n) = Preserves-lift _ _
  fetch_author-Keeps a none =
      Preserves-bind _
        (Preserves-rethrow _ _
          (request-Keeps Q P R (send_query-Preserves F Q written replied requested _)))
        add_author-Keeps

  ensure_author-Keeps : (a : F.Hash) → Keeps Q P R (ensure_author F A a)
  unfolding ensure_author
  ensure_author-Keeps a =
      Preserves-bind _ (Preserves-rethrow _ _ (from_store-Keeps Q P R _)) (fetch_author-Keeps a)

  ensure_author_of-Keeps : (s : Shape F.Hash) → Keeps Q P R (ensure_author_of F A s)
  unfolding ensure_author_of
  ensure_author_of-Keeps identity = Preserves-lift _ _
  ensure_author_of-Keeps (community a) = ensure_author-Keeps a
  ensure_author_of-Keeps (reply a c) = ensure_author-Keeps a
  ensure_author_of-Keeps other = Preserves-lift _ _

  pub ensure_author_available-Keeps : (n : F.Node) → Keeps Q P R (ensure_author_available F A n)
  unfolding ensure_author_available
  ensure_author_available-Keeps n = ensure_author_of-Keeps (F.shape n)

  ingest_ancestor-Keeps :
      (n : F.Node) (found : Option F.Node) → Keeps Q P R (ingest_ancestor F A n found)
  unfolding ingest_ancestor
  ingest_ancestor-Keeps n (some old) = Preserves-lift _ _
  ingest_ancestor-Keeps n none =
      Preserves-then _ (Preserves-rethrow _ _ (ensure_author_available-Keeps n))
        (add_validated-Keeps Q P R kept _ _ n)

  ingest_ancestors-Keeps : (ns : List F.Node) → Keeps Q P R (ingest_ancestors F A ns)
  unfolding ingest_ancestors
  ingest_ancestors-Keeps [] = Preserves-lift _ _
  ingest_ancestors-Keeps (n ∷ ns) =
      Preserves-bind _ (Preserves-rethrow _ _ (from_store-Keeps Q P R _))
        (λ found. Preserves-then _ (ingest_ancestor-Keeps n found) (ingest_ancestors-Keeps ns))

  fetch_ancestry-AfterValid :
      (n : F.Node) (w : Worker F A) → Held Q P R w → AfterValid n (fetch_ancestry F A n w)
  unfolding fetch_ancestry validate
  fetch_ancestry-AfterValid n w h =
      continue-AfterValid n (rethrow _ (request F A _) w) _
        ((Preserves-rethrow (Held Q P R) _ (
            request-Keeps Q P R
              (send_ancestry-Preserves F Q written replied requested _ _))).preserves
          w h)
        (λ ns v g.
          continue-AfterValid n (ingest_ancestors F A ns v) _
            ((ingest_ancestors-Keeps ns).preserves v g)
            (λ _ u k. validated-AfterValid _ n (A.validate_deep u.store n) u refl k))

  validate_or_fetch-AfterValid :
      (n : F.Node) (r : Result (Unit {0})) (w : Worker F A)
      → A.validate_deep w.store n ≡ r
      → Held Q P R w
      → AfterValid n (validate_or_fetch F A r n w)
  unfolding AfterValid
  validate_or_fetch-AfterValid n (ok tt) w e h = (h, e)
  validate_or_fetch-AfterValid n (err x) w e h = fetch_ancestry-AfterValid n w h
  validate_or_fetch-AfterValid n panics w e h = h

  pub ingest_node-Keeps : (n : F.Node) → Keeps Q P R (ingest_node F A n)
  unfolding ingest_node
  ingest_node-Keeps n = Preserves-then _ (ensure_author_available-Keeps n) (record {
    preserves = λ w h.
        add_node-AfterValid n _
          (validate_or_fetch-AfterValid n (A.validate_deep w.store n) w refl h);
  })
