-- ===== src/Worker/Gained.antt =====
-- What a store has, and what the loops of synchronizeFullTree have added to it when they end without
-- an error.
use sprout_go.Base.{ℕ, ◌≡◌, ap, subst, Option, none, some, List, [], ◌∷◌, ◌++◌, All, All-last}
use sprout_go.Base.Errors.{Error}
use sprout_go.Base.Preserves.{Preserves-ok}
use sprout_go.Base.Exec.{Result, ok, Exec, rethrow}
use sprout_go.Forest.{Forest}
use sprout_go.Conn.Kept.{Anything, written-Anything, delivered-Anything, requested-Anything}
use sprout_go.Worker.Store.{Archive}
use sprout_go.Worker.State.{Worker, from_store}
use sprout_go.Worker.Ingest.{request, validate, add_node, ensure_author_available}
use sprout_go.Worker.Bootstrap.{add_all, synchronize_leaf, synchronize_leaves}
use sprout_go.Worker.Keeps.{Always, IsKeptByValid, Keeps, Held}
use sprout_go.Worker.Kept.{add_all-Keeps, synchronize_leaves-Keeps}
use sprout_go.Worker.Ingested.{continue-ok, on_error-ok}

module _ {F : Forest} (A : Archive F) where
  -- The store has a node under this hash.
  abbrev pub Has : A.Store → F.Hash → Type 0
  Has s h = (n : F.Node) × (A.get s h ≡ ok (some n))

  -- A store that takes a node has it from then on, and loses none of the others.
  pub record KeepsNodes : Type 0 where
    pub takes :
        (n : F.Node) (subscription : ℕ) (s s' : A.Store)
        → A.add_as n subscription s ≡ (ok tt, s')
        → Has s' (F.id n)
    pub loses_none :
        (n : F.Node) (subscription : ℕ) (s : A.Store) (h : F.Hash)
        → Has s h
        → Has (A.add_as n subscription s).1 h

module _ {F : Forest} {A : Archive F} (laws : KeepsNodes A) where
  open F use {Hash, Node, id, tree_depth}

  pub Has-IsKeptByValid : (h : Hash) → IsKeptByValid F A (λ s. Has A s h)
  Has-IsKeptByValid h = record { add_valid = λ s n p k v. laws.loses_none n p s h k }

  pub kept-Has :
      {B : Type 0} {m : Exec (Worker F A) B} (h : Hash) (w w' : Worker F A) (b : B)
      → Keeps Anything (λ s. Has A s h) Always m
      → m w ≡ (ok b, w')
      → Has A w.store h
      → Has A w'.store h
  kept-Has h w w' b k e o =
      (Preserves-ok (Held Anything (λ s. Has A s h) Always) w w' b k e (tt, o, tt)).1

  -- A node that was added is in the store.
  pub taken-Has :
      (n : Node) (w w' : Worker F A) → add_node F A n w ≡ (ok tt, w') → Has A w'.store (id n)
  unfolding add_node
  taken-Has n w w' h =
      laws.takes n w.subscription_id w.store w'.store
        (ap (λ (p : Result (Unit {0}) × Worker F A). (p.0, p.1.store)) h)

  added-Has :
      (f : Error → Error) (n : Node) (w w' : Worker F A)
      → rethrow f (add_node F A n) w ≡ (ok tt, w')
      → Has A w'.store (id n)
  added-Has f n w w' h = taken-Has n w w' (on_error-ok f (add_node F A n w) tt w' h)

  add_all-ok :
      (ns : List Node) (w w' : Worker F A)
      → add_all F A ns w ≡ (ok tt, w')
      → All (λ n. Has A w'.store (id n)) ns
  unfolding add_all
  add_all-ok [] w w' h = tt
  add_all-ok (n ∷ ns) w w' h =
      let (_, w1, _, r1) = continue-ok (rethrow _ (ensure_author_available F A n) w) _ tt w' h in
      let (_, w2, _, r2) = continue-ok (rethrow _ (validate F A n) w1) _ tt w' r1 in
      let (_, w3, h3, r3) = continue-ok (rethrow _ (add_node F A n) w2) _ tt w' r2 in
      (
        kept-Has (id n) w3 w' tt
            (add_all-Keeps Anything (λ s. Has A s (id n)) Always written-Anything delivered-Anything
              requested-Anything (Has-IsKeptByValid (id n)) ns)
            r3 (added-Has _ n w2 w3 h3),
        add_all-ok ns w3 w' r3,
      )

  synchronize_leaf-ok :
      (leaf : Node) (found : Option Node) (w w' : Worker F A)
      → A.get w.store (id leaf) ≡ ok found
      → synchronize_leaf F A leaf found w ≡ (ok tt, w')
      → Has A w'.store (id leaf)
  unfolding synchronize_leaf
  synchronize_leaf-ok leaf (some old) w w' g h =
      subst (λ (v : Worker F A). Has A v.store (id leaf))
        (ap (λ (p : Result (Unit {0}) × Worker F A). p.1) h) (old, g)
  synchronize_leaf-ok leaf none w w' g h =
      let (ancestry, w1, _, r1) = continue-ok (rethrow _ (request F A _) w) _ tt w' h in
      All-last (λ n. Has A w'.store (id n)) (A.sort_by tree_depth ancestry) leaf
        (add_all-ok (A.sort_by tree_depth ancestry ++ leaf ∷ []) w1 w' r1)

  -- What a look-up has answered, of the store that it has left.
  looked_up :
      (f : Error → Error) (h : Hash) (found : Option Node) (w v : Worker F A)
      → rethrow f (from_store F A (λ s. A.get s h)) w ≡ (ok found, v)
      → A.get v.store h ≡ ok found
  looked_up f h found w v e =
      let e' = on_error-ok f (A.get w.store h, w) found v e in
      subst (λ (u : Worker F A). A.get u.store h ≡ ok found)
        (ap (λ (p : Result (Option Node) × Worker F A). p.1) e')
        (ap (λ (p : Result (Option Node) × Worker F A). p.0) e')

  synchronize_leaves-Has :
      (leaves : List Node) (w w' : Worker F A) (h : Hash)
      → synchronize_leaves F A leaves w ≡ (ok tt, w')
      → Has A w.store h
      → Has A w'.store h
  synchronize_leaves-Has leaves w w' h = kept-Has h w w' tt (
      synchronize_leaves-Keeps Anything (λ s. Has A s h) Always written-Anything delivered-Anything
        requested-Anything (Has-IsKeptByValid h) leaves)

  pub synchronize_leaves-ok :
      (leaves : List Node) (w w' : Worker F A)
      → synchronize_leaves F A leaves w ≡ (ok tt, w')
      → All (λ leaf. Has A w'.store (id leaf)) leaves
  unfolding synchronize_leaves
  synchronize_leaves-ok [] w w' h = tt
  synchronize_leaves-ok (leaf ∷ leaves) w w' h =
      let (found, w1, h1, r1) =
        continue-ok (rethrow _ (from_store F A (λ s. A.get s (id leaf))) w) _ tt w' h in
      let (_, w2, h2, r2) = continue-ok (synchronize_leaf F A leaf found w1) _ tt w' r1 in
      (
        synchronize_leaves-Has leaves w2 w' (id leaf) r2
            (synchronize_leaf-ok leaf found w1 w2 (looked_up _ (id leaf) found w w1 h1) h2),
        synchronize_leaves-ok leaves w2 w' r2,
      )
