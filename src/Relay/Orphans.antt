-- ===== src/Relay/Orphans.antt =====
-- The store of a relay has no node without its parent, as long as no node is removed from it.
use sprout_go.Base.{
  String, ℕ, ◌≡◌, inl, inr, refl, sym, subst, Option, some, List, [], ◌∷◌, All, All-map, Eq,
}
use sprout_go.Base.Exec.{Result}
use sprout_go.Base.Reach.{Reach}
use sprout_go.Forest.{Forest}
use sprout_go.Worker.Store.{Archive}
use sprout_go.Worker.Interleaved.{Interleaving, interleaved, after_others, Interferes}
use sprout_go.Worker.Lineage.{IsLineage}
use sprout_go.Worker.Gained.{Has, KeepsNodes}
use sprout_go.Worker.Rooted.{HasParent}
use sprout_go.Worker.Closed.{StrictLaws, IsClosed, EndsAtRoots, IsClosed-add, has_ancestors}
use sprout_go.Relay.System.{System, idle, Turn}
use sprout_go.Relay.Shared.{turns-kept}

module _ {F : Forest} (A : Archive F) where
  -- No node is removed, and with each node there is its parent if that was so before.
  abbrev pub Grows : A.Store → A.Store → Type 0
  Grows s t = ((h : F.Hash) → Has A s h → Has A t h) × (IsClosed A s → IsClosed A t)

  -- The store is closed, and others let it grow.
  abbrev StaysClosed : Interleaving A → Type 0
  StaysClosed s = IsClosed A s.0 × All (λ c. (u : A.Store) → Grows u (c u)) s.1

module _ {F : Forest} {A : Archive F} (laws : KeepsNodes A) (strict : StrictLaws A) where
  HasParent-Grows : (s t : A.Store) (n : F.Node) → Grows A s t → HasParent A s n → HasParent A t n
  HasParent-Grows s t n g (inl root) = inl root
  HasParent-Grows s t n g (inr h) = inr (g.0 (F.parent_id n) h)

  -- A node that had its parent when it was validated is added.
  after_others-StaysClosed :
      (add : A.Store → Result (Unit {0}) × A.Store) (n : F.Node) (s : Interleaving A)
      → ((u : A.Store) → (k : ℕ) × ((add u).1 ≡ (A.add_as n k u).1))
      → HasParent A s.0 n
      → StaysClosed A s
      → StaysClosed A (after_others A add s).1
  after_others-StaysClosed add n (s, []) adds h (c, all) =
      let (k, same) = adds s in
      (subst (IsClosed A) (sym same) (IsClosed-add laws strict s n k c h), tt)
  after_others-StaysClosed add n (s, f ∷ fs) adds h (c, (g, all)) =
      let (k, same) = adds (f s) in
      let h' = HasParent-Grows s (f s) n (g s) h in
      (subst (IsClosed A) (sym same) (IsClosed-add laws strict (f s) n k ((g s).1 c) h'), all)

  Interferes-StaysClosed :
      (Changes : A.Store → A.Store → Type 0) (s t : Interleaving A)
      → ((u v : A.Store) → Changes u v → Grows A u v)
      → Interferes A Changes s t
      → StaysClosed A s
      → StaysClosed A t
  Interferes-StaysClosed Changes s t grows (inl same, cs) (c, all) =
      (subst (IsClosed A) same c, All-map (λ f i u. grows u (f u) (i u)) t.1 cs)
  Interferes-StaysClosed Changes s t grows (inr o, cs) (c, all) =
      ((grows s.0 t.0 o).1 c, All-map (λ f i u. grows u (f u) (i u)) t.1 cs)

module _ {F : Forest} (A : Archive F) (add_to : F.Node → A.Store → Result (Unit {0}) × A.Store)
    (id_string : F.Hash → String) (Changes : A.Store → A.Store → Type 0) ⦃e : Eq F.Hash⦄ where
  open F use {Hash, Node, id}

  -- A relay starts workers, which read, ingest, announce and bootstrap, and it sees files, in any
  -- order; other users change its store between these operations, and also between the validation of
  -- a node and its addition. As long as no node is removed from the store, it has, with each node, all
  -- the ancestors that a look-up finds for it. When the relay starts, each node in the store is a root
  -- or has its parent, and the other users leave it so. The store loses no node when one is added, and
  -- gains no other; it adds the nodes of files as those of workers; a node does not validate without
  -- its parent; an ID belongs to one node, and a community is a root, with no node above it.
  pub no_orphans :
      (look : Hash → Option Node) (s : A.Store)
      (r : System F
        (interleaved A)
        (λ n. after_others A (add_to n))
        id_string
        (Interferes A Changes))
      (n : Node) (ps : List Node)
      → KeepsNodes A
      → StrictLaws A
      → ((m : Node) (t : A.Store) → (k : ℕ) × ((add_to m t).1 ≡ (A.add_as m k t).1))
      → ((t u : A.Store) → Changes t u → Grows A t u)
      → ((h : Hash) (m : Node) → look h ≡ some m → id m ≡ h)
      → EndsAtRoots A look
      → IsClosed A s
      → Reach
          (Turn F (interleaved A) (λ n. after_others A (add_to n)) id_string (Interferes A Changes))
          (idle F
            (interleaved A)
            (λ n. after_others A (add_to n))
            id_string
            (Interferes A Changes)
            (s, []))
          r
      → IsLineage F A look n ps
      → Has A r.relay.messages.0 (id n)
      → All (λ p. Has A r.relay.messages.0 (id p)) ps
  no_orphans look s r n ps laws strict added grows ids alone closed run lineage has =
      let ((still, _), _) =
        turns-kept {A = interleaved A} (λ n. after_others A (add_to n)) id_string
          (Interferes A Changes) (StaysClosed A) (s, []) r
          (record {
            add_valid = λ t m k c v.
                after_others-StaysClosed laws strict (A.add_as m k) m t (λ u. (k, refl))
                  (strict.needs_parent t.0 m v) c;
          })
          (record {
            add_community = λ t m author k c i.
                after_others-StaysClosed laws strict (A.add_as m k) m t (λ u. (k, refl))
                  (inl (strict.community_is_root m author i)) c;
          })
          (λ t m c v.
            after_others-StaysClosed laws strict (add_to m) m t (added m)
              (strict.needs_parent t.0 m v) c)
          (λ t u i c. Interferes-StaysClosed laws strict Changes t u grows i c) (closed, tt) run in
      has_ancestors laws strict look r.relay.messages.0 n ps ids alone still lineage has
