-- ===== src/Worker/Closed.antt =====
-- Stores in which each node is a root or has its parent, and so all its ancestors; a worker leaves
-- them so.
use sprout_go.Base.{ℕ, ◌≡◌, ◌⊎◌, inl, inr, subst, sym, true, Option, none, some, List, [], ◌∷◌, All}
use sprout_go.Base.Exec.{ok}
use sprout_go.Forest.{Forest, community}
use sprout_go.Worker.Store.{Archive}
use sprout_go.Worker.Keeps.{IsKeptByValid, IsKeptByCommunity}
use sprout_go.Worker.Lineage.{IsLineage}
use sprout_go.Worker.Gained.{Has, KeepsNodes}
use sprout_go.Worker.Rooted.{HasParent}

module _ {F : Forest} (A : Archive F) where
  open F use {Hash, Node, id, shape, parent_id, null_hash, equals}

  -- A store that gains no other node than the one that is added, in which a node does not validate
  -- without its parent; an ID belongs to one node, and a community is a root.
  pub record StrictLaws : Type 0 where
    pub gains :
        (s : A.Store) (n m : Node) (subscription : ℕ) (h : Hash)
        → A.get (A.add_as n subscription s).1 h ≡ ok (some m)
        → (A.get s h ≡ ok (some m)) ⊎ (n ≡ m)
    pub needs_parent : (s : A.Store) (n : Node) → A.validate_deep s n ≡ ok tt → HasParent A s n
    pub community_is_root :
        (n : Node) (author : Hash)
        → shape n ≡ community author
        → equals (parent_id n) null_hash ≡ true
    pub found_by_id : (s : A.Store) (h : Hash) (n : Node) → A.get s h ≡ ok (some n) → id n ≡ h
    pub same_id : (n m : Node) → id n ≡ id m → n ≡ m

  abbrev pub IsClosed : A.Store → Type 0
  IsClosed s = (h : Hash) (n : Node) → A.get s h ≡ ok (some n) → HasParent A s n

  -- No node stands above a root.
  abbrev pub EndsAtRoots : (Hash → Option Node) → Type 0
  EndsAtRoots look = (n : Node) → equals (parent_id n) null_hash ≡ true → look (parent_id n) ≡ none

module _ {F : Forest} {A : Archive F} (laws : KeepsNodes A) (strict : StrictLaws A) where
  open F use {Hash, Node, id, parent_id}

  HasParent-add :
      (s : A.Store) (n m : Node) (subscription : ℕ)
      → HasParent A s m
      → HasParent A (A.add_as n subscription s).1 m
  HasParent-add s n m subscription (inl t) = inl t
  HasParent-add s n m subscription (inr h) = inr (laws.loses_none n subscription s (parent_id m) h)

  pub IsClosed-add :
      (s : A.Store) (n : Node) (subscription : ℕ)
      → IsClosed A s
      → HasParent A s n
      → IsClosed A (A.add_as n subscription s).1
  IsClosed-add s n subscription c p h m e =
      HasParent-add s n m subscription (elim (strict.gains s n m subscription h e) [
        | inl old ↦ c h m old
        | inr same ↦ subst (HasParent A s) same p
      ])

  pub IsClosed-IsKeptByValid : IsKeptByValid F A (IsClosed A)
  IsClosed-IsKeptByValid = record {
    add_valid = λ s n k c v. IsClosed-add s n k c (strict.needs_parent s n v);
  }

  pub IsClosed-IsKeptByCommunity : IsKeptByCommunity F A (IsClosed A)
  IsClosed-IsKeptByCommunity = record {
    add_community =
        λ s n author k c e. IsClosed-add s n k c (inl (strict.community_is_root n author e));
  }

  -- A closed store that has a node has the ancestors that a look-up finds for it.
  pub has_ancestors :
      (look : Hash → Option Node) (s : A.Store) (n : Node) (ps : List Node)
      → ((h : Hash) (m : Node) → look h ≡ some m → id m ≡ h)
      → EndsAtRoots A look
      → IsClosed A s
      → IsLineage F A look n ps
      → Has A s (id n)
      → All (λ p. Has A s (id p)) ps
  unfolding IsLineage
  has_ancestors look s n [] ids alone c i has = tt
  has_ancestors look s n (p ∷ ps) ids alone c (k, i) (m, e) =
      let same = strict.same_id m n (strict.found_by_id s (id n) m e) in
      elim (subst (HasParent A s) same (c (id n) m e)) [
        | inl t ↦ absurd (root_is_alone (alone n t))
        | inr has ↦
            let has_p = subst (Has A s) (sym (ids (parent_id n) p k)) has in
            (has_p, has_ancestors look s p ps ids alone c i has_p)
      ]
    where
      root_is_alone : look (parent_id n) ≡ none → ⊥
      root_is_alone a = cc
