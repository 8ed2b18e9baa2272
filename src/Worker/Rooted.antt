-- ===== src/Worker/Rooted.antt =====
-- Stores whose nodes are rooted: what they have of a node's ancestors, and when the node validates.
use sprout_go.Base.{
  ℕ, ◌≤◌, ◌≡◌, ◌⊎◌, inl, inr, refl, subst, Bool, true, false, Option, none, some, List, [], ◌∷◌,
  All, length, arith,
}
use sprout_go.Base.Exec.{ok}
use sprout_go.Forest.{Forest, Shape, identity, community, reply, other}
use sprout_go.Worker.Store.{Archive}
use sprout_go.Worker.Lineage.{IsLineage, IsTop, top}
use sprout_go.Worker.RootFirst.{AreDeeper}
use sprout_go.Worker.Propagates.{KnowsAuthor}
use sprout_go.Worker.Gained.{Has, KeepsNodes}

true_and_false : {b : Bool} → b ≡ true → b ≡ false → ⊥
true_and_false t f = cc

module _ {F : Forest} (A : Archive F) where
  open F use {Hash, Node, id, shape, parent_id, null_hash, equals, tree_depth}

  -- A store that answers each look-up, takes every node that validates, and forgets nothing.
  pub record StoreLaws : Type 0 where
    pub keeps : KeepsNodes A
    pub answers : (s : A.Store) (h : Hash) → (A.get s h ≡ ok none) ⊎ Has A s h
    pub accepts :
        (n : Node) (subscription : ℕ) (s : A.Store)
        → A.validate_deep s n ≡ ok tt
        → (A.add_as n subscription s).0 ≡ ok tt
    pub keeps_authors :
        (n : Node) (subscription : ℕ) (s : A.Store) (sh : Shape Hash)
        → KnowsAuthor F A s sh
        → KnowsAuthor F A (A.add_as n subscription s).1 sh

  -- The nodes of a store that has the parent of each node but of the roots. A reply is no root, and
  -- its parent is its community, or a reply in it.
  pub record IsRooted (look : Hash → Option Node) : Type 0 where
    pub ids : (h : Hash) (n : Node) → look h ≡ some n → id n ≡ h
    pub deeper : AreDeeper F A look
    pub closed :
        (h : Hash) (n : Node)
        → look h ≡ some n
        → (equals (parent_id n) null_hash ≡ true) ⊎ ((p : Node) × (look (parent_id n) ≡ some p))
    pub reply_not_root :
        (h : Hash) (n : Node) (author c : Hash)
        → look h ≡ some n
        → shape n ≡ reply author c
        → equals (parent_id n) null_hash ≡ false
    pub in_community :
        (h : Hash) (n p : Node) (author c : Hash)
        → look h ≡ some n
        → shape n ≡ reply author c
        → look (parent_id n) ≡ some p
        → (id p ≡ c) ⊎ ((a : Hash) × (shape p ≡ reply a c))

  -- A root, or a node whose parent is in the store.
  abbrev pub HasParent : A.Store → Node → Type 0
  HasParent s n = (equals (parent_id n) null_hash ≡ true) ⊎ Has A s (parent_id n)

  abbrev pub HasCommunity : A.Store → Shape Hash → Type 0
  HasCommunity s (reply author c) = Has A s c
  HasCommunity s _ = Unit

  -- The nodes that a look-up finds validate against every store that has their authors, their
  -- parents and their communities.
  abbrev pub AreValid : (Hash → Option Node) → Type 0
  AreValid look =
      (h : Hash) (n : Node) (s : A.Store)
      → look h ≡ some n
      → KnowsAuthor F A s (shape n)
      → HasParent s n
      → HasCommunity s (shape n)
      → A.validate_deep s n ≡ ok tt

  -- The store knows the authors of all those nodes.
  abbrev pub KnowsAuthors : (Hash → Option Node) → A.Store → Type 0
  KnowsAuthors look s = (h : Hash) (n : Node) → look h ≡ some n → KnowsAuthor F A s (shape n)

  -- The store is ready for a node with these ancestors: it has them, and what the node refers to.
  pub record IsReady (look : Hash → Option Node) (n : Node) (ps : List Node) (s : A.Store)
      : Type 0 where
    pub authors : KnowsAuthors look s
    pub parent : HasParent s n
    pub community : HasCommunity s (shape n)
    pub ancestors : All (λ p. Has A s (id p)) ps

  -- The top of a whole lineage is a root.
  pub top_is_root :
      (look : Hash → Option Node) (h : Hash) (n : Node) (ps : List Node)
      → IsRooted look
      → look h ≡ some n
      → IsLineage F A look n ps
      → (tree_depth n ≤ length ps) ⊎ IsTop F A look (top F A n ps)
      → equals (parent_id (top F A n ps)) null_hash ≡ true
  unfolding IsLineage
  top_is_root look h n [] r l i (inr (inl t)) = t
  top_is_root look h n [] r l i (inr (inr t)) = elim (r.closed h n l) [
    | inl c ↦ c
    | inr (p, e) ↦ absurd cc
  ]
  top_is_root look h n [] r l i (inl d) = elim (r.closed h n l) [
    | inl c ↦ c
    | inr (p, e) ↦ absurd (omega (arith, d, r.deeper n p e))
  ]
  top_is_root look h n (p ∷ ps) r l (k, i) (inr t) =
      top_is_root look (parent_id n) p ps r k i (inr t)
  top_is_root look h n (p ∷ ps) r l (k, i) (inl d) =
      top_is_root look (parent_id n) p ps r k i (inl (omega (arith, d, r.deeper n p k)))

  -- A lineage grows by the node that comes next.
  pub next-IsReady :
      (look : Hash → Option Node) (h : Hash) (n p : Node) (ps : List Node) (s : A.Store)
      → IsRooted look
      → look h ≡ some n
      → look (parent_id n) ≡ some p
      → Has A s (id p)
      → IsReady look p ps s
      → IsReady look n (p ∷ ps) s
  next-IsReady look h n p ps s r l k has i = record {
    authors = i.authors;
    parent = inr (subst (Has A s) (r.ids (parent_id n) p k) has);
    community = community_of (shape n) refl;
    ancestors = (has, i.ancestors);
  }
    where
      community_of : (sh : Shape Hash) → shape n ≡ sh → HasCommunity s sh
      community_of identity e = tt
      community_of (community author) e = tt
      community_of other e = tt
      community_of (reply author c) e = elim (r.in_community h n p author c l e k) [
        | inl q ↦ subst (Has A s) q has
        | inr (a, q) ↦ subst (HasCommunity s) q i.community
      ]

  -- A root is ready at once.
  pub root-IsReady :
      (look : Hash → Option Node) (h : Hash) (n : Node) (s : A.Store)
      → IsRooted look
      → look h ≡ some n
      → KnowsAuthors look s
      → equals (parent_id n) null_hash ≡ true
      → IsReady look n [] s
  root-IsReady look h n s r l a t = record {
    authors = a;
    parent = inl t;
    community = community_of (shape n) refl;
    ancestors = tt;
  }
    where
      community_of : (sh : Shape Hash) → shape n ≡ sh → HasCommunity s sh
      community_of identity e = tt
      community_of (community author) e = tt
      community_of other e = tt
      community_of (reply author c) e =
          absurd (true_and_false t (r.reply_not_root h n author c l e))

  module _ (laws : StoreLaws) where
    HasCommunity-add :
        (m : Node) (k : ℕ) (s : A.Store) (sh : Shape Hash)
        → HasCommunity s sh
        → HasCommunity (A.add_as m k s).1 sh
    HasCommunity-add m k s identity h = tt
    HasCommunity-add m k s (community author) h = tt
    HasCommunity-add m k s other h = tt
    HasCommunity-add m k s (reply author c) h = laws.keeps.loses_none m k s c h

    pub All-Has-add :
        (m : Node) (k : ℕ) (s : A.Store) (ps : List Node)
        → All (λ p. Has A s (id p)) ps
        → All (λ p. Has A (A.add_as m k s).1 (id p)) ps
    All-Has-add m k s [] a = tt
    All-Has-add m k s (p ∷ ps) (h, a) =
        (laws.keeps.loses_none m k s (id p) h, All-Has-add m k s ps a)

    -- Adding a node leaves the store ready.
    pub IsReady-add :
        (look : Hash → Option Node) (m n : Node) (k : ℕ) (ps : List Node) (s : A.Store)
        → IsReady look n ps s
        → IsReady look n ps (A.add_as m k s).1
    IsReady-add look m n k ps s i = record {
      authors = λ h p l. laws.keeps_authors m k s (shape p) (i.authors h p l);
      parent = elim i.parent [
        | inl t ↦ inl t
        | inr has ↦ inr (laws.keeps.loses_none m k s (parent_id n) has)
      ];
      community = HasCommunity-add m k s (shape n) i.community;
      ancestors = All-Has-add m k s ps i.ancestors;
    }
