-- ===== src/Worker/ToyTree.antt =====
-- A store over the example forest whose nodes validate where their parents are, and that of a peer.
use sprout_go.Base.{
  ℕ, suc, ◌+◌, ◌-◌, ◌≡◌, ◌⊎◌, inl, inr, refl, ap, subst, true, false, Bool-cases, Option,
  Option-cases, none, some, List, [], ◌∷◌, ◌==◌, All, arith, if◌then◌else◌, ◌≢◌,
}
use sprout_go.Base.Exec.{Result, ok, err}
use sprout_go.Base.Errors.{message}
use sprout_go.Example.{forest, hash_eq, forest_laws}
use sprout_go.Forest.{Forest, ForestLaws, Shape, identity, community, reply, other}
use sprout_go.Worker.Store.{Archive}
use sprout_go.Worker.State.{Worker}
use sprout_go.Worker.Run.{new_worker}
use sprout_go.Worker.Propagates.{KnowsAuthor}
use sprout_go.Worker.RootFirst.{AreDeeper, SortLaws}
use sprout_go.Worker.RootFirstTests.{archive-SortLaws, find-hash}
use sprout_go.Worker.Rooted.{StoreLaws, IsRooted, AreValid, KnowsAuthors, HasParent}
use sprout_go.Worker.Fills.{ListsLeaves}
use sprout_go.Worker.Closed.{StrictLaws, IsClosed, EndsAtRoots}
use sprout_go.Worker.Protocol.{View, IsAnswering}
use sprout_go.Worker.Toy.{archive, archive-KeepsNodes, find, find-later, hashes}

-- A node validates if it is the root, or its parent is there.
abbrev pub parent_found : Option ℕ → Result (Unit {0})
parent_found none = err (message "unknown parent")
parent_found (some p) = ok tt

-- The example, with node 1 for a root, and no node of an unknown type.
abbrev pub tree : Forest
tree = record forest {
  parent_id = λ n. if n == 1 then 0 else n;
  tree_depth = λ n. n - 1;
  shape = λ n. if n == 0 then identity else if n == 1 then community 1 else reply 1 2;
}

pub tree_laws : ForestLaws tree
tree_laws = record {
  equals_iff = forest_laws.equals_iff;
  unmarshal-marshal = forest_laws.unmarshal-marshal;
  unmarshal-string = forest_laws.unmarshal-string;
  marshal-IsWord = forest_laws.marshal-IsWord;
  string-IsWord = forest_laws.string-IsWord;
  unmarshal-node = forest_laws.unmarshal-node;
  node-bytes = forest_laws.node-bytes;
  node-ne-nil = forest_laws.node-ne-nil;
}

-- Node 1 is the community that it lists.
abbrev pub strict : Archive tree
strict = record {
  Store = archive.Store;
  recent = λ s node_type quantity. ok (1 ∷ []);
  get = archive.get;
  get_identity = archive.get_identity;
  descendants_of = archive.descendants_of;
  add_as = archive.add_as;
  leaves_of = archive.leaves_of;
  validate_deep =
      λ s n. if tree.parent_id n == 0 then ok tt else parent_found (find s (tree.parent_id n));
  is_expired = archive.is_expired;
  sort_by = archive.sort_by;
}

abbrev pub strict_worker : List ℕ → Worker tree strict
strict_worker ns = new_worker tree strict [] [] ns 0 0 []

strict-KnowsAuthor :
    (n k : ℕ) (s : List ℕ) (sh : Shape ℕ)
    → KnowsAuthor tree strict s sh
    → KnowsAuthor tree strict (n ∷ s) sh
strict-KnowsAuthor n k s identity a = tt
strict-KnowsAuthor n k s other a = a
strict-KnowsAuthor n k s (community h) (m, e) = let (j, e') = find-later n s h m cc in (j, ap ok e')
strict-KnowsAuthor n k s (reply h c) (m, e) = let (j, e') = find-later n s h m cc in (j, ap ok e')

pub strict-StoreLaws : StoreLaws strict
strict-StoreLaws = record {
  keeps = record { takes = archive-KeepsNodes.takes; loses_none = archive-KeepsNodes.loses_none };
  answers = λ s h. elim (Option-cases (find s h)) [
    | inl e ↦ inl (ap ok e)
    | inr (n, e) ↦ inr (n, ap ok e)
  ];
  accepts = λ n k s v. refl;
  keeps_authors = strict-KnowsAuthor;
}

found_here :
    (m n : ℕ) (ns : List ℕ) (h : ℕ) → (suc m == h) ≡ true → find (m ∷ ns) h ≡ some n → m ≡ n
found_here m n ns h t e = ground arith

-- What holds of all nodes holds of one that is found.
find-All : (P : ℕ → Type 0) (ns : List ℕ) (h n : ℕ) → All P ns → find ns h ≡ some n → P n
find-All P [] h n a e = absurd cc
find-All P (m ∷ ns) h n (p, a) e = elim (Bool-cases (suc m == h)) [
  | inl t ↦ subst P (found_here m n ns h t e) p
  | inr f ↦ find-All P ns h n a (rw f at e)
]

abbrev pub peer_nodes : List ℕ
peer_nodes = 2 ∷ 0 ∷ 3 ∷ 1 ∷ []

abbrev pub look : ℕ → Option ℕ
look = find peer_nodes

-- Every reply is in the community of node 1.
abbrev IsInCommunity : ℕ → Type 0
IsInCommunity n =
    (p a c : ℕ)
    → tree.shape n ≡ reply a c
    → look (tree.parent_id n) ≡ some p
    → (p + 1 ≡ c) ⊎ ((b : ℕ) × (tree.shape p ≡ reply b c))

under_community : IsInCommunity 2
under_community p a c q k = let d : p ≡ 1 = cc in let e : c ≡ 2 = cc in inl (omega (arith, d, e))

under_reply : IsInCommunity 3
under_reply p a c q k =
    let d : 2 ≡ p = cc in
    let e : 2 ≡ c = cc in inr (1, subst (λ x. tree.shape x ≡ reply 1 c) d (ap (reply 1) e))

tree-AreDeeper : AreDeeper tree strict look
tree-AreDeeper n p e = elim (Bool-cases (n == 1)) [
  | inl t ↦ absurd (not_found (rw t at e))
  | inr f ↦ let h = find-hash peer_nodes n p (rw f at e) in ground (arith, h, f)
]
  where
    not_found : look 0 ≡ some p → ⊥
    not_found h = cc

pub look-IsRooted : IsRooted strict look
look-IsRooted = record {
  ids = λ h n e. omega (arith, find-hash peer_nodes h n e);
  deeper = tree-AreDeeper;
  closed = λ h n e.
      find-All
        (λ m. ((tree.parent_id m == 0) ≡ true) ⊎ ((p : ℕ) × (look (tree.parent_id m) ≡ some p)))
        peer_nodes h n (inr (1, refl), (inl refl, (inr (2, refl), (inl refl, tt)))) e;
  reply_not_root = λ h n a c e.
      find-All (λ m. tree.shape m ≡ reply a c → (tree.parent_id m == 0) ≡ false) peer_nodes h n
        ((λ q. refl), ((λ q. absurd cc), ((λ q. refl), ((λ q. absurd cc), tt)))) e;
  in_community = λ h n p a c e q k.
      find-All IsInCommunity peer_nodes h n
        (under_community, ((λ p a c q k. absurd cc), (under_reply, ((λ p a c q k. absurd cc), tt))))
        e p a c q k;
}

parent_found-strict :
    (n m : ℕ) (s : List ℕ) → find s (tree.parent_id n) ≡ some m → strict.validate_deep s n ≡ ok tt
parent_found-strict n m s e = rw e (ground arith)

pub strict-AreValid : AreValid strict look
strict-AreValid h n s l a (inl t) c = rw t refl
strict-AreValid h n s l a (inr (m, e)) c = parent_found-strict n m s (cc)

pub look-KnowsAuthors : KnowsAuthors strict look (0 ∷ [])
look-KnowsAuthors h n e =
    find-All (λ m. KnowsAuthor tree strict (0 ∷ []) (tree.shape m)) peer_nodes h n
      ((0, refl), (tt, ((0, refl), ((0, refl), tt)))) e

pub strict-SortLaws : SortLaws strict
strict-SortLaws = record {
  sort-IsSorted = archive-SortLaws.sort-IsSorted;
  sort-Shuffles = archive-SortLaws.sort-Shuffles;
}

abbrev pub strict_view : View tree
strict_view = record {
  look = look;
  listed = λ t q. 1 ∷ [];
  below = λ h. hashes peer_nodes;
  has_expired = λ n. n == 7;
}

pub strict-IsAnswering : IsAnswering strict strict_view peer_nodes 0
strict-IsAnswering = record {
  get_look = λ h. refl;
  recent_listed = λ t q. refl;
  descendants_below = λ h. refl;
  expired_now = λ n. refl;
}

found_newer :
    (n m : ℕ) (s : List ℕ) (h : ℕ)
    → find (n ∷ s) h ≡ some m
    → (strict.get s h ≡ ok (some m)) ⊎ (n ≡ m)
found_newer n m s h e = elim (Bool-cases (suc n == h)) [
  | inl t ↦ inr (found_here n m s h t e)
  | inr f ↦ inl (ap ok (rw f at e))
]

needs_parent : (s : List ℕ) (n : ℕ) → strict.validate_deep s n ≡ ok tt → HasParent strict s n
needs_parent s n v = elim (Bool-cases (tree.parent_id n == 0)) [
  | inl t ↦ inl t
  | inr f ↦ elim (Option-cases (find s (tree.parent_id n))) [
    | inl g ↦ absurd (refused (rw (f, g) at v))
    | inr (m, g) ↦ inr (m, ap ok g)
  ]
]
  where
    refused : parent_found none ≡ ok tt → ⊥
    refused r = cc

pub strict-StrictLaws : StrictLaws strict
strict-StrictLaws = record {
  gains = λ s n m k h e. found_newer n m s h cc;
  needs_parent = needs_parent;
  community_is_root = λ n author e. ground (arith, e);
  found_by_id =
      λ s h n e. let found : find s h ≡ some n = cc in omega (arith, find-hash s h n found);
  same_id = λ n m e. omega (arith, e);
}

-- A store with node 0 alone.
pub root-IsClosed : IsClosed strict (0 ∷ [])
root-IsClosed h n e =
    let found : find (0 ∷ []) h ≡ some n = cc in
    find-All (HasParent strict (0 ∷ [])) (0 ∷ []) h n (inl refl, tt) found

pub look-EndsAtRoots : EndsAtRoots strict look
look-EndsAtRoots n t = elim (Bool-cases (n == 1)) [
  | inl one ↦ rw one refl
  | inr f ↦ let z : n ≡ 0 = ground (arith, t, f) in rw z refl
]

tree-ne-other : (n : ℕ) → tree.shape n ≢ other
tree-ne-other n = elim (Bool-cases (n == 0)) [
  | inl t ↦ rw t (λ e. cc)
  | inr f ↦ elim (Bool-cases (n == 1)) [ inl t ↦ rw (f, t) (λ e. cc) | inr g ↦ rw (f, g) (λ e. cc) ]
]

pub strict-ListsLeaves : ListsLeaves strict
strict-ListsLeaves = record {
  lists = λ s h. (hashes s, refl);
  no_other = λ s h n e. tree-ne-other n;
}
