-- ===== src/Worker/Toy.antt =====
-- A small node store over the example forest: the list of the nodes that were added, the latest
-- first. Nodes below 100 are valid, and node 7 has expired.
use sprout_go.Base.{
  ℕ, suc, ◌+◌, ◌<◌, ◌≡◌, ap, subst, Bool-cases, inl, inr, Option, none, some, List, [], ◌∷◌, ◌==◌,
  ltb, All, arith, if◌then◌else◌,
}
use sprout_go.Base.Exec.{ok, err}
use sprout_go.Base.Errors.{message}
use sprout_go.Example.{forest, hash_eq}
use sprout_go.Worker.Store.{Archive}
use sprout_go.Worker.State.{Worker}
use sprout_go.Worker.Run.{new_worker}
use sprout_go.Worker.Gained.{KeepsNodes}
use sprout_go.Worker.Keeps.{IsKeptByValid, IsKeptByCommunity}

-- The node with this hash.
abbrev pub find : List ℕ → ℕ → Option ℕ
find [] h = none
find (n ∷ ns) h = if suc n == h then some n else find ns h

abbrev pub insert : (ℕ → ℕ) → ℕ → List ℕ → List ℕ
insert key n [] = n ∷ []
insert key n (m ∷ ms) =
    let rest = insert key n ms in if ltb (key m) (key n) then m ∷ rest else n ∷ m ∷ ms

abbrev pub sort : (ℕ → ℕ) → List ℕ → List ℕ
sort key [] = []
sort key (n ∷ ns) = insert key n (sort key ns)

abbrev pub hashes : List ℕ → List ℕ
hashes [] = []
hashes (n ∷ ns) = suc n ∷ hashes ns

abbrev pub archive : Archive forest
archive = record {
  Store = List ℕ;
  recent = λ s node_type quantity. ok s;
  get = λ s h. ok (find s h);
  get_identity = λ s h. ok (find s h);
  descendants_of = λ s h. ok (hashes s);
  add_as = λ n subscription s. (ok tt, n ∷ s);
  leaves_of = λ s h. ok (hashes s);
  validate_deep = λ s n. if ltb n 100 then ok tt else err (message "invalid");
  is_expired = λ now n. ok (n == 7);
  sort_by = sort;
}

-- A store that cannot be read.
abbrev pub broken : Archive forest
broken = record archive { get = λ s h. err (message "broken") }

-- A worker over these nodes, on a working transport on which nothing comes.
abbrev pub worker : List ℕ → Worker forest archive
worker ns = new_worker forest archive [] [] ns 0 0 []

abbrev pub AreValid : List ℕ → Type 0
AreValid ns = All (λ n. n < 100) ns

pub small_IsKeptByValid : IsKeptByValid forest archive AreValid
small_IsKeptByValid = record { add_valid = λ s n subscription h e. (ground arith, h) }

pub small_IsKeptByCommunity : IsKeptByCommunity forest archive AreValid
small_IsKeptByCommunity = record {
  add_community = λ s n author subscription h e. (ground (arith, e), h);
}

pub find-later :
    (n : ℕ) (s : List ℕ) (h m : ℕ) → find s h ≡ some m → (k : ℕ) × (find (n ∷ s) h ≡ some k)
find-later n s h m e = elim (Bool-cases (suc n == h)) [ inl t ↦ (n, rw t) | inr f ↦ (m, rw (f, e)) ]

pub archive-KeepsNodes : KeepsNodes archive
archive-KeepsNodes = record {
  takes = λ n k s s' e.
      (n, subst (λ t. ok (find t (n + 1)) ≡ ok (some n)) (ap (λ p. p.1) e) (ground arith));
  loses_none = λ n k s h (m, e). let (j, e') = find-later n s h m cc in (j, ap ok e');
}
