-- ===== src/Worker/RootFirstTests.antt =====
-- The ancestry of the node 3 of the example, whose ancestors are the nodes 2, 1 and 0.
use sprout_go.Base.{
  ℕ, suc, ◌≤◌, ◌≡◌, refl, some, List, [], ◌∷◌, All, arith, ltb, Bool-cases, inl, inr,
}
use sprout_go.Base.Int.{pos}
use sprout_go.Base.Exec.{ok}
use sprout_go.Base.Sorted.{
  Shuffles, none_left, insert_one, Inserts, at_head, behind, IsSorted, turned_round,
}
use sprout_go.Example.{forest}
use sprout_go.Worker.Handlers.{on_ancestry}
use sprout_go.Worker.Answers.{responded}
use sprout_go.Worker.Lineage.{AreAncestors}
use sprout_go.Worker.RootFirst.{SortLaws, AreDeeper, on_ancestry-root_first}
use sprout_go.Worker.Toy.{archive, worker, find, insert, sort}

insert-Inserts : (key : ℕ → ℕ) (n : ℕ) (ms : List ℕ) → Inserts n ms (insert key n ms)
insert-Inserts key n [] = at_head []
insert-Inserts key n (m ∷ ms) = elim (Bool-cases (ltb (key m) (key n))) [
  | inl t ↦ rw t (behind m (insert-Inserts key n ms))
  | inr f ↦ rw f (at_head (m ∷ ms))
]

sort-Shuffles : (key : ℕ → ℕ) (ms : List ℕ) → Shuffles ms (sort key ms)
sort-Shuffles key [] = none_left
sort-Shuffles key (m ∷ ms) =
    insert_one m (sort-Shuffles key ms) (insert-Inserts key m (sort key ms))

weaken :
    (key : ℕ → ℕ) (a b : ℕ) (ms : List ℕ)
    → a ≤ b
    → All (λ m. b ≤ key m) ms
    → All (λ m. a ≤ key m) ms
weaken key a b [] h l = tt
weaken key a b (m ∷ ms) h (k, l) = (omega (arith, h, k), weaken key a b ms h l)

insert-All :
    (key : ℕ → ℕ) (a n : ℕ) (ms : List ℕ)
    → a ≤ key n
    → All (λ m. a ≤ key m) ms
    → All (λ m. a ≤ key m) (insert key n ms)
insert-All key a n [] h l = (h, tt)
insert-All key a n (m ∷ ms) h (k, l) = ground (arith, insert-All key a n ms h l, h, k, l)

insert-IsSorted :
    (key : ℕ → ℕ) (n : ℕ) (ms : List ℕ) → IsSorted key ms → IsSorted key (insert key n ms)
insert-IsSorted key n [] s = (tt, tt)
insert-IsSorted key n (m ∷ ms) (l, s) = elim (Bool-cases (ltb (key m) (key n))) [
  | inl t ↦ rw t (insert-All key (key m) n ms (ground (arith, t)) l, insert-IsSorted key n ms s)
  | inr f ↦
      let h : key n ≤ key m = ground (arith, f) in
      rw f ((h, weaken key (key n) (key m) ms h l), (l, s))
]

sort-IsSorted : (key : ℕ → ℕ) (ms : List ℕ) → IsSorted key (sort key ms)
sort-IsSorted key [] = tt
sort-IsSorted key (m ∷ ms) = insert-IsSorted key m (sort key ms) (sort-IsSorted key ms)

pub archive-SortLaws : SortLaws archive
archive-SortLaws = record { sort-IsSorted = sort-IsSorted; sort-Shuffles = sort-Shuffles }

pub find-hash : (ns : List ℕ) (h p : ℕ) → find ns h ≡ some p → suc p ≡ h
find-hash [] h p e = absurd cc
find-hash (n ∷ ns) h p e = ground (arith, find-hash ns h p)

pub find-AreDeeper : (ns : List ℕ) → AreDeeper forest archive (find ns)
find-AreDeeper ns n p e = omega (arith, find-hash ns n p e)

on_ancestry-root_first_example :
    (ps : List ℕ) × (on_ancestry forest archive (pos 4) 4 (pos 5) (worker (2 ∷ 0 ∷ 3 ∷ 1 ∷ []))
      ≡ (ok tt, responded forest archive (pos 4) (turned_round ps) (worker (2 ∷ 0 ∷ 3 ∷ 1 ∷ []))))
    × AreAncestors forest archive (find (2 ∷ 0 ∷ 3 ∷ 1 ∷ [])) 5 3 ps
on_ancestry-root_first_example =
    (on_ancestry-root_first forest archive (pos 4) 4 (pos 5) (find (2 ∷ 0 ∷ 3 ∷ 1 ∷ []))
        (worker (2 ∷ 0 ∷ 3 ∷ 1 ∷ [])) archive-SortLaws (find-AreDeeper (2 ∷ 0 ∷ 3 ∷ 1 ∷ []))
        (λ k. refl) refl).0
      3 refl
