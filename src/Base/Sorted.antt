-- ===== src/Base/Sorted.antt =====
-- Sorted lists, and lists with the same elements in another order.
use Prim.Native.Nat.{ℕ, ◌≤◌, ◌<◌}
use mathlib.Core.Path.{◌≡◌, ◌∙◌, refl, ap}
use mathlib.Core.List.{List, [], ◌∷◌, ◌++◌}
use native.Mathlib.Omega.{arith}
use sprout_go.Base.Lists.{All, All-append}

module _ {ℓ} {T : Type ℓ} where
  -- The second list is the first with an element inserted.
  pub data Inserts (x : T) : List T → List T → Type ℓ where
    at_head : (xs : List T) → Inserts x xs (x ∷ xs)
    behind : {xs ys : List T} (y : T) → Inserts x xs ys → Inserts x (y ∷ xs) (y ∷ ys)

  -- The second list has the elements of the first, in any order.
  pub data Shuffles : List T → List T → Type ℓ where
    none_left : Shuffles [] []
    insert_one :
        {xs ys zs : List T} (x : T) → Shuffles xs ys → Inserts x ys zs → Shuffles (x ∷ xs) zs

  abbrev pub turned_round : List T → List T
  turned_round [] = []
  turned_round (x ∷ xs) = turned_round xs ++ x ∷ []

  module _ (key : T → ℕ) where
    abbrev pub IsSorted : List T → Type 0
    IsSorted [] = Unit
    IsSorted (x ∷ xs) = All (λ y. key x ≤ key y) xs × IsSorted xs

    -- From the largest key to the smallest, with no key twice.
    abbrev pub IsFalling : List T → Type 0
    IsFalling [] = Unit
    IsFalling (x ∷ xs) = All (λ y. key y < key x) xs × IsFalling xs

    Inserts-All :
        {x : T} {xs ys : List T} (P : T → Type 0) → Inserts x xs ys → All P ys → P x × All P xs
    Inserts-All P (at_head xs) (p, a) = (p, a)
    Inserts-All P (behind y i) (p, a) = let (q, b) = Inserts-All P i a in (q, (p, b))

    All-Inserts :
        {x : T} {xs ys : List T} (P : T → Type 0) → Inserts x xs ys → P x → All P xs → All P ys
    All-Inserts P (at_head xs) p a = (p, a)
    All-Inserts P (behind y i) p (q, a) = (q, All-Inserts P i p a)

    All-Shuffles : {xs ys : List T} (P : T → Type 0) → Shuffles xs ys → All P xs → All P ys
    All-Shuffles P none_left a = tt
    All-Shuffles P (insert_one x s i) (p, a) = All-Inserts P i p (All-Shuffles P s a)

    Inserts-IsSorted : {x : T} {xs ys : List T} → Inserts x xs ys → IsSorted ys → IsSorted xs
    Inserts-IsSorted (at_head xs) (l, s) = s
    Inserts-IsSorted (behind y i) (l, s) =
        ((Inserts-All (λ z. key y ≤ key z) i l).1, Inserts-IsSorted i s)

    -- What is larger than all others stands at the end of a sorted list.
    largest_last :
        {x : T} {xs ys : List T}
        → Inserts x xs ys
        → IsSorted ys
        → All (λ z. key z < key x) xs
        → ys ≡ xs ++ x ∷ []
    largest_last (at_head []) s a = refl
    largest_last {x} (at_head (z ∷ xs)) (l, s) a = absurd (omega (arith, l.0, a.0))
    largest_last (behind y i) (l, s) (b, a) = ap (λ zs. y ∷ zs) (largest_last i s a)

    -- A falling list is sorted by turning it round, and in no other way.
    pub Shuffles-turned_round :
        {xs ys : List T} → Shuffles xs ys → IsSorted ys → IsFalling xs → ys ≡ turned_round xs
    Shuffles-turned_round none_left s f = refl
    Shuffles-turned_round (insert_one x h i) s (a, f) =
        largest_last i s (All-Shuffles (λ z. key z < key x) h a)
        ∙ ap (λ zs. zs ++ x ∷ []) (Shuffles-turned_round h (Inserts-IsSorted i s) f)

    -- From the smallest key to the largest, with no key twice.
    abbrev pub IsRising : List T → Type 0
    IsRising [] = Unit
    IsRising (x ∷ xs) = All (λ y. key x < key y) xs × IsRising xs

    -- What is smaller than all others stands at the head of a sorted list.
    smallest_first :
        {x : T} {xs ys : List T}
        → Inserts x xs ys
        → IsSorted ys
        → All (λ z. key x < key z) xs
        → ys ≡ x ∷ xs
    smallest_first (at_head xs) s a = refl
    smallest_first {x} (behind y i) (l, s) (p, a) =
        absurd (omega (arith, p, (Inserts-All (λ z. key y ≤ key z) i l).0))

    -- A rising list is sorted already.
    pub Shuffles-IsRising : {xs ys : List T} → Shuffles xs ys → IsSorted ys → IsRising xs → ys ≡ xs
    Shuffles-IsRising none_left s f = refl
    Shuffles-IsRising (insert_one x h i) s (a, f) =
        smallest_first i s (All-Shuffles (λ z. key x < key z) h a)
        ∙ ap (λ zs. x ∷ zs) (Shuffles-IsRising h (Inserts-IsSorted i s) f)

    All-turned_round : (P : T → Type 0) (xs : List T) → All P xs → All P (turned_round xs)
    All-turned_round P [] a = tt
    All-turned_round P (x ∷ xs) (p, a) =
        All-append P (turned_round xs) (x ∷ []) (All-turned_round P xs a) (p, tt)

    append-IsRising :
        (xs : List T) (x : T) → IsRising xs → All (λ z. key z < key x) xs → IsRising (xs ++ x ∷ [])
    append-IsRising [] x r a = (tt, tt)
    append-IsRising (y ∷ xs) x (l, r) (p, a) =
        (All-append (λ z. key y < key z) xs (x ∷ []) l (p, tt), append-IsRising xs x r a)

    -- A falling list turned round is rising.
    pub turned_round-IsRising : (xs : List T) → IsFalling xs → IsRising (turned_round xs)
    turned_round-IsRising [] f = tt
    turned_round-IsRising (x ∷ xs) (a, f) =
        append-IsRising (turned_round xs) x (turned_round-IsRising xs f)
          (All-turned_round (λ z. key z < key x) xs a)
