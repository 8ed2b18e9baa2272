-- ===== src/Conn/Distinct.antt =====
-- The channels that the messages of a connection wait on, as lists of numbers.
use sprout_go.Base.{ℕ, suc, ◌<◌, ◌≡◌, ◌≢◌, sym, some, List, [], ◌∷◌, arith}
use sprout_go.Base.Int.{ℤ}
use sprout_go.Conn.State.{Reply, lookup, delete}

abbrev pub Absent : ℕ → List ℕ → Type 0
Absent x [] = Unit {0}
Absent x (y ∷ ys) = (y ≢ x) × Absent x ys

abbrev pub AreDistinct : List ℕ → Type 0
AreDistinct [] = Unit {0}
AreDistinct (x ∷ xs) = Absent x xs × AreDistinct xs

-- The channels that are waited on, and those that were sent on.
abbrev pub waiting : List (ℤ × ℕ) → List ℕ
waiting [] = []
waiting ((i, ch) ∷ m) = ch ∷ waiting m

abbrev pub closed : {N : Type 0} → List (ℕ × Reply N) → List ℕ
closed [] = []
closed ((ch, r) ∷ d) = ch ∷ closed d

abbrev pub ApartFrom : List ℕ → List ℕ → Type 0
ApartFrom d [] = Unit {0}
ApartFrom d (x ∷ xs) = Absent x d × ApartFrom d xs

abbrev pub AllBelow : ℕ → List ℕ → Type 0
AllBelow n [] = Unit {0}
AllBelow n (x ∷ xs) = (x < n) × AllBelow n xs

pub delete-Absent :
    (x : ℕ) (i : ℤ) (m : List (ℤ × ℕ)) → Absent x (waiting m) → Absent x (waiting (delete i m))
delete-Absent x i [] a = tt
delete-Absent x i ((k, ch) ∷ m) a = ground (arith, delete-Absent x i m a.1)

pub delete-AreDistinct :
    (i : ℤ) (m : List (ℤ × ℕ)) → AreDistinct (waiting m) → AreDistinct (waiting (delete i m))
delete-AreDistinct i [] a = tt
delete-AreDistinct i ((k, ch) ∷ m) a =
    ground (arith, delete-AreDistinct i m a.1, delete-Absent ch i m a.0)

pub delete-ApartFrom :
    (d : List ℕ) (i : ℤ) (m : List (ℤ × ℕ))
    → ApartFrom d (waiting m)
    → ApartFrom d (waiting (delete i m))
delete-ApartFrom d i [] a = tt
delete-ApartFrom d i ((k, ch) ∷ m) a = ground (arith, delete-ApartFrom d i m a.1)

pub delete-AllBelow :
    (n : ℕ) (i : ℤ) (m : List (ℤ × ℕ)) → AllBelow n (waiting m) → AllBelow n (waiting (delete i m))
delete-AllBelow n i [] a = tt
delete-AllBelow n i ((k, ch) ∷ m) a = ground (arith, delete-AllBelow n i m a.1)

pub AllBelow-suc : (n : ℕ) (xs : List ℕ) → AllBelow n xs → AllBelow (suc n) xs
AllBelow-suc n [] a = tt
AllBelow-suc n (x ∷ xs) a = (omega arith, AllBelow-suc n xs a.1)

pub AllBelow-Absent : (n : ℕ) (xs : List ℕ) → AllBelow n xs → Absent n xs
AllBelow-Absent n [] a = tt
AllBelow-Absent n (x ∷ xs) a = (omega arith, AllBelow-Absent n xs a.1)

pub lookup-below :
    (n ch : ℕ) (i : ℤ) (m : List (ℤ × ℕ)) → AllBelow n (waiting m) → lookup i m ≡ some ch → ch < n
lookup-below n ch i [] a e = cc
lookup-below n ch i ((k, x) ∷ m) a e = ground (arith, lookup-below n ch i m a.1)

pub lookup-apart :
    (d : List ℕ) (ch : ℕ) (i : ℤ) (m : List (ℤ × ℕ))
    → ApartFrom d (waiting m)
    → lookup i m ≡ some ch
    → Absent ch d
lookup-apart d ch i [] a e = cc
lookup-apart d ch i ((k, x) ∷ m) a e = ground (arith, lookup-apart d ch i m a.1)

pub lookup-ne :
    (x ch : ℕ) (i : ℤ) (m : List (ℤ × ℕ)) → Absent x (waiting m) → lookup i m ≡ some ch → x ≢ ch
lookup-ne x ch i [] a e = cc
lookup-ne x ch i ((k, y) ∷ m) a e = ground (arith, lookup-ne x ch i m a.1)

-- A channel that is taken out is waited on no more.
pub lookup-Absent :
    (ch : ℕ) (i : ℤ) (m : List (ℤ × ℕ))
    → AreDistinct (waiting m)
    → lookup i m ≡ some ch
    → Absent ch (waiting (delete i m))
lookup-Absent ch i [] a e = cc
lookup-Absent ch i ((k, x) ∷ m) a e =
    ground (arith, lookup-Absent ch i m a.1, lookup-ne x ch i m a.0, delete-Absent x i m a.0)

pub ApartFrom-cons :
    (ch : ℕ) (d xs : List ℕ) → ApartFrom d xs → Absent ch xs → ApartFrom (ch ∷ d) xs
ApartFrom-cons ch d [] a b = tt
ApartFrom-cons ch d (x ∷ xs) a b = ((λ e. b.0 (sym e), a.0), ApartFrom-cons ch d xs a.1 b.1)
