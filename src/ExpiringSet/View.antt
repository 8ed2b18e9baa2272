-- ===== src/ExpiringSet/View.antt =====
-- What a caller can observe of the set: when each element expires. Purging is not observable.
use text.Mathlib.Text.{◌==◌ as str_eq}
use text.Mathlib.TextEquality.{eq_iff}
use sprout_go.Base.{
  ℕ, ◌+◌, ◌≤◌, ◌≡◌, refl, String, Bool, false, Option, none, some, List, [], ◌∷◌, arith, leb,
  if◌then◌else◌,
}
use sprout_go.ExpiringSet.{Record, ExpiringSet, lookup, store, purge_loop, add, is_present, has}

-- Each key of the map stands once.
abbrev pub IsMap : List Record → Type 0
IsMap [] = Unit {0}
IsMap (r ∷ rs) = (lookup r.element rs ≡ none) × IsMap rs

-- Is the element there, and not expired, at a time?
abbrev pub alive : ℕ → Option Record → Bool
alive now none = false
alive now (some r) = leb now r.expiration

unfoldable pub is_alive : ℕ → String → ExpiringSet → Bool
is_alive now k s = alive now (lookup k s.elements)

lookup-purge_loop :
    (now : ℕ) (k : String) (rs : List Record)
    → lookup k rs ≡ none
    → lookup k (purge_loop now rs) ≡ none
unfolding lookup purge_loop
lookup-purge_loop now k [] e = refl
lookup-purge_loop now k (r ∷ rs) e = ground (arith, lookup-purge_loop now k rs)

alive-purge_loop :
    (t now : ℕ) (k : String) (rs : List Record)
    → IsMap rs
    → t ≤ now
    → alive now (lookup k (purge_loop t rs)) ≡ alive now (lookup k rs)
unfolding lookup purge_loop
alive-purge_loop t now k [] m h = refl
alive-purge_loop t now k (r ∷ rs) m h =
    ground (arith, alive-purge_loop t now k rs m.1 h, lookup-purge_loop t k rs, eq_iff r.element k)

is_present-purge_loop :
    (now : ℕ) (k : String) (rs : List Record)
    → IsMap rs
    → is_present (lookup k (purge_loop now rs)) ≡ alive now (lookup k rs)
unfolding lookup purge_loop
is_present-purge_loop now k [] m = refl
is_present-purge_loop now k (r ∷ rs) m =
    ground
      (arith, is_present-purge_loop now k rs m.1, lookup-purge_loop now k rs, eq_iff r.element k)

lookup-store :
    (k : String) (r : Record) (rs : List Record)
    → lookup k (store r rs) ≡ (if str_eq r.element k then some r else lookup k rs)
unfolding lookup store
lookup-store k r [] = refl
lookup-store k r (x ∷ xs) =
    ground (
      arith,
      lookup-store k r xs,
      eq_iff x.element r.element,
      eq_iff x.element k,
      eq_iff r.element k,
    )

-- Has answers whether the element was added and its time has not passed.
pub has-is_alive :
    (now : ℕ) (k : String) (s : ExpiringSet) → IsMap s.elements → (has now k s).0 ≡ is_alive now k s
unfolding has is_alive
has-is_alive now k s m = is_present-purge_loop now k s.elements m

-- After Add, an element is alive at a later time exactly up to the added one's expiration, which
-- replaces an earlier one; every other element is as alive as it was.
pub is_alive-add :
    (t now later lifetime : ℕ) (element k : String) (s : ExpiringSet)
    → IsMap s.elements
    → t ≤ later
    → is_alive later k (add t now element lifetime s)
      ≡ (if str_eq element k then leb later (now + lifetime) else is_alive later k s)
unfolding add is_alive
is_alive-add t now later lifetime element k s m h = ground (
  arith,
  lookup-store k (record { element = element; expiration = now + lifetime })
      (purge_loop t s.elements),
  alive-purge_loop t later k s.elements m h,
)

-- A call of Has changes nothing that a later call can observe.
pub is_alive-has :
    (t later : ℕ) (element k : String) (s : ExpiringSet)
    → IsMap s.elements
    → t ≤ later
    → is_alive later k (has t element s).1 ≡ is_alive later k s
unfolding has is_alive
is_alive-has t later element k s m h = alive-purge_loop t later k s.elements m h

purge_loop-IsMap : (now : ℕ) (rs : List Record) → IsMap rs → IsMap (purge_loop now rs)
unfolding purge_loop
purge_loop-IsMap now [] m = tt
purge_loop-IsMap now (r ∷ rs) m =
    ground (arith, purge_loop-IsMap now rs m.1, lookup-purge_loop now r.element rs m.0)

store-IsMap : (r : Record) (rs : List Record) → IsMap rs → IsMap (store r rs)
unfolding lookup store
store-IsMap r [] m = ground arith
store-IsMap r (x ∷ xs) m = ground (
  arith,
  store-IsMap r xs m.1,
  lookup-store x.element r xs,
  eq_iff x.element r.element,
  eq_iff r.element x.element,
)

-- Add keeps one entry for each key.
pub add-IsMap :
    (t now lifetime : ℕ) (element : String) (s : ExpiringSet)
    → IsMap s.elements
    → IsMap (add t now element lifetime s).elements
unfolding add
add-IsMap t now lifetime element s m = store-IsMap _ _ (purge_loop-IsMap t s.elements m)

-- So does Has.
pub has-IsMap :
    (t : ℕ) (element : String) (s : ExpiringSet)
    → IsMap s.elements
    → IsMap (has t element s).1.elements
unfolding has
has-IsMap t element s m = purge_loop-IsMap t s.elements m
