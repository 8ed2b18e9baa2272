-- ===== src/ExpiringSet.antt =====
-- cmd/relay/expiring_set.go: a set of strings whose elements go away after a lifetime. Each call of
-- `time.Now` is an argument, a number of nanoseconds; lifetimes are not negative. The Go map is an
-- association list with one entry for each key.
pub mod View
pub mod Bounds
pub mod History
pub mod Tests
use text.Mathlib.Text.{◌==◌ as str_eq}
use sprout_go.Base.{
  ℕ, ◌+◌, String, Bool, true, false, Option, none, some, List, [], ◌∷◌, ltb, not, if◌then◌else◌,
}

-- The type `record`: a string with the time at which it expires.
pub record Record : Type 0 where
  pub element : String
  pub expiration : ℕ

pub record ExpiringSet : Type 0 where
  pub elements : List Record

-- NewExpiringSet
abbrev pub new_expiring_set : ExpiringSet
new_expiring_set = record { elements = [] }

-- value.expiration.Before(now)
abbrev pub is_past : ℕ → Record → Bool
is_past now r = ltb r.expiration now

-- s.elements[element]
unfoldable pub lookup : String → List Record → Option Record
lookup k [] = none
lookup k (r ∷ rs) = if str_eq r.element k then some r else lookup k rs

-- s.elements[r.element] = r
unfoldable pub store : Record → List Record → List Record
store r [] = r ∷ []
store r (x ∷ xs) = if str_eq x.element r.element then r ∷ xs else x ∷ store r xs

-- The loop of purge: what has expired is deleted.
unfoldable pub purge_loop : ℕ → List Record → List Record
purge_loop now [] = []
purge_loop now (r ∷ rs) = let rest = purge_loop now rs in if is_past now r then rest else r ∷ rest

unfoldable pub purge : ℕ → ExpiringSet → ExpiringSet
unfolding purge_loop
purge now s = record s { elements = purge_loop now s.elements }

-- Add: the clock is read by purge, and once more for the expiration.
unfoldable pub add : ℕ → ℕ → String → ℕ → ExpiringSet → ExpiringSet
unfolding purge
add purged now element lifetime s = record s {
  elements =
      store (record { element = element; expiration = now + lifetime }) (purge purged s).elements;
}

abbrev pub is_present : Option Record → Bool
is_present none = false
is_present (some r) = true

-- Has, with the purge that it makes.
unfoldable pub has : ℕ → String → ExpiringSet → Bool × ExpiringSet
unfolding purge
has now element s = let s' = purge now s in (is_present (lookup element s'.elements), s')
