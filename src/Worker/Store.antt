-- ===== src/Worker/Store.antt =====
-- What the worker uses of forest-go's package store, of forest-ex's package expiration, and of
-- `sort.Slice`, none of which is in the repository. Reading a store does not change it.
use sprout_go.Base.{ℕ, Bool, Option, List}
use sprout_go.Base.Int.{ℤ}
use sprout_go.Base.Exec.{Result}
use sprout_go.Forest.{Forest}

pub record Archive (F : Forest) : Type 1 where
  -- store.ExtendedStore
  pub Store : Type 0
  -- the methods Recent, Get, GetIdentity, DescendantsOf and AddAs
  pub recent : Store → ℕ → ℤ → Result (List F.Node)
  pub get : Store → F.Hash → Result (Option F.Node)
  pub get_identity : Store → F.Hash → Result (Option F.Node)
  pub descendants_of : Store → F.Hash → Result (List F.Hash)
  pub add_as : F.Node → ℕ → Store → Result (Unit {0}) × Store
  -- LeavesOf of store.NewArchive
  pub leaves_of : Store → F.Hash → Result (List F.Hash)
  -- node.ValidateDeep(store)
  pub validate_deep : Store → F.Node → Result (Unit {0})
  -- expiration.IsExpired, at a time
  pub is_expired : ℕ → F.Node → Result Bool
  -- sort.Slice by a number: the order among equal numbers is the library's
  pub sort_by : (F.Node → ℕ) → List F.Node → List F.Node
