-- ===== src/Session.antt =====
-- session.go: the communities to which a connection is subscribed. The keys of the Go map are
-- pointers to community IDs, so an entry is an address with the ID that stands there. The list is
-- in the order in which `range` visits the map, which Go leaves open: what is proved holds for
-- every order. `Equals` of the IDs is the interface `Eq`.
pub mod Count
pub mod Order
pub mod Bag
pub mod Tests
use sprout_go.Base.{ℕ, ◌≡◌, ◌≢◌, Bool, true, false, List, [], ◌∷◌, ◌==◌, if◌then◌else◌, Eq, All}

pub record Entry (H : Type 0) : Type 0 where
  pub address : ℕ
  pub community : H

pub record Session (H : Type 0) : Type 0 where
  pub communities : List (Entry H)

-- Is this pointer a key of the map?
abbrev pub has_key : {H : Type 0} → ℕ → List (Entry H) → Bool
has_key p [] = false
has_key p (x ∷ xs) = if x.address == p then true else has_key p xs

-- NewSession
abbrev pub new_session : {H : Type 0} → Session H
new_session = record { communities = [] }

-- Subscribe, of a pointer and the ID that it points to.
unfoldable pub subscribe : {H : Type 0} → ℕ → H → Session H → Session H
subscribe p h s =
    if has_key p s.communities
    then s
    else record s { communities = (record { address = p; community = h }) ∷ s.communities }

module _ {H : Type 0} ⦃e : Eq H⦄ where
  -- The loop of IsSubscribed.
  unfoldable pub any_equal : H → List (Entry H) → Bool
  any_equal h [] = false
  any_equal h (x ∷ xs) = if e.beq x.community h then true else any_equal h xs

  -- IsSubscribed
  unfoldable pub is_subscribed : H → Session H → Bool
  unfolding any_equal
  is_subscribed h s = any_equal h s.communities

  -- The loop of Unsubscribe: the first equal entry is deleted, and the loop returns.
  unfoldable pub delete_first : H → List (Entry H) → List (Entry H)
  delete_first h [] = []
  delete_first h (x ∷ xs) = if e.beq x.community h then xs else x ∷ delete_first h xs

  -- Unsubscribe
  unfoldable pub unsubscribe : H → Session H → Session H
  unfolding delete_first
  unsubscribe h s = record s { communities = delete_first h s.communities }
