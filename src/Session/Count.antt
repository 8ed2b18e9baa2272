-- ===== src/Session/Count.antt =====
-- A session as a multiset of communities: how often each one is subscribed.
use sprout_go.Base.{
  ℕ, suc, ◌+◌, ◌-◌, ◌≡◌, refl, false, List, [], ◌∷◌, arith, ltb, if◌then◌else◌, Eq,
}
use sprout_go.Session.{
  Entry, Session, has_key, subscribe, any_equal, is_subscribed, delete_first, unsubscribe,
}

module _ {H : Type 0} ⦃e : Eq H⦄ where
  unfoldable pub count : H → List (Entry H) → ℕ
  count h [] = 0
  count h (x ∷ xs) = if e.beq x.community h then suc (count h xs) else count h xs

  any_equal-count : (h : H) (xs : List (Entry H)) → any_equal h xs ≡ ltb 0 (count h xs)
  unfolding any_equal count
  any_equal-count h [] = refl
  any_equal-count h (x ∷ xs) = ground (arith, any_equal-count h xs)

  -- A community is subscribed exactly when the session has an entry for it.
  pub is_subscribed-count :
      (h : H) (s : Session H) → is_subscribed h s ≡ ltb 0 (count h s.communities)
  unfolding is_subscribed
  is_subscribed-count h s = any_equal-count h s.communities

  -- Subscribing through a pointer that is no key yet adds one entry for that community and leaves
  -- every other community as it was.
  pub count-subscribe :
      (p : ℕ) (h k : H) (s : Session H)
      → has_key p s.communities ≡ false
      → count k (subscribe p h s).communities
        ≡ (if e.beq h k then count k s.communities + 1 else count k s.communities)
  unfolding subscribe count
  count-subscribe p h k s fresh = ground arith

  count-delete_first :
      (h k : H) (xs : List (Entry H))
      → count k (delete_first h xs) ≡ (if e.beq h k then count k xs - 1 else count k xs)
  unfolding delete_first count
  count-delete_first h k [] = ground arith
  count-delete_first h k (x ∷ xs) = ground (
    arith,
    count-delete_first h k xs,
    e.beq_iff x.community h,
    e.beq_iff x.community k,
    e.beq_iff h k,
  )

  -- Unsubscribing removes one entry of that community, if there is one, and leaves every other
  -- community as it was.
  pub count-unsubscribe :
      (h k : H) (s : Session H)
      → count k (unsubscribe h s).communities
        ≡ (if e.beq h k then count k s.communities - 1 else count k s.communities)
  unfolding unsubscribe
  count-unsubscribe h k s = count-delete_first h k s.communities

  -- After an unsubscribe the community is still subscribed exactly when the session had more than
  -- one entry for it.
  is_subscribed-unsubscribe :
      (h : H) (s : Session H) → is_subscribed h (unsubscribe h s) ≡ ltb 1 (count h s.communities)
  is_subscribed-unsubscribe h s =
      ground
        (arith, is_subscribed-count h (unsubscribe h s), count-unsubscribe h h s, e.beq_iff h h)
