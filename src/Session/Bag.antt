-- ===== src/Session/Bag.antt =====
-- A session, with the pointers and the order of its map forgotten: how often each community is
-- subscribed.
use mathlib.Core.Quot
use mathlib.Core.Quot.{Quot}
use mathlib.Core.Bool.{Bool-set}
use mathlib.Core.List.{Perm}
use sprout_go.Base.{ℕ, ◌-◌, ◌≡◌, ◌∙◌, sym, ap, Bool, false, arith, ltb, if◌then◌else◌, Eq}
use sprout_go.Session.{Session, has_key, subscribe, unsubscribe, is_subscribed}
use sprout_go.Session.Count.{count, is_subscribed-count, count-subscribe, count-unsubscribe}
use sprout_go.Session.Order.{count-Perm}

module _ (H : Type 0) ⦃e : Eq H⦄ where
  abbrev SameCounts : Session H → Session H → Type 0
  SameCounts s t = (k : H) → count k s.communities ≡ count k t.communities

  abbrev pub Bag : Type 0
  Bag = Quot SameCounts

module _ {H : Type 0} ⦃e : Eq H⦄ where
  abbrev pub bag : Session H → Bag H
  bag s = Quot.mk s

  -- IsSubscribed does not look behind the bag.
  is_subscribed_in : H → Bag H → Bool
  is_subscribed_in h =
      Quot.lift Bool-set (is_subscribed h)
        (λ s t c. is_subscribed-count h s ∙ ap (ltb 0) (c h) ∙ sym (is_subscribed-count h t))

  -- Sessions with the same bag answer the same. Unsubscribing from sessions whose maps have the same
  -- entries in any two orders leaves the same bag, whichever entry is found first. It undoes a
  -- subscription through a pointer that is no key yet.
  pub bag-unsubscribe :
      (h k : H) (s t : Session H) (p : ℕ)
      → (bag s ≡ bag t → is_subscribed k s ≡ is_subscribed k t)
        × (Perm s.communities t.communities → bag (unsubscribe h s) ≡ bag (unsubscribe h t))
        × (has_key p s.communities ≡ false → bag (unsubscribe h (subscribe p h s)) ≡ bag s)
  unfolding is_subscribed_in is_subscribed
  bag-unsubscribe h k s t p = (
    ap (is_subscribed_in k),
    λ o. Quot.sound (λ j.
        count-unsubscribe h j s
        ∙ ap (λ n. if e.beq h j then n - 1 else n) (count-Perm j s.communities t.communities o)
        ∙ sym (count-unsubscribe h j t)),
    λ f. Quot.sound (λ j.
        count-unsubscribe h j (subscribe p h s)
        ∙ ap (λ n. if e.beq h j then n - 1 else n) (count-subscribe p h j s f)
        ∙ ground arith),
  )
