-- ===== src/Session/Order.antt =====
-- The order in which Go visits the map does not matter to what a session answers, and the keys of
-- the map stay distinct.
use native.Mathlib.Nat.{ℕ_set}
use mathlib.Core.Logic.{∥∥₁_elim}
use mathlib.Core.List.{Perm, Permᴰ}
use mathlib.Core.List.Permᴰ.{nil, cons, swap, trans}
use sprout_go.Base.{ℕ, ◌≡◌, refl, ◌∙◌, false, List, [], ◌∷◌, arith, Eq}
use sprout_go.Session.Count.{count, is_subscribed-count, count-unsubscribe}
use sprout_go.Session.{Entry, Session, has_key, subscribe, is_subscribed, delete_first, unsubscribe}

-- The keys of the map are distinct.
abbrev pub HasDistinctKeys : {H : Type 0} → List (Entry H) → Type 0
HasDistinctKeys [] = Unit {0}
HasDistinctKeys (x ∷ xs) = (has_key x.address xs ≡ false) × HasDistinctKeys xs

-- Subscribing keeps the keys distinct, whether the pointer is new or not.
pub subscribe-HasDistinctKeys :
    {H : Type 0} (p : ℕ) (h : H) (s : Session H)
    → HasDistinctKeys s.communities
    → HasDistinctKeys (subscribe p h s).communities
unfolding subscribe
subscribe-HasDistinctKeys p h s d = ground arith

module _ {H : Type 0} ⦃e : Eq H⦄ where
  has_key-delete_first :
      (p : ℕ) (h : H) (xs : List (Entry H))
      → has_key p xs ≡ false
      → has_key p (delete_first h xs) ≡ false
  unfolding delete_first
  has_key-delete_first p h [] d = refl
  has_key-delete_first p h (x ∷ xs) d = ground (arith, has_key-delete_first p h xs)

  delete_first-HasDistinctKeys :
      (h : H) (xs : List (Entry H)) → HasDistinctKeys xs → HasDistinctKeys (delete_first h xs)
  unfolding delete_first
  delete_first-HasDistinctKeys h [] d = tt
  delete_first-HasDistinctKeys h (x ∷ xs) d =
      ground (arith, has_key-delete_first x.address h xs d.0, delete_first-HasDistinctKeys h xs d.1)

  -- Unsubscribing keeps the keys distinct.
  pub unsubscribe-HasDistinctKeys :
      (h : H) (s : Session H)
      → HasDistinctKeys s.communities
      → HasDistinctKeys (unsubscribe h s).communities
  unfolding unsubscribe
  unsubscribe-HasDistinctKeys h s = delete_first-HasDistinctKeys h s.communities

  count-Permᴰ : {xs ys : List (Entry H)} → Permᴰ xs ys → (h : H) → count h xs ≡ count h ys
  unfolding count
  count-Permᴰ nil h = refl
  count-Permᴰ (cons x p) h = ground (arith, count-Permᴰ p h)
  count-Permᴰ (swap x y) h = ground arith
  count-Permᴰ (trans p q) h = count-Permᴰ p h ∙ count-Permᴰ q h

  pub count-Perm : (h : H) (xs ys : List (Entry H)) → Perm xs ys → count h xs ≡ count h ys
  count-Perm h xs ys p = ∥∥₁_elim p (ℕ_set _ _) (λ q. count-Permᴰ q h)

  -- Whatever the order of the map, which entry an unsubscribe deletes makes no difference to what
  -- IsSubscribed answers afterwards, for any community.
  unsubscribe_any_order :
      (h k : H) (s t : Session H)
      → Perm s.communities t.communities
      → is_subscribed k (unsubscribe h s) ≡ is_subscribed k (unsubscribe h t)
  unsubscribe_any_order h k s t p = rw (
    is_subscribed-count k (unsubscribe h s),
    is_subscribed-count k (unsubscribe h t),
    count-unsubscribe h k s,
    count-unsubscribe h k t,
    count-Perm k s.communities t.communities p,
  )
