-- ===== src/ExpiringSet/History.antt =====
-- The set against its specification: the history of the calls made on it.
use text.Mathlib.Text.{◌==◌ as str_eq}
use sprout_go.Base.{
  ℕ, ◌+◌, ◌≤◌, ◌≡◌, ◌∙◌, refl, String, Bool, false, Option, none, some, List, [], ◌∷◌, arith, leb,
  if◌then◌else◌, All,
}
use sprout_go.ExpiringSet.{ExpiringSet, new_expiring_set, lookup, add, has}
use sprout_go.ExpiringSet.View.{
  IsMap, is_alive, has-is_alive, is_alive-add, is_alive-has, add-IsMap, has-IsMap,
}

-- A call, with what it read off the clock.
pub data Call : Type 0 where
  adds : (purged now : ℕ) → String → ℕ → Call
  asks : (purged : ℕ) → String → Call

abbrev pub purged_at : Call → ℕ
purged_at (adds purged now element lifetime) = purged
purged_at (asks purged element) = purged

unfoldable pub apply : Call → ExpiringSet → ExpiringSet
apply (adds purged now element lifetime) s = add purged now element lifetime s
apply (asks purged element) s = (has purged element s).1

-- The set after a history, whose latest call stands first.
unfoldable pub replay : List Call → ExpiringSet
replay [] = new_expiring_set
replay (c ∷ h) = apply c (replay h)

-- When does an element expire? At the end of the lifetime of the latest Add of it.
abbrev pub expires : String → List Call → Option ℕ
expires k [] = none
expires k (adds purged now element lifetime ∷ h) =
    if str_eq element k then some (now + lifetime) else expires k h
expires k (asks purged element ∷ h) = expires k h

abbrev pub not_yet : ℕ → Option ℕ → Bool
not_yet now none = false
not_yet now (some t) = leb now t

apply-IsMap : (c : Call) (s : ExpiringSet) → IsMap s.elements → IsMap (apply c s).elements
unfolding apply
apply-IsMap (adds purged now element lifetime) s m = add-IsMap purged now lifetime element s m
apply-IsMap (asks purged element) s m = has-IsMap purged element s m

replay-IsMap : (h : List Call) → IsMap (replay h).elements
unfolding replay
replay-IsMap [] = tt
replay-IsMap (c ∷ h) = apply-IsMap c (replay h) (replay-IsMap h)

is_alive-replay :
    (k : String) (later : ℕ) (h : List Call)
    → All (λ c. purged_at c ≤ later) h
    → is_alive later k (replay h) ≡ not_yet later (expires k h)
unfolding replay apply
is_alive-replay k later [] a = unfold is_alive lookup in refl
is_alive-replay k later (adds purged now element lifetime ∷ h) a = ground (
  arith,
  is_alive-add purged now later lifetime element k (replay h) (replay-IsMap h) a.0,
  is_alive-replay k later h a.1,
)
is_alive-replay k later (asks purged element ∷ h) a =
    is_alive-has purged later element k (replay h) (replay-IsMap h) a.0
    ∙ is_alive-replay k later h a.1

-- After any history of Add and Has calls none of which purged later than now, Has answers true
-- exactly when the element was added and the lifetime of its latest Add has not passed.
pub has-replay :
    (k : String) (now : ℕ) (h : List Call)
    → All (λ c. purged_at c ≤ now) h
    → (has now k (replay h)).0 ≡ not_yet now (expires k h)
has-replay k now h a = has-is_alive now k (replay h) (replay-IsMap h) ∙ is_alive-replay k now h a
