-- ===== src/Base/Reach.antt =====
-- The states that steps lead to.
module _ {S : Type 0} (Step : S → S → Type 0) where
  pub data Reach (s : S) : S → Type 0 where
    here : Reach s s
    next : {t u : S} → Reach s t → Step t u → Reach s u

  -- What each step keeps is kept.
  pub Reach-invariant :
      (P : S → Type 0) {s t : S} → ((u v : S) → Step u v → P u → P v) → P s → Reach s t → P t
  Reach-invariant P k h here = h
  Reach-invariant P k h (next {t = u} {u = v} r st) = k u v st (Reach-invariant P k h r)
