-- ===== src/ExpiringSet/Bounds.antt =====
-- How long what has expired is kept: until the next call.
use sprout_go.Base.{ℕ, ◌≤◌, String, List, [], ◌∷◌, arith, All}
use sprout_go.ExpiringSet.{Record, ExpiringSet, store, purge_loop, add, has}

abbrev pub NotPast : ℕ → Record → Type 0
NotPast now r = now ≤ r.expiration

kept-NotPast : (now : ℕ) (rs : List Record) → All (NotPast now) (purge_loop now rs)
unfolding purge_loop
kept-NotPast now [] = tt
kept-NotPast now (r ∷ rs) = ground (arith, kept-NotPast now rs)

store-All :
    (now : ℕ) (r : Record) (rs : List Record)
    → NotPast now r
    → All (NotPast now) rs
    → All (NotPast now) (store r rs)
unfolding store
store-All now r [] h k = (h, tt)
store-All now r (x ∷ xs) h k = ground (arith, store-All now r xs h k.1)

-- Right after Has nothing that has expired is stored.
pub has-NotPast :
    (now : ℕ) (element : String) (s : ExpiringSet)
    → All (NotPast now) (has now element s).1.elements
unfolding has
has-NotPast now element s = kept-NotPast now s.elements

-- Right after Add nothing is stored that had expired when Add purged.
pub add-NotPast :
    (t now lifetime : ℕ) (element : String) (s : ExpiringSet)
    → t ≤ now
    → All (NotPast t) (add t now element lifetime s).elements
unfolding add
add-NotPast t now lifetime element s h = store-All t _ _ (omega arith) (kept-NotPast t s.elements)
