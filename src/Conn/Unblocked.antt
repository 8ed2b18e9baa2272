-- ===== src/Conn/Unblocked.antt =====
-- As long as no write fails and no wait times out, the goroutine that reads always finds the receiver
-- that it sends to.
use sprout_go.Base.{
  ℕ, suc, ◌<◌, ◌≡◌, ◌∙◌, refl, sym, ap, subst, Bool-cases, inl, inr, none, some, List, [], ◌∷◌,
  arith,
}
use sprout_go.Base.Int.{ℤ, ◌==ℤ◌, ==ℤ_iff}
use sprout_go.Base.Reach.{Reach, here, next, Reach-invariant}
use sprout_go.Conn.State.{lookup, delete, store}
use sprout_go.Conn.Pending.{lookup-store}
use sprout_go.Conn.Distinct.{
  Absent, AreDistinct, waiting, AllBelow, delete-Absent, delete-AreDistinct, delete-AllBelow,
  AllBelow-suc, AllBelow-Absent, lookup-below, lookup-Absent,
}
use sprout_go.Conn.Race.{
  Reader, idle, loaded, sending, Race, waited_for, leave, Delivers, loads, deletes, hands_over,
  Requests, asks, SmoothStep, delivers, requests, new_race,
}
use sprout_go.Conn.Blocked.{waited_for-leave}

-- A goroutine waits on each channel of the map.
AreWaited : List (ℕ × ℤ) → List (ℤ × ℕ) → Type 0
AreWaited ws [] = Unit
AreWaited ws ((i, ch) ∷ m) = ((id : ℤ) × (waited_for ch ws ≡ some id)) × AreWaited ws m

IsServed : Reader → Race → Type 0
IsServed idle s = Unit
IsServed (loaded id ch) s = lookup id s.pending ≡ some ch
IsServed (sending ch) s =
    ((id : ℤ) × (waited_for ch s.waits ≡ some id))
    × Absent ch (waiting s.pending)
    × (ch < s.channels)

record IsLive (s : Race) : Type 0 where
  waited : AreWaited s.waits s.pending
  distinct : AreDistinct (waiting s.pending)
  below : AllBelow s.channels (waiting s.pending)
  served : IsServed s.reader s

AreWaited-delete :
    (id : ℤ) (ws : List (ℕ × ℤ)) (m : List (ℤ × ℕ)) → AreWaited ws m → AreWaited ws (delete id m)
unfolding AreWaited
AreWaited-delete id ws [] a = tt
AreWaited-delete id ws ((i, ch) ∷ m) a = ground (arith, AreWaited-delete id ws m a.1)

AreWaited-ask :
    (n : ℕ) (id : ℤ) (ws : List (ℕ × ℤ)) (m : List (ℤ × ℕ))
    → AllBelow n (waiting m)
    → AreWaited ws m
    → AreWaited ((n, id) ∷ ws) m
unfolding AreWaited
AreWaited-ask n id ws [] b a = tt
AreWaited-ask n id ws ((i, ch) ∷ m) (l, b) ((k, w), a) =
    ((k, ground (arith, w, l)), AreWaited-ask n id ws m b a)

AreWaited-leave :
    (ch : ℕ) (ws : List (ℕ × ℤ)) (m : List (ℤ × ℕ))
    → Absent ch (waiting m)
    → AreWaited ws m
    → AreWaited (leave ch ws) m
unfolding AreWaited
AreWaited-leave ch ws [] b a = tt
AreWaited-leave ch ws ((i, c) ∷ m) (l, b) ((k, w), a) =
    ((k, ground (arith, waited_for-leave c ch ws, w, l)), AreWaited-leave ch ws m b a)

AreWaited-lookup :
    (id : ℤ) (ch : ℕ) (ws : List (ℕ × ℤ)) (m : List (ℤ × ℕ))
    → AreWaited ws m
    → lookup id m ≡ some ch
    → (k : ℤ) × (waited_for ch ws ≡ some k)
unfolding AreWaited
AreWaited-lookup id ch ws [] a l = absurd cc
AreWaited-lookup id ch ws ((i, c) ∷ m) ((k, w), a) l = elim (Bool-cases (i ==ℤ id)) [
  | inl e ↦
      let p : lookup id ((i, c) ∷ m) ≡ some c = rw e in
      let q : c ≡ ch = cc in (k, ap (λ x. waited_for x ws) (sym q) ∙ w)
  | inr e ↦
      let p : lookup id ((i, c) ∷ m) ≡ lookup id m = rw e in
      AreWaited-lookup id ch ws m a (sym p ∙ l)
]

Delivers-IsLive : {s t : Race} → Delivers s t → IsLive s → IsLive t
unfolding IsServed
Delivers-IsLive (loads s id ch r l) h = record {
  waited = h.waited;
  distinct = h.distinct;
  below = h.below;
  served = l;
}
Delivers-IsLive (deletes s id ch r) h =
    let l : lookup id s.pending ≡ some ch = subst (λ x. IsServed x s) r h.served in
    record {
      waited = AreWaited-delete id s.waits s.pending h.waited;
      distinct = delete-AreDistinct id s.pending h.distinct;
      below = delete-AllBelow s.channels id s.pending h.below;
      served = (
        AreWaited-lookup id ch s.waits s.pending h.waited l,
        lookup-Absent ch id s.pending h.distinct l,
        lookup-below s.channels ch id s.pending h.below l,
      );
    }
Delivers-IsLive (hands_over s ch id r w) h =
    let g : IsServed (sending ch) s = subst (λ x. IsServed x s) r h.served in
    record {
      waited = AreWaited-leave ch s.waits s.pending g.1 h.waited;
      distinct = h.distinct;
      below = h.below;
      served = tt;
    }

IsServed-ask :
    (s : Race) (r : Reader) (id : ℤ)
    → lookup id s.pending ≡ none
    → IsServed r s
    → IsServed r (record s {
      pending = store id s.channels s.pending;
      channels = suc s.channels;
      waits = (s.channels, id) ∷ s.waits;
    })
unfolding IsServed
IsServed-ask s idle id f g = tt
IsServed-ask s (loaded i c) id f g =
    ground (arith, lookup-store id i s.channels s.pending, ==ℤ_iff id i, f, g)
IsServed-ask s (sending c) id f ((k, w), a, b) = (
  (k, ground (arith, w, b)),
  ((λ e. omega (arith, e, b)), delete-Absent c id s.pending a),
  omega (arith, b),
)

Requests-IsLive : {s t : Race} → Requests s t → IsLive s → IsLive t
unfolding AreWaited
Requests-IsLive (asks s id f) h = record {
  waited = (
    (id, ground arith),
    AreWaited-ask s.channels id s.waits (delete id s.pending)
        (delete-AllBelow s.channels id s.pending h.below)
        (AreWaited-delete id s.waits s.pending h.waited),
  );
  distinct = (
    AllBelow-Absent s.channels _ (delete-AllBelow s.channels id s.pending h.below),
    delete-AreDistinct id s.pending h.distinct,
  );
  below =
      (omega arith, AllBelow-suc s.channels _ (delete-AllBelow s.channels id s.pending h.below));
  served = IsServed-ask s s.reader id f h.served;
}

SmoothStep-IsLive : (s t : Race) → SmoothStep s t → IsLive s → IsLive t
SmoothStep-IsLive s t (delivers d) h = Delivers-IsLive d h
SmoothStep-IsLive s t (requests r) h = Requests-IsLive r h

GetsIdle : Race → Type 0
GetsIdle s = (t : Race) × Reach Delivers s t × (t.reader ≡ idle)

sending-GetsIdle :
    (s u : Race) (ch : ℕ) → Reach Delivers s u → u.reader ≡ sending ch → IsLive u → GetsIdle s
unfolding GetsIdle IsServed
sending-GetsIdle s u ch k r h =
    let g : IsServed (sending ch) u = subst (λ x. IsServed x u) r h.served in
    let (id, w) = g.0 in
    (record u { reader = idle; waits = leave ch u.waits }, next k (hands_over u ch id r w), refl)

IsLive-GetsIdle : (s : Race) (r : Reader) → s.reader ≡ r → IsLive s → GetsIdle s
unfolding GetsIdle
IsLive-GetsIdle s idle r h = (s, here, r)
IsLive-GetsIdle s (loaded id ch) r h =
    let u = record s { reader = sending ch; pending = delete id s.pending } in
    sending-GetsIdle s u ch (next here (deletes s id ch r)) refl
      (Delivers-IsLive (deletes s id ch r) h)
IsLive-GetsIdle s (sending ch) r h = sending-GetsIdle s s ch here r h

-- From a new connection, as long as no write fails and no wait times out: wherever the goroutine
-- that reads stands in sendToWaitingChannel, it comes to its end by steps of its own and of the
-- receiver alone.
pub reader_goes_on :
    (s : Race) → Reach SmoothStep new_race s → (t : Race) × Reach Delivers s t × (t.reader ≡ idle)
unfolding GetsIdle AreWaited IsServed
reader_goes_on s k = IsLive-GetsIdle s s.reader refl (
    Reach-invariant SmoothStep IsLive SmoothStep-IsLive
      (record { waited = tt; distinct = tt; below = tt; served = tt }) k)
