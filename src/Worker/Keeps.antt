-- ===== src/Worker/Keeps.antt =====
-- What holds of the connection, of the store and of the session of a worker, and operations that
-- keep it true. The statement about a session is also about the addresses that were given so far.
use sprout_go.Base.{ℕ, suc, Eq, ◌≡◌, refl, sym, subst}
use sprout_go.Base.Exec.{
  Result, ok, err, panics, Exec, rethrow, continue, on_error, on_error-state, ◌>>◌,
}
use sprout_go.Base.Errors.{Error}
use sprout_go.Base.Preserves.{Preserves, continue-Preserves}
use sprout_go.Forest.{Forest, community}
use sprout_go.Session.{Session, subscribe, unsubscribe}
use sprout_go.Conn.State.{Conn}
use sprout_go.Conn.Send.{Wakeup}
use sprout_go.Conn.Dispatch.{on_conn}
use sprout_go.Worker.Store.{Archive}
use sprout_go.Worker.State.{Worker, on_wire, from_store}
use sprout_go.Worker.Handlers.{subscribe_new, unsubscribe_from}
use sprout_go.Worker.Ingest.{request, validate, add_node, logged, first_wakeup}

-- A statement about stores that adding a valid node keeps true, whether the store takes it or not.
pub record IsKeptByValid (F : Forest) (A : Archive F) (P : A.Store → Type 0) : Type 0 where
  pub add_valid :
      (s : A.Store) (n : F.Node) (subscription : ℕ)
      → P s
      → A.validate_deep s n ≡ ok tt
      → P (A.add_as n subscription s).1

-- A statement about stores that adding a community keeps true, whether or not it is valid.
pub record IsKeptByCommunity (F : Forest) (A : Archive F) (P : A.Store → Type 0) : Type 0 where
  pub add_community :
      (s : A.Store) (n : F.Node) (author : F.Hash) (subscription : ℕ)
      → P s
      → F.shape n ≡ community author
      → P (A.add_as n subscription s).1

-- A statement about sessions that a subscription through a new pointer keeps true.
pub record IsKeptBySubscribe (H : Type 0) (R : Session H → ℕ → Type 0) : Type 0 where
  pub subscribed : (p : ℕ) (h : H) (s : Session H) → R s p → R (subscribe p h s) (suc p)

-- A statement about sessions that unsubscriptions keep true.
pub record IsKeptByUnsubscribe (H : Type 0) ⦃e : Eq H⦄ (R : Session H → ℕ → Type 0) : Type 0 where
  pub unsubscribed : (p : ℕ) (h : H) (s : Session H) → R s p → R (unsubscribe h s) p

-- A statement that always holds of a session.
module _ {H : Type 0} where
  abbrev pub Always : Session H → ℕ → Type 0
  Always s p = Unit

  pub subscribed-Always : IsKeptBySubscribe H Always
  subscribed-Always = record { subscribed = λ p h s r. tt }

  pub unsubscribed-Always : ⦃e : Eq H⦄ → IsKeptByUnsubscribe H Always
  unsubscribed-Always = record { unsubscribed = λ p h s r. tt }

module _ {F : Forest} {A : Archive F} (Q : Conn F.Node → Type 0) (P : A.Store → Type 0)
    (R : Session F.Hash → ℕ → Type 0) where
  abbrev pub Held : Worker F A → Type 0
  Held w = Q w.conn × P w.store × R w.session w.addresses

  abbrev pub Keeps : {B : Type 0} → Exec (Worker F A) B → Type 0
  Keeps m = Preserves Held m

  pub on_wire-Keeps :
      {B : Type 0} {m : Exec (Conn F.Node) B} → Preserves Q m → Keeps (on_wire F A m)
  unfolding on_wire on_conn
  on_wire-Keeps {B} {m} h = record { preserves = λ w (q, p, r). (h.preserves w.conn q, p, r) }

  pub request-Keeps :
      {B : Type 0} {op : Wakeup F.Node → Exec (Conn F.Node) B}
      → ((k : Wakeup F.Node) → Preserves Q (op k))
      → Keeps (request F A op)
  unfolding request on_wire on_conn
  request-Keeps {B} {op} h = record {
    preserves = λ w (q, p, r). ((h (first_wakeup F A w.wakeups)).preserves w.conn q, p, r);
  }

  pub from_store-Keeps : {B : Type 0} (g : A.Store → Result B) → Keeps (from_store F A g)
  from_store-Keeps g = record { preserves = λ w h. h }

  logged-Held : (p : Result (Unit {0}) × Worker F A) → Held p.1 → Held (logged F A p).1
  logged-Held (ok u, w) h = h
  logged-Held (err e, w) h = h
  logged-Held (panics, w) h = h

  pub logged-Keeps : {m : Exec (Worker F A) (Unit {0})} → Keeps m → Keeps (λ w. logged F A (m w))
  logged-Keeps {m} k = record { preserves = λ w h. logged-Held (m w) (k.preserves w h) }

  module _ (subscribed : IsKeptBySubscribe F.Hash R) where
    pub subscribe_new-Keeps : (h : F.Hash) → Keeps (subscribe_new F A h)
    unfolding subscribe_new
    subscribe_new-Keeps h = record {
      preserves = λ w (q, p, r). (q, p, subscribed.subscribed w.addresses h w.session r);
    }

  module _ ⦃e : Eq F.Hash⦄ (unsubscribed : IsKeptByUnsubscribe F.Hash R) where
    pub unsubscribe_from-Keeps : (h : F.Hash) → Keeps (unsubscribe_from F A h)
    unfolding unsubscribe_from
    unsubscribe_from-Keeps h = record {
      preserves = λ w (q, p, r). (q, p, unsubscribed.unsubscribed w.addresses h w.session r);
    }

  module _ (kept : IsKeptByValid F A P) where
    -- A node is added right after it was validated.
    add_validated :
        (f g : Error → Error) (n : F.Node) (r : Result (Unit {0})) (w : Worker F A)
        → A.validate_deep w.store n ≡ r
        → Held w
        → Held (continue (on_error f (r, w)) (λ _. rethrow g (add_node F A n))).1
    unfolding add_node
    add_validated f g n (ok tt) w e (q, p, r) =
        subst Held (sym (on_error-state g (add_node F A n w)))
          (q, kept.add_valid w.store n w.subscription_id p e, r)
    add_validated f g n (err x) w e h = h
    add_validated f g n panics w e h = h

    pub add_validated-Keeps :
        (f g : Error → Error) (n : F.Node)
        → Keeps (rethrow f (validate F A n) >> rethrow g (add_node F A n))
    unfolding validate
    add_validated-Keeps f g n = record {
      preserves = λ w h. add_validated f g n (A.validate_deep w.store n) w refl h;
    }

    add_validated_then :
        (f g : Error → Error) (n : F.Node) (m : Exec (Worker F A) (Unit {0}))
        (r : Result (Unit {0})) (w : Worker F A)
        → Keeps m
        → A.validate_deep w.store n ≡ r
        → Held w
        → Held (continue (on_error f (r, w)) (λ _. rethrow g (add_node F A n) >> m)).1
    add_validated_then f g n m (ok tt) w k e h =
        continue-Preserves Held (rethrow g (add_node F A n) w) (λ _. m)
          (add_validated f g n (ok tt) w e h) (λ _. k)
    add_validated_then f g n m (err x) w k e h = h
    add_validated_then f g n m panics w k e h = h

    pub add_validated_then-Keeps :
        (f g : Error → Error) (n : F.Node) {m : Exec (Worker F A) (Unit {0})}
        → Keeps m
        → Keeps (rethrow f (validate F A n) >> (rethrow g (add_node F A n) >> m))
    unfolding validate
    add_validated_then-Keeps f g n {m} k = record {
      preserves = λ w h. add_validated_then f g n m (A.validate_deep w.store n) w k refl h;
    }
