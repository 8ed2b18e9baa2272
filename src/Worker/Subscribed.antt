-- ===== src/Worker/Subscribed.antt =====
-- OnSubscribe and OnUnsubscribe, one after the other in any order: what the session holds then.
use sprout_go.Base.{
  ℕ, suc, ◌+◌, ◌-◌, ◌<◌, ◌≡◌, ◌∙◌, refl, sym, ap, subst, false, List, [], ◌∷◌, arith, All, ltb,
  if◌then◌else◌, Eq,
}
use sprout_go.Base.Int.{ℤ}
use sprout_go.Base.Exec.{on_error, on_error-state}
use sprout_go.Base.Errors.{Error, wrapped}
use sprout_go.Forest.{Forest}
use sprout_go.Session.{
  Entry, Session, has_key, new_session, subscribe, unsubscribe, delete_first, is_subscribed,
}
use sprout_go.Session.Count.{count, is_subscribed-count, count-subscribe, count-unsubscribe}
use sprout_go.Conn.Send.{send_status, status_ok}
use sprout_go.Conn.Dispatch.{on_conn}
use sprout_go.Worker.Store.{Archive}
use sprout_go.Worker.State.{Worker, on_wire}
use sprout_go.Worker.Handlers.{subscribe_new, unsubscribe_from, on_subscribe, on_unsubscribe}

-- A message of the peer, with its ID.
pub data Call (H : Type 0) : Type 0 where
  subscribes unsubscribes : ℤ → H → Call H

-- The addresses of a session were all given before this one.
abbrev pub AddressesBelow : {H : Type 0} → ℕ → List (Entry H) → Type 0
AddressesBelow n xs = All (λ x. x.address < n) xs

pub has_key-fresh :
    {H : Type 0} (n : ℕ) (xs : List (Entry H)) → AddressesBelow n xs → has_key n xs ≡ false
has_key-fresh n [] h = refl
has_key-fresh n (x ∷ xs) h = ground (arith, has_key-fresh n xs h.1)

AddressesBelow-suc :
    {H : Type 0} (n : ℕ) (xs : List (Entry H)) → AddressesBelow n xs → AddressesBelow (suc n) xs
AddressesBelow-suc n [] h = tt
AddressesBelow-suc n (x ∷ xs) h = (omega (arith, h.0), AddressesBelow-suc n xs h.1)

module _ {H : Type 0} ⦃e : Eq H⦄ where
  -- How often a community is subscribed after some calls, the latest first.
  unfoldable pub balance : H → List (Call H) → ℕ
  balance h [] = 0
  balance h (subscribes id k ∷ cs) = let n = balance h cs in if e.beq k h then n + 1 else n
  balance h (unsubscribes id k ∷ cs) = let n = balance h cs in if e.beq k h then n - 1 else n

  pub subscribe-AddressesBelow :
      (n : ℕ) (h : H) (s : Session H)
      → AddressesBelow n s.communities
      → AddressesBelow (suc n) (subscribe n h s).communities
  unfolding subscribe
  subscribe-AddressesBelow n h s b =
      rw (has_key-fresh n s.communities b) (omega arith, AddressesBelow-suc n s.communities b)

  pub delete_first-AddressesBelow :
      (n : ℕ) (h : H) (xs : List (Entry H))
      → AddressesBelow n xs
      → AddressesBelow n (delete_first h xs)
  unfolding delete_first
  delete_first-AddressesBelow n h [] b = tt
  delete_first-AddressesBelow n h (x ∷ xs) b =
      ground (arith, delete_first-AddressesBelow n h xs b.1)

module _ (F : Forest) (A : Archive F) ⦃e : Eq F.Hash⦄ where
  open F use {Hash, Node}

  -- The handlers of these messages, with their errors dropped.
  unfoldable pub handle_calls : List (Call Hash) → Worker F A → Worker F A
  handle_calls [] w = w
  handle_calls (subscribes id h ∷ cs) w = (on_subscribe F A id h (handle_calls cs w)).1
  handle_calls (unsubscribes id h ∷ cs) w = (on_unsubscribe F A id h (handle_calls cs w)).1

  answered_twice :
      (f g : Error → Error) (id : ℤ) (w : Worker F A)
      → let p = on_error f (on_error g (on_wire F A (send_status id status_ok) w)) in
        (p.1.session ≡ w.session) × (p.1.addresses ≡ w.addresses)
  unfolding on_wire on_conn
  answered_twice f g id w =
      let p = on_wire F A (send_status id status_ok) w in
      let same : (on_error f (on_error g p)).1 ≡ p.1 =
        on_error-state f (on_error g p) ∙ on_error-state g p in
      (ap (λ (v : Worker F A). v.session) same, ap (λ (v : Worker F A). v.addresses) same)

  on_subscribe-session :
      (id : ℤ) (h : Hash) (w : Worker F A)
      → ((on_subscribe F A id h w).1.session ≡ subscribe w.addresses h w.session)
        × ((on_subscribe F A id h w).1.addresses ≡ suc w.addresses)
  unfolding on_subscribe subscribe_new
  on_subscribe-session id h w =
      answered_twice (wrapped "Error during subscribe: %w")
        (wrapped "Failed to send okay status: %w") id (subscribe_new F A h w).1

  on_unsubscribe-session :
      (id : ℤ) (h : Hash) (w : Worker F A)
      → ((on_unsubscribe F A id h w).1.session ≡ unsubscribe h w.session)
        × ((on_unsubscribe F A id h w).1.addresses ≡ w.addresses)
  unfolding on_unsubscribe unsubscribe_from
  on_unsubscribe-session id h w =
      answered_twice (wrapped "Error during unsubscribe: %w")
        (wrapped "Failed to send okay status: %w") id (unsubscribe_from F A h w).1

  new-AddressesBelow :
      (w : Worker F A) → w.session ≡ new_session → AddressesBelow w.addresses w.session.communities
  new-AddressesBelow w n =
      subst (λ (s : Session Hash). AddressesBelow w.addresses s.communities) (sym n) tt

  handle_calls-AddressesBelow :
      (cs : List (Call Hash)) (w : Worker F A)
      → AddressesBelow w.addresses w.session.communities
      → AddressesBelow (handle_calls cs w).addresses (handle_calls cs w).session.communities
  unfolding handle_calls unsubscribe
  handle_calls-AddressesBelow [] w b = b
  handle_calls-AddressesBelow (subscribes id h ∷ cs) w b =
      let v = handle_calls cs w in
      rw ((on_subscribe-session id h v).0, (on_subscribe-session id h v).1)
        (subscribe-AddressesBelow v.addresses h v.session (handle_calls-AddressesBelow cs w b))
  handle_calls-AddressesBelow (unsubscribes id h ∷ cs) w b =
      let v = handle_calls cs w in
      rw ((on_unsubscribe-session id h v).0, (on_unsubscribe-session id h v).1)
        (delete_first-AddressesBelow v.addresses h v.session.communities
          (handle_calls-AddressesBelow cs w b))

  count-handle_calls :
      (h : Hash) (cs : List (Call Hash)) (w : Worker F A)
      → w.session ≡ new_session
      → count h (handle_calls cs w).session.communities ≡ balance h cs
  unfolding handle_calls balance count
  count-handle_calls h [] w n = rw n
  count-handle_calls h (subscribes id k ∷ cs) w n =
      let v = handle_calls cs w in
      ap (λ (s : Session Hash). count h s.communities) (on_subscribe-session id k v).0
      ∙ count-subscribe v.addresses k h v.session (
          has_key-fresh v.addresses v.session.communities
            (handle_calls-AddressesBelow cs w (new-AddressesBelow w n)))
      ∙ ap (λ c. if e.beq k h then c + 1 else c) (count-handle_calls h cs w n)
  count-handle_calls h (unsubscribes id k ∷ cs) w n =
      let v = handle_calls cs w in
      ap (λ (s : Session Hash). count h s.communities) (on_unsubscribe-session id k v).0
      ∙ count-unsubscribe k h v.session
      ∙ ap (λ c. if e.beq k h then c - 1 else c) (count-handle_calls h cs w n)

  -- After any calls of OnSubscribe and OnUnsubscribe on a worker with a new session, whether or not
  -- their answers can be written, a community is subscribed exactly when its balance is not 0: each
  -- subscription counts 1, and an unsubscription takes away 1, if there is one.
  pub is_subscribed-handle_calls :
      (h : Hash) (cs : List (Call Hash)) (w : Worker F A)
      → w.session ≡ new_session
      → is_subscribed h (handle_calls cs w).session ≡ ltb 0 (balance h cs)
  is_subscribed-handle_calls h cs w n =
      is_subscribed-count h (handle_calls cs w).session ∙ ap (ltb 0) (count-handle_calls h cs w n)
