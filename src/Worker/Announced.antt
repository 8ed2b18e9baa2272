-- ===== src/Worker/Announced.antt =====
-- OnAnnounce: which of the announced nodes are ingested, and with which status it ends.
use mathlib.Core.List.{append-nil}
use sprout_go.Base.{
  ◌≡◌, ◌≢◌, ◌∙◌, refl, ap, subst, Bool, true, false, ◌&&◌, Option, none, List, [], ◌∷◌, ◌++◌, All,
  arith, Bool-cases, inl, inr, if◌then◌else◌, Eq,
}
use sprout_go.Base.Int.{ℤ}
use sprout_go.Base.Exec.{Result, ok, panics}
use sprout_go.Forest.{Forest, Shape, identity, community, reply, other}
use sprout_go.Session.{Session, is_subscribed}
use sprout_go.Conn.State.{Conn}
use sprout_go.Conn.Dispatch.{on_conn}
use sprout_go.Conn.Parse.{status_message}
use sprout_go.Conn.Send.{send_status, status_ok, error_unknown_node}
use sprout_go.Conn.Wire.{message_text}
use sprout_go.Conn.Writes.{answers-write}
use sprout_go.Worker.Store.{Archive}
use sprout_go.Worker.State.{Worker, on_wire}
use sprout_go.Worker.Announce.{
  skip, ingest, unknown_node, verdict, by_expiration, by_store, start_ingesting, announce_loop,
  on_announce,
}

module _ (F : Forest) (A : Archive F) where
  open F use {Hash, Node}

  -- The worker after it has answered with this status.
  abbrev pub reported : ℤ → ℤ → Worker F A → Worker F A
  reported id code w = record w {
    conn = record w.conn { output = w.conn.output ++ message_text F (status_message id code) };
  }

  pub on_wire-send_status :
      (id code : ℤ) (w : Worker F A)
      → w.conn.faults ≡ []
      → on_wire F A (send_status id code) w ≡ (ok tt, reported id code w)
  unfolding on_wire on_conn
  on_wire-send_status id code w e =
      ap (λ (p : Result (Unit {0}) × Conn Node). (p.0, record w { conn = p.1 }))
        (answers-write F w.conn id code [] e).0

abbrev pub prepend_all {ℓ} : {T : Type ℓ} → List T → List T → List T
prepend_all [] acc = acc
prepend_all (x ∷ xs) acc = prepend_all xs (x ∷ acc)

abbrev pub select {ℓ} : {T : Type ℓ} → (T → Bool) → List T → List T
select p [] = []
select p (x ∷ xs) = let rest = select p xs in if p x then x ∷ rest else rest

-- The check for expiration went well, and the node has not expired.
abbrev pub is_unexpired : Result Bool → Bool
is_unexpired (ok expired) = if expired then false else true
is_unexpired _ = false

-- The look-up went well, and did not find the node.
abbrev pub is_absent : {T : Type 0} → Result (Option T) → Bool
is_absent (ok none) = true
is_absent _ = false

module _ (F : Forest) (A : Archive F) ⦃e : Eq F.Hash⦄ where
  open F use {Hash, Node}

  -- Identities and communities, and the replies in subscribed communities.
  abbrev pub is_welcome : Session Hash → Shape Hash → Bool
  is_welcome s identity = true
  is_welcome s (community author) = true
  is_welcome s (reply author community_id) = is_subscribed community_id s
  is_welcome s other = false

  unfoldable pub is_wanted : Worker F A → Node → Bool
  is_wanted w n =
      is_unexpired (A.is_expired w.now n)
      && (is_absent (A.get w.store (F.id n)) && is_welcome w.session (F.shape n))

  -- A node of a known type, at which neither the check for expiration nor the store panics.
  abbrev pub IsOrdinary : Worker F A → Node → Type 0
  IsOrdinary w n =
      (A.is_expired w.now n ≢ panics) × (A.get w.store (F.id n) ≢ panics) × (F.shape n ≢ other)

  -- The worker once goroutines have started that ingest the wanted ones of these nodes.
  abbrev pub ingesting_wanted : List Node → Worker F A → Worker F A
  ingesting_wanted ns w = record w { ingesting = prepend_all (select (is_wanted w) ns) w.ingesting }

  verdict_by_cases :
      (s : Session Hash) (sh : Shape Hash) (found : Result (Option Node)) (expired : Result Bool)
      → expired ≢ panics
      → found ≢ panics
      → sh ≢ other
      → by_expiration F A expired (by_store F A s sh found)
        ≡ ok (if is_unexpired expired && (is_absent found && is_welcome s sh) then ingest else skip)
  verdict_by_cases s sh found expired he hf hs = ground arith

  verdict-is_wanted :
      (n : Node) (w : Worker F A)
      → IsOrdinary w n
      → verdict F A n w ≡ ok (if is_wanted w n then ingest else skip)
  unfolding verdict is_wanted
  verdict-is_wanted n w (he, hf, hs) =
      verdict_by_cases w.session (F.shape n) (A.get w.store (F.id n)) (A.is_expired w.now n) he hf
        hs

  verdict_of_wanted :
      (n : Node) (w : Worker F A) (b : Bool)
      → IsOrdinary w n
      → is_wanted w n ≡ b
      → verdict F A n w ≡ ok (if b then ingest else skip)
  verdict_of_wanted n w b o t =
      subst (λ c. verdict F A n w ≡ ok (if c then ingest else skip)) t (verdict-is_wanted n w o)

  select_again :
      (n : Node) (ns : List Node) (w : Worker F A)
      → is_wanted w n ≡ true
      → ingesting_wanted ns (start_ingesting F A n w) ≡ ingesting_wanted (n ∷ ns) w
  unfolding is_wanted
  select_again n ns w t = rw t

  pub announce_loop-ingest :
      (n : Node) (ns : List Node) (w : Worker F A)
      → verdict F A n w ≡ ok ingest
      → announce_loop F A (n ∷ ns) w ≡ announce_loop F A ns (start_ingesting F A n w)
  unfolding announce_loop
  announce_loop-ingest n ns w e = rw (announce_loop, e)

  pub announce_loop-skip :
      (n : Node) (ns : List Node) (w : Worker F A)
      → verdict F A n w ≡ ok skip
      → announce_loop F A (n ∷ ns) w ≡ announce_loop F A ns w
  unfolding announce_loop
  announce_loop-skip n ns w e = rw (announce_loop, e)

  announce_loop-select :
      (ns rest : List Node) (w : Worker F A)
      → All (IsOrdinary w) ns
      → announce_loop F A (ns ++ rest) w ≡ announce_loop F A rest (ingesting_wanted ns w)
  unfolding announce_loop
  announce_loop-select [] rest w a = refl
  announce_loop-select (n ∷ ns) rest w (o, a) = elim (Bool-cases (is_wanted w n)) [
    | inl t ↦
        announce_loop-ingest n (ns ++ rest) w (verdict_of_wanted n w true o t)
        ∙ announce_loop-select ns rest (start_ingesting F A n w) a
        ∙ ap (announce_loop F A rest) (select_again n ns w t)
    | inr f ↦
        announce_loop-skip n (ns ++ rest) w (verdict_of_wanted n w false o f)
        ∙ announce_loop-select ns rest w a
        ∙ rw f
  ]

  announce_loop_ordinary :
      (ns : List Node) (w : Worker F A)
      → All (IsOrdinary w) ns
      → announce_loop F A ns w ≡ (ok true, ingesting_wanted ns w)
  unfolding announce_loop
  announce_loop_ordinary ns w a =
      subst (λ xs. announce_loop F A xs w ≡ (ok true, ingesting_wanted ns w)) (append-nil ns)
        (announce_loop-select ns [] w a)

  verdict_of_other :
      (n : Node) (w : Worker F A)
      → A.is_expired w.now n ≡ ok false
      → A.get w.store (F.id n) ≡ ok none
      → F.shape n ≡ other
      → verdict F A n w ≡ ok unknown_node
  unfolding verdict
  verdict_of_other n w he hg hs = rw (he, hg, hs)

  announce_loop-unknown :
      (n : Node) (ns : List Node) (w : Worker F A)
      → A.is_expired w.now n ≡ ok false
      → A.get w.store (F.id n) ≡ ok none
      → F.shape n ≡ other
      → announce_loop F A (n ∷ ns) w ≡ (ok false, w)
  unfolding announce_loop
  announce_loop-unknown n ns w he hg hs = rw (announce_loop, verdict_of_other n w he hg hs)

  -- If every announced node is of a known type, and neither the check for expiration nor the store
  -- panics at one, then OnAnnounce ingests, on a working transport, exactly those nodes that have not
  -- expired, are not in the store, and are no replies in communities that are not subscribed, where
  -- both checks succeed, and it answers with the status OK.
  pub on_announce-select :
      (id : ℤ) (ns : List Node) (w : Worker F A)
      → All (IsOrdinary w) ns
      → w.conn.faults ≡ []
      → on_announce F A id ns w ≡ (ok tt, reported F A id status_ok (ingesting_wanted ns w))
  unfolding on_announce
  on_announce-select id ns w a e = rw (
    announce_loop_ordinary ns w a,
    on_wire-send_status F A id status_ok (ingesting_wanted ns w) e,
  )

  -- The first announced node that is of no known type, new and unexpired ends OnAnnounce with the
  -- status ErrorUnknownNode, on a working transport and if the nodes before it are ordinary: the
  -- wanted nodes before it are ingested, and none behind it.
  pub on_announce-unknown :
      (id : ℤ) (ns rest : List Node) (n : Node) (w : Worker F A)
      → All (IsOrdinary w) ns
      → A.is_expired w.now n ≡ ok false
      → A.get w.store (F.id n) ≡ ok none
      → F.shape n ≡ other
      → w.conn.faults ≡ []
      → on_announce F A id (ns ++ n ∷ rest) w
        ≡ (ok tt, reported F A id error_unknown_node (ingesting_wanted ns w))
  unfolding on_announce
  on_announce-unknown id ns rest n w a he hg hs e = rw (
    announce_loop-select ns (n ∷ rest) w a,
    announce_loop-unknown n rest (ingesting_wanted ns w) he hg hs,
    on_wire-send_status F A id error_unknown_node (ingesting_wanted ns w) e,
  )
