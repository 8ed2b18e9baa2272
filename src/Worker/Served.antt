-- ===== src/Worker/Served.antt =====
-- Each request that a worker reads is answered.
use sprout_go.Base.{
  ℕ, zero, suc, ◌≡◌, ◌⊎◌, ◌∙◌, refl, Bool, true, false, Option, none, some, List, [], ◌∷◌, ◌++◌,
  arith, if◌then◌else◌, Eq, Option-cases, Bool-cases, inl, inr,
}
use sprout_go.Base.Int.{ℤ, pos, negsuc, pos_part, ltb_ℤ}
use sprout_go.Base.Exec.{Result, ok}
use sprout_go.Forest.{Forest, Shape, identity, community, reply, other}
use sprout_go.Session.{is_subscribed}
use sprout_go.Conn.Parse.{Message, response_message, status_message}
use sprout_go.Conn.Send.{
  status_ok, error_protocol_too_old, error_protocol_too_new, error_unknown_node,
}
use sprout_go.Conn.Wire.{message_text}
use sprout_go.Worker.Store.{Archive}
use sprout_go.Worker.State.{Worker}
use sprout_go.Worker.Handlers.{
  on_version, on_list, climb, on_ancestry, on_subscribe, on_unsubscribe, subscribe_new,
  unsubscribe_from, current_major,
}
use sprout_go.Worker.Announce.{
  skip, ingest, unknown_node, verdict, by_expiration, by_store, announce_loop, start_ingesting,
  on_announce,
}
use sprout_go.Worker.Answers.{responded, on_wire-send_response}
use sprout_go.Worker.Announced.{
  reported, on_wire-send_status, announce_loop-skip, announce_loop-ingest,
}
use sprout_go.Worker.Protocol.{View, IsAnswering, version_code, forebears, is_passed, are_passed}

module _ {F : Forest} {A : Archive F} ⦃e : Eq F.Hash⦄ where
  open F use {Hash, Node}

  -- A worker that has answered with a message, and has else changed nothing but its session and the
  -- list of the nodes that are to be ingested.
  pub record HasReplied (w : Worker F A) (r : Message Hash Node)
      (p : Result (Unit {0}) × Worker F A) : Type 0 where
    pub succeeds : p.0 ≡ ok tt
    pub conn_replied : p.1.conn ≡ record w.conn { output = w.conn.output ++ message_text F r }
    pub same_store : p.1.store ≡ w.store
    pub same_time : p.1.now ≡ w.now

  pub responded-HasReplied :
      (id : ℤ) (ns : List Node) (w : Worker F A)
      → HasReplied w (response_message id ns) (ok tt, responded F A id ns w)
  responded-HasReplied id ns w = record {
    succeeds = refl;
    conn_replied = refl;
    same_store = refl;
    same_time = refl;
  }

  pub reported-HasReplied :
      (id code : ℤ) (w : Worker F A)
      → HasReplied w (status_message id code) (ok tt, reported F A id code w)
  reported-HasReplied id code w = record {
    succeeds = refl;
    conn_replied = refl;
    same_store = refl;
    same_time = refl;
  }

  pub on_version-reports :
      (id major minor : ℤ) (w : Worker F A)
      → w.conn.faults ≡ []
      → on_version F A id major minor w ≡ (ok tt, reported F A id (version_code major) w)
  unfolding on_version
  on_version-reports id (negsuc n) minor w f =
      let older : ltb_ℤ (negsuc n) current_major ≡ true = ground arith in
      rw (older, on_wire-send_status F A id error_protocol_too_old w f)
  on_version-reports id (pos zero) minor w f = rw (on_wire-send_status F A id status_ok w f)
  on_version-reports id (pos (suc n)) minor w f =
      let not_older : ltb_ℤ (pos (suc n)) current_major ≡ false = ground arith in
      let newer : ltb_ℤ current_major (pos (suc n)) ≡ true = ground arith in
      rw (not_older, newer, on_wire-send_status F A id error_protocol_too_new w f)

  module _ (w : Worker F A) (view : View F) (a : IsAnswering A view w.store w.now) where
    open view use {look, listed, below, has_expired}

    pub on_list-responds :
        (id : ℤ) (t : ℕ) (q : ℤ)
        → w.conn.faults ≡ []
        → on_list F A id t q w ≡ (ok tt, responded F A id (listed t q) w)
    unfolding on_list
    on_list-responds id t q f =
        rw (a.recent_listed t q, on_wire-send_response F A id (listed t q) w f)

    pub climb-forebears :
        (levels : ℕ) (n : Node) → climb F A levels n w ≡ (ok (forebears F A view levels n), w)
    unfolding climb forebears
    climb-forebears zero n = refl
    climb-forebears (suc levels) n = elim (Bool-cases (F.equals (F.parent_id n) F.null_hash)) [
      | inl r ↦ rw r
      | inr r ↦ elim (Option-cases (look (F.parent_id n))) [
        | inl l ↦ rw (r, a.get_look (F.parent_id n), l)
        | inr (p, l) ↦ rw (r, a.get_look (F.parent_id n), l, climb-forebears levels p)
      ]
    ]

    pub on_ancestry-responds :
        (id : ℤ) (h : Hash) (levels : ℤ) (n : Node)
        → look h ≡ some n
        → w.conn.faults ≡ []
        → on_ancestry F A id h levels w ≡ (
          ok tt,
          responded F A id (A.sort_by F.tree_depth (forebears F A view (pos_part levels) n)) w,
        )
    unfolding on_ancestry
    on_ancestry-responds id h levels n l f = rw (
      a.get_look h,
      l,
      climb-forebears (pos_part levels) n,
      on_wire-send_response F A id (A.sort_by F.tree_depth (forebears F A view (pos_part levels) n))
          w f,
    )

    pub on_subscribe-HasReplied :
        (id : ℤ) (h : Hash)
        → w.conn.faults ≡ []
        → HasReplied w (status_message id status_ok) (on_subscribe F A id h w)
    unfolding on_subscribe subscribe_new
    on_subscribe-HasReplied id h f =
        rw (on_wire-send_status F A id status_ok (subscribe_new F A h w).1 f)
          (record { succeeds = refl; conn_replied = refl; same_store = refl; same_time = refl })

    pub on_unsubscribe-HasReplied :
        (id : ℤ) (h : Hash)
        → w.conn.faults ≡ []
        → HasReplied w (status_message id status_ok) (on_unsubscribe F A id h w)
    unfolding on_unsubscribe unsubscribe_from
    on_unsubscribe-HasReplied id h f =
        rw (on_wire-send_status F A id status_ok (unsubscribe_from F A h w).1 f)
          (record { succeeds = refl; conn_replied = refl; same_store = refl; same_time = refl })

  verdict_cases :
      (w : Worker F A) (view : View F) (a : IsAnswering A view w.store w.now) (b : Bool)
      (found : Option Node) (sh : Shape Hash)
      → let v = by_expiration F A (ok b) (by_store F A w.session sh (ok found)) in
        ((v ≡ ok unknown_node) × (is_passed F A view b found sh ≡ false))
        ⊎ ((v ≡ ok skip) × (is_passed F A view b found sh ≡ true))
        ⊎ ((v ≡ ok ingest) × (is_passed F A view b found sh ≡ true))
  verdict_cases w view a true found sh = inr (inl (refl, refl))
  verdict_cases w view a false (some old) sh = inr (inl (refl, refl))
  verdict_cases w view a false none identity = inr (inr (refl, refl))
  verdict_cases w view a false none (community author) = inr (inr (refl, refl))
  verdict_cases w view a false none (reply author c) =
      elim (Bool-cases (is_subscribed c w.session)) [
        | inl t ↦ inr (inr (rw t, refl))
        | inr f ↦ inr (inl (rw f, refl))
      ]
  verdict_cases w view a false none other = inl (refl, refl)

  verdict-answered :
      (w : Worker F A) (view : View F) (a : IsAnswering A view w.store w.now) (n : Node)
      → verdict F A n w
        ≡ by_expiration F A
            (ok (view.has_expired n))
            (by_store F A w.session (F.shape n) (ok (view.look (F.id n))))
  unfolding verdict
  verdict-answered w view a n = rw (a.expired_now n, a.get_look (F.id n))

  Announces : List Node → (w : Worker F A) → View F → Type 0
  Announces ns w view =
      (started : List Node) × (announce_loop F A ns w
        ≡ (ok (are_passed F A view ns), record w { ingesting = started }))

  announce_loop-Announces :
      (ns : List Node) (w : Worker F A) (view : View F) (a : IsAnswering A view w.store w.now)
      → Announces ns w view
  unfolding Announces announce_loop are_passed
  announce_loop-Announces [] w view a = (w.ingesting, refl)
  announce_loop-Announces (n ∷ ns) w view a =
      elim (verdict_cases w view a (view.has_expired n) (view.look (F.id n)) (F.shape n)) [
        | inl (v, p) ↦ (w.ingesting, rw (announce_loop, verdict-answered w view a n ∙ v, p))
        | inr (inl (v, p)) ↦
            let (started, q) = announce_loop-Announces ns w view a in
            (started, announce_loop-skip F A n ns w (verdict-answered w view a n ∙ v) ∙ q ∙ rw p)
        | inr (inr (v, p)) ↦
            let (started, q) = announce_loop-Announces ns (start_ingesting F A n w) view a in
            (started, announce_loop-ingest F A n ns w (verdict-answered w view a n ∙ v) ∙ q ∙ rw p)
      ]

  pub on_announce-HasReplied :
      (id : ℤ) (ns : List Node) (w : Worker F A) (view : View F)
      (a : IsAnswering A view w.store w.now)
      → w.conn.faults ≡ []
      → HasReplied w
          (status_message id (if are_passed F A view ns then status_ok else error_unknown_node))
          (on_announce F A id ns w)
  unfolding on_announce Announces
  on_announce-HasReplied id ns w view a f =
      let (started, q) = announce_loop-Announces ns w view a in
      let v = record w { ingesting = started } in
      elim (Bool-cases (are_passed F A view ns)) [
        | inl t ↦
            rw (q, t, on_wire-send_status F A id status_ok v f)
              (record { succeeds = refl; conn_replied = refl; same_store = refl; same_time = refl })
        | inr u ↦
            rw (q, u, on_wire-send_status F A id error_unknown_node v f)
              (record { succeeds = refl; conn_replied = refl; same_store = refl; same_time = refl })
      ]
