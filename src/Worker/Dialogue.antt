-- ===== src/Worker/Dialogue.antt =====
-- A worker and a peer that sends requests: each request that is owed an answer gets it, in order.
use mathlib.Core.List.{append_assoc, append-nil}
use sprout_go.Base.{
  ℕ, suc, ◌+◌, ◌≡◌, ◌∙◌, refl, sym, ap, subst, Bool, true, false, none, some, List, [], ◌∷◌, ◌++◌,
  All, Text, arith, Eq, Option-cases, inl, inr, length,
}
use sprout_go.Base.Int.{pos_part, pos, negsuc}
use sprout_go.Base.Exec.{Result, ok, err, panics, on_error}
use sprout_go.Base.Errors.{Error, wrapped}
use sprout_go.Forest.{Forest, ForestLaws}
use sprout_go.Conn.State.{Conn}
use sprout_go.Conn.Parse.{
  Message, version_message, list_message, query_message, ancestry_message, leaves_of_message,
  response_message, subscribe_message, unsubscribe_message, status_message, announce_message,
  no_message,
}
use sprout_go.Conn.Wire.{IsSendable, message_text}
use sprout_go.Conn.Dispatch.{dispatch, read_message}
use sprout_go.Conn.Delivery.{read_message-message_text, messages_text}
use sprout_go.Worker.Store.{Archive}
use sprout_go.Worker.State.{Worker, host, with_input}
use sprout_go.Worker.Run.{handlers, run, after_read, done}
use sprout_go.Worker.Answers.{on_query-answers, on_leaves_of-answers}
use sprout_go.Worker.Protocol.{View, forebears, IsAnswering, reply_to}
use sprout_go.Worker.Served.{
  HasReplied, responded-HasReplied, reported-HasReplied, on_version-reports, on_list-responds,
  on_ancestry-responds, on_subscribe-HasReplied, on_unsubscribe-HasReplied, on_announce-HasReplied,
}

module _ (F : Forest) (A : Archive F) where
  open F use {Hash, Node}

  -- The replies that some messages are owed, one for each.
  unfoldable pub Owes : View F → List (Message Hash Node) → List (Message Hash Node) → Type 0
  Owes view [] [] = Unit
  Owes view [] (r ∷ rs) = ⊥
  Owes view (m ∷ ms) [] = ⊥
  Owes view (m ∷ ms) (r ∷ rs) = (reply_to F A view m ≡ some r) × Owes view ms rs

module _ {F : Forest} {A : Archive F} ⦃e : Eq F.Hash⦄ where
  open F use {Hash, Node}

  HasReplied-rethrow :
      (f : Error → Error) (w : Worker F A) (r : Message Hash Node)
      (p : Result (Unit {0}) × Worker F A)
      → HasReplied w r p
      → HasReplied w r (on_error f p)
  HasReplied-rethrow f w r (ok u, v) h = h
  HasReplied-rethrow f w r (err x, v) h = absurd (let i : err x ≡ ok tt = h.succeeds in cc)
  HasReplied-rethrow f w r (panics, v) h = absurd (let i : panics ≡ ok tt = h.succeeds in cc)

  answered :
      (w : Worker F A) (q r : Message Hash Node) (p p' : Result (Unit {0}) × Worker F A)
      → some q ≡ some r
      → p ≡ p'
      → HasReplied w q p'
      → HasReplied w r (on_error (wrapped "error running hook for %s: %w") p)
  answered w q r p p' i j h =
      let same : q ≡ r = cc in
      HasReplied-rethrow (wrapped "error running hook for %s: %w") w r p
        (subst (λ x. HasReplied w x p) same (subst (HasReplied w q) (sym j) h))

  module _ (w : Worker F A) (view : View F) (a : IsAnswering A view w.store w.now)
      (f : w.conn.faults ≡ []) where
    open view use {look, below}

    everywhere : (hs : List Hash) → All (λ h. A.get w.store h ≡ ok (look h)) hs
    everywhere [] = tt
    everywhere (h ∷ hs) = (a.get_look h, everywhere hs)

    dispatch-HasReplied :
        (m r : Message Hash Node)
        → reply_to F A view m ≡ some r
        → HasReplied w r (dispatch F (host F A) (handlers F A) m w)
    unfolding dispatch reply_to
    dispatch-HasReplied (version_message id major minor) r i =
        answered w _ r _ _ i (on_version-reports id major minor w f) (reported-HasReplied id _ w)
    dispatch-HasReplied (list_message id t q) r i =
        answered w _ r _ _ i (on_list-responds w view a id t q f) (responded-HasReplied id _ w)
    dispatch-HasReplied (query_message id ids) r i =
        answered w _ r _ _ i (on_query-answers F A id look ids w (everywhere ids) f)
          (responded-HasReplied id _ w)
    dispatch-HasReplied (ancestry_message id node levels) r i = elim (Option-cases (look node)) [
      | inl l ↦ absurd (
          let j : reply_to F A view (ancestry_message id node levels) ≡ none = rw (reply_to, l) in
          cc)
      | inr (n, l) ↦
          let j : reply_to F A view (ancestry_message id node levels)
              ≡ some (
                  response_message id
                    (A.sort_by F.tree_depth (forebears F A view (pos_part levels) n))) =
            rw (reply_to, l) in
          answered w _ r _ _ (sym j ∙ i) (on_ancestry-responds w view a id node levels n l f)
            (responded-HasReplied id _ w)
    ]
    dispatch-HasReplied (leaves_of_message id node (pos quantity)) r i =
        answered w _ r _ _ i
          ((on_leaves_of-answers F A id node look (below node) w (a.descendants_below node)
              (everywhere (below node)) f).0
            quantity)
          (responded-HasReplied id _ w)
    dispatch-HasReplied (leaves_of_message id node (negsuc n)) r i = absurd cc
    dispatch-HasReplied (subscribe_message id node) r i =
        answered w _ r _ _ i refl (on_subscribe-HasReplied w view a id node f)
    dispatch-HasReplied (unsubscribe_message id node) r i =
        answered w _ r _ _ i refl (on_unsubscribe-HasReplied w view a id node f)
    dispatch-HasReplied (announce_message id nodes) r i =
        answered w _ r _ _ i refl (on_announce-HasReplied id nodes w view a f)
    dispatch-HasReplied (response_message target nodes) r i = absurd cc
    dispatch-HasReplied (status_message target code) r i = absurd cc
    dispatch-HasReplied no_message r i = absurd cc

  module _ (laws : ForestLaws F) where
    -- A worker on a working transport, with a store that answers, reads a request whose numbers fit
    -- their types and that is owed a reply: it writes that reply under the ID of the request, and
    -- else changes nothing of its connection or its store.
    pub read_message-replies :
        (w : Worker F A) (view : View F) (m r : Message Hash Node) (rest : Text)
        → IsAnswering A view w.store w.now
        → w.conn.faults ≡ []
        → IsSendable F m
        → w.conn.input ≡ message_text F m ++ rest
        → reply_to F A view m ≡ some r
        → HasReplied (with_input F A rest w) r (read_message F (host F A) (handlers F A) w)
    read_message-replies w view m r rest a f s i o =
        subst (HasReplied (with_input F A rest w) r)
          (sym (read_message-message_text F laws (host F A) (handlers F A) m rest w s i))
          (dispatch-HasReplied (with_input F A rest w) view a f m r o)

    run-after :
        (w v : Worker F A) (rounds : ℕ) (closed : ℕ → Bool)
        → read_message F (host F A) (handlers F A) w ≡ (ok tt, v)
        → closed rounds ≡ false
        → run F A (suc rounds) closed w ≡ run F A rounds closed v
    unfolding run
    run-after w v rounds closed h c =
        ap
          (λ (p : Result (Unit {0}) × Worker F A). elim (after_read F A p.0) [
            | some ending ↦ (some ending, p.1)
            | none ↦ elim (closed rounds) [
              | true ↦ (some done, p.1)
              | false ↦ run F A rounds closed p.1
            ]
          ])
          h
        ∙ rw c

    IsAnswering-same :
        (view : View F) (s s' : A.Store) (now now' : ℕ)
        → s' ≡ s
        → now' ≡ now
        → IsAnswering A view s now
        → IsAnswering A view s' now'
    IsAnswering-same view s s' now now' p q a = rw (p, q) a

    -- A peer sends requests, one after the other, whose numbers fit their types and that are owed
    -- replies. As long as Done is open, Run reads them all, one in each round, and writes the
    -- replies that they are owed, one for each and in their order, on a working transport and with a
    -- store that answers.
    pub run-serves :
        (ms rs : List (Message Hash Node)) (view : View F) (w : Worker F A) (rest : Text)
        → IsAnswering A view w.store w.now
        → w.conn.faults ≡ []
        → All (IsSendable F) ms
        → w.conn.input ≡ messages_text F ms ++ rest
        → Owes F A view ms rs
        → (v : Worker F A) × (v.conn
            ≡ record w.conn { input = rest; output = w.conn.output ++ messages_text F rs })
          × ((rounds : ℕ) (closed : ℕ → Bool)
              → ((i : ℕ) → closed i ≡ false)
              → run F A (length ms + rounds) closed w ≡ run F A rounds closed v)
    unfolding Owes messages_text
    run-serves [] [] view w rest a f s i o = (
      w,
      rw (append-nil w.conn.output) (ap (λ t. record w.conn { input = t }) i),
      λ rounds closed c. ap (λ k. run F A k closed w) (omega arith),
    )
    run-serves [] (r ∷ rs) view w rest a f s i o = absurd o
    run-serves (m ∷ ms) [] view w rest a f s i o = absurd o
    run-serves (m ∷ ms) (r ∷ rs) view w rest a f (s, ss) i (o, os) =
        let next = messages_text F ms ++ rest in
        let h =
          read_message-replies w view m r next a f s
            (i ∙ append_assoc (message_text F m) (messages_text F ms) rest) o in
        let p = read_message F (host F A) (handlers F A) w in
        let (v, c, g) =
          run-serves ms rs view p.1 rest (IsAnswering-same view _ _ _ _ h.same_store h.same_time a)
            (ap (λ (x : Conn Node). x.faults) h.conn_replied ∙ f) ss
            (ap (λ (x : Conn Node). x.input) h.conn_replied) os in
        (
          v,
          c
              ∙ ap
                  (λ (x : Conn Node). record x {
                    input = rest;
                    output = x.output ++ messages_text F rs;
                  })
                  h.conn_replied
              ∙ rw (append_assoc w.conn.output (message_text F r) (messages_text F rs)),
          λ rounds closed k.
              let count : suc (length ms) + rounds ≡ suc (length ms + rounds) = omega arith in
              ap (λ k. run F A k closed w) count
              ∙ run-after w p.1 (length ms + rounds) closed (ap (λ x. (x, p.1)) h.succeeds)
                  (k (length ms + rounds))
              ∙ g rounds closed k,
        )
