-- ===== src/Worker/Followed.antt =====
-- What a peer is told of the communities to which it has subscribed.
use sprout_go.Base.{◌≡◌, ◌∙◌, ap, List, [], ◌∷◌, ◌++◌, ltb, if◌then◌else◌, Eq}
use sprout_go.Forest.{Forest, reply}
use sprout_go.Session.{new_session}
use sprout_go.Conn.Parse.{announce_message}
use sprout_go.Conn.Wire.{message_text}
use sprout_go.Worker.Store.{Archive}
use sprout_go.Worker.State.{Worker}
use sprout_go.Worker.Ingest.{handle_new_node}
use sprout_go.Worker.Announced.{is_welcome}
use sprout_go.Worker.Announcing.{handle_new_node-announces}
use sprout_go.Worker.Subscribed.{Call, balance, handle_calls, is_subscribed-handle_calls}

module _ (F : Forest) (A : Archive F) ⦃e : Eq F.Hash⦄ where
  open F use {Hash, Node}

  -- The peer has subscribed and unsubscribed, with any communities and in any order, at a worker with
  -- a new session, and the transport works now. HandleNewNode announces a reply exactly when the
  -- balance of its community is not 0: each subscription counts 1, and an unsubscription takes away
  -- 1, if there is one. Otherwise it writes nothing.
  pub handle_new_node-handle_calls :
      (n : Node) (author h : Hash) (cs : List (Call Hash)) (w : Worker F A)
      → w.session ≡ new_session
      → F.shape n ≡ reply author h
      → (handle_calls F A cs w).conn.faults ≡ []
      → let v = handle_calls F A cs w in
        ((handle_new_node F A n v).1.conn.output ≡ (
          if ltb 0 (balance h cs)
          then v.conn.output ++ message_text F (announce_message v.conn.next_message_id (n ∷ []))
          else v.conn.output))
  handle_new_node-handle_calls n author h cs w s r f =
      let v = handle_calls F A cs w in
      let told =
        v.conn.output ++ message_text F (announce_message v.conn.next_message_id (n ∷ [])) in
      (handle_new_node-announces F A n v f).1
      ∙ ap (λ b. if b then told else v.conn.output)
          (ap (is_welcome F A v.session) r ∙ is_subscribed-handle_calls F A h cs w s)
