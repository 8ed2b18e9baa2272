-- ===== src/Worker/Woken.antt =====
-- A worker that waits for the replies of a peer, which come one after the other.
use sprout_go.Base.{◌≡◌, ap, List, [], ◌∷◌, ◌++◌, codes}
use sprout_go.Conn.Send.{
  Wakeup, replied, status_ok, op_format, count, send_list, send_list_async, send_leaves_of,
  send_leaves_of_async, send_announce, send_announce_async, send_subscribe, subscribe_op,
  subscribe_op_id, subscribe_op_id_async, send_ancestry, send_ancestry_async,
}
use sprout_go.Base.Int.{ℤ, pos}
use sprout_go.Base.Exec.{ok, Exec}
use sprout_go.Forest.{Forest}
use sprout_go.Conn.State.{Conn, is_response, is_status}
use sprout_go.Conn.Verbs.{list, leaves_of, announce, subscribe, ancestry}
use sprout_go.Conn.Wire.{message_text}
use sprout_go.Fmt.Format.{string, int, uint}
use sprout_go.Conn.Dispatch.{on_conn}
use sprout_go.Conn.Replies.{
  response_request-answered, status_request-answered, response_request-wrote, status_request-wrote,
}
use sprout_go.Worker.Store.{Archive}
use sprout_go.Worker.State.{Worker, on_wire}
use sprout_go.Worker.Ingest.{request}
use sprout_go.Conn.Nodes.{stringify_nodes}
use sprout_go.Worker.Requests.{
  Wrote, one_written, listing, subscription, leaves_request, announcement, ancestry_request,
}

-- The peer accepts what it is sent.
abbrev pub accepted : {N : Type 0} → Wakeup N
accepted = replied (is_status status_ok)

module _ {F : Forest} {A : Archive F} where
  -- A worker whose waits will end like this.
  abbrev pub with_wakeups : List (Wakeup F.Node) → Worker F A → Worker F A
  with_wakeups ks w = record w { wakeups = ks }

  abbrev pub with_store : A.Store → Worker F A → Worker F A
  with_store s w = record w { store = s }

  abbrev pub with_conn : Conn F.Node → Worker F A → Worker F A
  with_conn c w = record w { conn = c }

  -- A request takes the next wake-up.
  pub request-woken :
      {B : Type 0} (op : Wakeup F.Node → Exec (Conn F.Node) B) (k : Wakeup F.Node)
      (ks : List (Wakeup F.Node)) (w : Worker F A) (b : B)
      → (op k w.conn).0 ≡ ok b
      → request F A op (with_wakeups (k ∷ ks) w)
        ≡ (ok b, with_wakeups ks (with_conn (op k w.conn).1 w))
  unfolding request on_wire on_conn
  request-woken op k ks w b h = ap (λ r. (r, with_wakeups ks (with_conn (op k w.conn).1 w))) h

  pub subscribed :
      (n : F.Node) (ks : List (Wakeup F.Node)) (w : Worker F A)
      → w.conn.faults ≡ []
      → let c = (send_subscribe F n accepted w.conn).1 in
        (request F A (send_subscribe F n) (with_wakeups (accepted ∷ ks) w)
          ≡ (ok tt, with_wakeups ks (with_conn c w)))
        × (c.faults ≡ [])
        × Wrote F w.conn (subscription F n ∷ []) c
  unfolding message_text send_subscribe subscribe_op subscribe_op_id subscribe_op_id_async
  subscribed n ks w f =
      let (o, works) =
        status_request-answered subscribe (op_format subscribe)
          (string (F.hash_string (F.id n)) ∷ []) w.conn f in
      (
        request-woken (send_subscribe F n) accepted ks w tt o,
        works,
        one_written F (subscription F n) w.conn (send_subscribe F n accepted w.conn).1 (
            status_request-wrote subscribe (op_format subscribe)
              (string (F.hash_string (F.id n)) ∷ []) w.conn f),
      )

  pub listed :
      (quantity : ℤ) (ns : List F.Node) (ks : List (Wakeup F.Node)) (w : Worker F A)
      → w.conn.faults ≡ []
      → let answer = replied (is_response ns) in
        let c = (send_list F.node_type_community quantity answer w.conn).1 in
        (request F A (send_list F.node_type_community quantity) (with_wakeups (answer ∷ ks) w)
          ≡ (ok ns, with_wakeups ks (with_conn c w)))
        × (c.faults ≡ [])
        × Wrote F w.conn (listing F quantity ns ∷ []) c
  unfolding message_text send_list send_list_async
  listed quantity ns ks w f =
      let (o, works) =
        response_request-answered list (op_format list)
          (uint F.node_type_community ∷ int quantity ∷ []) ns w.conn f in
      (
        request-woken (send_list F.node_type_community quantity) (replied (is_response ns)) ks w ns
            o,
        works,
        one_written F (listing F quantity ns) w.conn
            (send_list F.node_type_community quantity (replied (is_response ns)) w.conn).1
            (response_request-wrote list (op_format list)
              (uint F.node_type_community ∷ int quantity ∷ []) ns w.conn f),
      )

  pub leaves_listed :
      (n : F.Node) (quantity : ℤ) (leaves : List F.Node) (ks : List (Wakeup F.Node))
      (w : Worker F A)
      → w.conn.faults ≡ []
      → let answer = replied (is_response leaves) in
        let c = (send_leaves_of F (F.id n) quantity answer w.conn).1 in
        (request F A (send_leaves_of F (F.id n) quantity) (with_wakeups (answer ∷ ks) w)
          ≡ (ok leaves, with_wakeups ks (with_conn c w)))
        × (c.faults ≡ [])
        × Wrote F w.conn (leaves_request F n quantity leaves ∷ []) c
  unfolding message_text send_leaves_of send_leaves_of_async
  leaves_listed n quantity leaves ks w f =
      let (o, works) =
        response_request-answered leaves_of (op_format leaves_of)
          (string (F.hash_string (F.id n)) ∷ int quantity ∷ []) leaves w.conn f in
      (
        request-woken (send_leaves_of F (F.id n) quantity) (replied (is_response leaves)) ks w
            leaves o,
        works,
        one_written F (leaves_request F n quantity leaves) w.conn
            (send_leaves_of F (F.id n) quantity (replied (is_response leaves)) w.conn).1
            (response_request-wrote leaves_of (op_format leaves_of)
              (string (F.hash_string (F.id n)) ∷ int quantity ∷ []) leaves w.conn f),
      )

  pub announced :
      (ns : List F.Node) (ks : List (Wakeup F.Node)) (w : Worker F A)
      → w.conn.faults ≡ []
      → let c = (send_announce F ns accepted w.conn).1 in
        (request F A (send_announce F ns) (with_wakeups (accepted ∷ ks) w)
          ≡ (ok tt, with_wakeups ks (with_conn c w)))
        × (c.faults ≡ [])
        × Wrote F w.conn (announcement F ns ∷ []) c
  unfolding message_text send_announce send_announce_async
  announced ns ks w f =
      let (o, works) =
        status_request-answered announce (op_format announce ++ codes "%s")
          (count F ns ∷ string (stringify_nodes F ns) ∷ []) w.conn f in
      (
        request-woken (send_announce F ns) accepted ks w tt o,
        works,
        one_written F (announcement F ns) w.conn (send_announce F ns accepted w.conn).1 (
            status_request-wrote announce (op_format announce ++ codes "%s")
              (count F ns ∷ string (stringify_nodes F ns) ∷ []) w.conn f),
      )

  -- A request for the ancestry of a node.
  pub ancestry_answered :
      (n : F.Node) (ns : List F.Node) (ks : List (Wakeup F.Node)) (w : Worker F A)
      → w.conn.faults ≡ []
      → let levels = pos (F.tree_depth n) in
        let answer = replied (is_response ns) in
        let c = (send_ancestry F (F.id n) levels answer w.conn).1 in
        (request F A (send_ancestry F (F.id n) levels) (with_wakeups (answer ∷ ks) w)
          ≡ (ok ns, with_wakeups ks (with_conn c w)))
        × (c.faults ≡ [])
        × Wrote F w.conn (ancestry_request F n ns ∷ []) c
  unfolding message_text send_ancestry send_ancestry_async
  ancestry_answered n ns ks w f =
      let levels = pos (F.tree_depth n) in
      let args = string (F.hash_string (F.id n)) ∷ int levels ∷ [] in
      let (o, works) = response_request-answered ancestry (op_format ancestry) args ns w.conn f in
      (
        request-woken (send_ancestry F (F.id n) levels) (replied (is_response ns)) ks w ns o,
        works,
        one_written F (ancestry_request F n ns) w.conn
            (send_ancestry F (F.id n) levels (replied (is_response ns)) w.conn).1
            (response_request-wrote ancestry (op_format ancestry) args ns w.conn f),
      )
