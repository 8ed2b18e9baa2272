-- ===== src/Worker/Announce.antt =====
-- OnAnnounce.
use sprout_go.Base.{Bool, true, false, Option, none, some, List, [], ◌∷◌, if◌then◌else◌, Eq}
use sprout_go.Base.Int.{ℤ}
use sprout_go.Base.Exec.{Result, ok, err, panics, Exec, ◌>>=◌}
use sprout_go.Forest.{Forest, Shape, identity, community, reply, other}
use sprout_go.Session.{Session, is_subscribed}
use sprout_go.Conn.Send.{send_status, status_ok, error_unknown_node}
use sprout_go.Worker.Store.{Archive}
use sprout_go.Worker.State.{Worker, on_wire}

-- What the loop does with one node: nothing, or it starts a goroutine that ingests the node, or it
-- ends the handler with the status ErrorUnknownNode.
pub data Verdict : Type 0 where
  skip ingest unknown_node : Verdict

module _ (F : Forest) (A : Archive F) ⦃e : Eq F.Hash⦄ where
  open F use {Hash, Node, id, shape}
  open A use {get, is_expired}

  -- The type switch.
  abbrev pub by_shape : Session Hash → Shape Hash → Verdict
  by_shape s identity = ingest
  by_shape s (community author) = ingest
  by_shape s (reply author community_id) = if is_subscribed community_id s then ingest else skip
  by_shape s other = unknown_node

  -- The look-up of the node in the store, then the type switch.
  abbrev pub by_store : Session Hash → Shape Hash → Result (Option Node) → Result Verdict
  by_store s sh (ok (some old)) = ok skip
  by_store s sh (ok none) = ok (by_shape s sh)
  by_store s sh (err x) = ok skip
  by_store s sh panics = panics

  -- The check for expiration, then the rest.
  abbrev pub by_expiration : Result Bool → Result Verdict → Result Verdict
  by_expiration (ok true) rest = ok skip
  by_expiration (ok false) rest = rest
  by_expiration (err x) rest = ok skip
  by_expiration panics rest = panics

  unfoldable pub verdict : Node → Worker F A → Result Verdict
  verdict n w =
      by_expiration (is_expired w.now n) (by_store w.session (shape n) (get w.store (id n)))

  abbrev pub start_ingesting : Node → Worker F A → Worker F A
  start_ingesting n w = record w { ingesting = n ∷ w.ingesting }

  -- The loop, and whether it ran to its end. The goroutines that it starts do not run in between.
  unfoldable pub announce_loop : List Node → Exec (Worker F A) Bool
  announce_loop [] w = (ok true, w)
  announce_loop (n ∷ ns) w = elim (verdict n w) [
    | ok v ↦ elim v [
      | skip ↦ announce_loop ns w
      | ingest ↦ announce_loop ns (start_ingesting n w)
      | unknown_node ↦ (ok false, w)
    ]
    | err x ↦ (err x, w)
    | panics ↦ (panics, w)
  ]

  unfoldable pub on_announce : ℤ → List Node → Exec (Worker F A) (Unit {0})
  on_announce message_id nodes = do
    all_known ← announce_loop nodes
    if all_known
        then on_wire F A (send_status message_id status_ok)
        else on_wire F A (send_status message_id error_unknown_node)
