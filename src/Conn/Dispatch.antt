-- ===== src/Conn/Dispatch.antt =====
-- ReadMessage: a message is read, and handed to its handler or to the channel that waits for it.
-- The handlers are the fields OnVersion to OnAnnounce; they work on the state of the program that
-- owns the connection, of which the connection is a part.
use sprout_go.Base.{ℕ, Option, none, some, List, Text}
use sprout_go.Base.Int.{ℤ}
use sprout_go.Base.Exec.{Exec, pure, raise, rethrow, ◌>>=◌}
use sprout_go.Base.Errors.{Error, message, wrapped}
use sprout_go.Forest.{Forest}
use sprout_go.Conn.State.{Conn, is_status, is_response, send_to_waiting_channel}
use sprout_go.Conn.Parse.{
  Message, version_message, list_message, query_message, ancestry_message, leaves_of_message,
  response_message, subscribe_message, unsubscribe_message, status_message, announce_message,
  no_message, parse_message,
}

-- Where the connection stands in the state of the program.
pub record Host (N W : Type 0) : Type 0 where
  pub conn : W → Conn N
  pub with_conn : Conn N → W → W

pub record Handlers (H N W : Type 0) : Type 0 where
  pub on_version : Option (ℤ → ℤ → ℤ → Exec W (Unit {0}))
  pub on_list : Option (ℤ → ℕ → ℤ → Exec W (Unit {0}))
  pub on_query : Option (ℤ → List H → Exec W (Unit {0}))
  pub on_ancestry : Option (ℤ → H → ℤ → Exec W (Unit {0}))
  pub on_leaves_of : Option (ℤ → H → ℤ → Exec W (Unit {0}))
  pub on_subscribe : Option (ℤ → H → Exec W (Unit {0}))
  pub on_unsubscribe : Option (ℤ → H → Exec W (Unit {0}))
  pub on_announce : Option (ℤ → List N → Exec W (Unit {0}))

module _ {N W : Type 0} (host : Host N W) where
  open host use {conn, with_conn}

  -- An operation of the connection, as one of the program.
  unfoldable pub on_conn {ℓ} : {A : Type ℓ} → Exec (Conn N) A → Exec W A
  on_conn m w = let (r, c) = m (conn w) in (r, with_conn c w)

  -- A scan of the input.
  unfoldable pub on_input {ℓ} : {A : Type ℓ} → Exec Text A → Exec W A
  on_input m w =
      let (r, rest) = m (conn w).input in (r, with_conn (record (conn w) { input = rest }) w)

abbrev pub no_handler : Error
no_handler = message "no handler set for verb %s"

-- The test for a handler that is not set, and the call of one that is.
abbrev pub run_hook {ℓ} :
    {T : Type ℓ} {W : Type 0} → Option T → (T → Exec W (Unit {0})) → Exec W (Unit {0})
run_hook none call = raise no_handler
run_hook (some hook) call = rethrow (wrapped "error running hook for %s: %w") (call hook)

module _ (F : Forest) {W : Type 0} (host : Host F.Node W) (hs : Handlers F.Hash F.Node W) where
  open F use {Hash, Node}
  open hs use {
    on_version, on_list, on_query, on_ancestry, on_leaves_of, on_subscribe, on_unsubscribe,
    on_announce,
  }

  unfoldable pub dispatch : Message Hash Node → Exec W (Unit {0})
  dispatch (version_message id major minor) = run_hook on_version (λ h. h id major minor)
  dispatch (list_message id node_type quantity) = run_hook on_list (λ h. h id node_type quantity)
  dispatch (query_message id ids) = run_hook on_query (λ h. h id ids)
  dispatch (ancestry_message id node levels) = run_hook on_ancestry (λ h. h id node levels)
  dispatch (leaves_of_message id node quantity) = run_hook on_leaves_of (λ h. h id node quantity)
  dispatch (response_message target nodes) =
      rethrow (wrapped "failed sending response to waiting channel: %w")
        (on_conn host (send_to_waiting_channel (is_response nodes) target))
  dispatch (subscribe_message id node) = run_hook on_subscribe (λ h. h id node)
  dispatch (unsubscribe_message id node) = run_hook on_unsubscribe (λ h. h id node)
  dispatch (status_message target code) =
      rethrow (wrapped "failed sending status to waiting channel: %w")
        (on_conn host (send_to_waiting_channel (is_status code) target))
  dispatch (announce_message id nodes) = run_hook on_announce (λ h. h id nodes)
  dispatch no_message = pure tt

  unfoldable pub read_message : Exec W (Unit {0})
  read_message = do m ← on_input host (parse_message F); dispatch m
