-- ===== src/Worker/State.antt =====
-- The state of a Worker.
use sprout_go.Base.{ℕ, List, Text}
use sprout_go.Base.Exec.{Result, Exec}
use sprout_go.Forest.{Forest}
use sprout_go.Session.{Session}
use sprout_go.Conn.State.{Conn}
use sprout_go.Conn.Send.{Wakeup}
use sprout_go.Conn.Dispatch.{Host, on_conn}
use sprout_go.Worker.Store.{Archive}

module _ (F : Forest) (A : Archive F) where
  open F use {Hash, Node}
  open A use {Store}

  pub record Worker : Type 0 where
    pub conn : Conn Node
    pub session : Session Hash
    pub store : Store
    pub subscription_id : ℕ
    -- the addresses that were given to hashes so far
    pub addresses : ℕ
    -- the time at which expiration is checked
    pub now : ℕ
    -- how the coming waits for a reply end; when the list has ended, by their timeout
    pub wakeups : List (Wakeup Node)
    -- the nodes for which a goroutine was started that ingests them, the latest first
    pub ingesting : List Node

  abbrev pub host : Host Node Worker
  host = record { conn = λ w. w.conn; with_conn = λ c w. record w { conn = c } }

  -- The worker with another input, as another text comes from its peer.
  abbrev pub with_input : Text → Worker → Worker
  with_input t w = record w { conn = record w.conn { input = t } }

  -- A call on the connection.
  unfoldable pub on_wire {ℓ} : {B : Type ℓ} → Exec (Conn Node) B → Exec Worker B
  unfolding on_conn
  on_wire m = on_conn host m

  -- A read of the store.
  abbrev pub from_store {ℓ} : {B : Type ℓ} → (Store → Result B) → Exec Worker B
  from_store f w = (f w.store, w)
