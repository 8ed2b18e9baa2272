-- ===== src/Worker/System.antt =====
-- What a worker goes through: the goroutines of Run, OnAnnounce, HandleNewNode and
-- BootstrapLocalStore take turns, and other users of the store change it.
use sprout_go.Base.{ℕ, ◌+◌, ◌≡◌, List, ◌∷◌, ◌++◌, Eq}
use sprout_go.Base.Int.{ℤ}
use sprout_go.Forest.{Forest}
use sprout_go.Conn.Dispatch.{read_message}
use sprout_go.Worker.Store.{Archive}
use sprout_go.Worker.State.{Worker, host}
use sprout_go.Worker.Run.{handlers}
use sprout_go.Worker.Ingest.{ingest_node, handle_new_node}
use sprout_go.Worker.Bootstrap.{bootstrap_local_store}

-- `Others` says what other users make of the store.
module _ (F : Forest) (A : Archive F) (Others : A.Store → A.Store → Type 0) ⦃e : Eq F.Hash⦄ where
  pub data Step : Worker F A → Worker F A → Type 0 where
    -- a round of Run
    reads : (w : Worker F A) → Step w (read_message F (host F A) (handlers F A) w).1
    -- a goroutine that OnAnnounce has started
    ingests :
        (w : Worker F A) (before after : List F.Node) (n : F.Node)
        → w.ingesting ≡ before ++ n ∷ after
        → Step w (ingest_node F A n (record w { ingesting = before ++ after })).1
    -- a node was added to the store, by any of its users
    handles : (w : Worker F A) (n : F.Node) → Step w (handle_new_node F A n w).1
    bootstraps :
        (w : Worker F A) (max_communities : ℤ)
        → Step w (bootstrap_local_store F A max_communities w).1
    -- another user of the store has changed it
    others : (w : Worker F A) (s : A.Store) → Others w.store s → Step w (record w { store = s })
    elapses : (w : Worker F A) (time : ℕ) → Step w (record w { now = w.now + time })
