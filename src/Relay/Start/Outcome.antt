-- ===== src/Relay/Start/Outcome.antt =====
-- How main ends: what it has then started.
use sprout_go.Base.{◌≡◌, Bool, false, Option, List, [], ◌∷◌, ◌++◌, All, Text}
use sprout_go.Base.Exec.{Result, ok}
use sprout_go.Relay.Start.{
  Flags, TlsConfig, Platform, Service, profiling, metrics, purging, remembering, watching,
  accepting, dialling, Process, unless_empty, server_config, peer_config, listen_address,
}

module _ (P : Platform) where
  open P use {Cert, Listener, Grove, Watcher}

  -- The grove is watched if a watcher could be made, also if it cannot be added to it.
  abbrev pub watched : Result Watcher → Text → List (Service P)
  watched (ok w) path = watching path ∷ []
  watched _ path = []

  abbrev pub dialled : Option (TlsConfig Cert) → List Text → List (Service P)
  dialled config [] = []
  dialled config (address ∷ rest) = dialling config address ∷ dialled config rest

  abbrev pub everything : Flags → Listener → List (Service P)
  everything f l =
      unless_empty P profiling f.profiling_addr
      ++ (unless_empty P metrics f.metrics_address
          ++ (purging
              ∷ remembering
              ∷ (watched P.new_watcher f.grove_path
                  ++ accepting l ∷ dialled (peer_config P f.insecure) f.addresses)))

  -- A server for profiles or metrics.
  abbrev pub IsServer : Service P → Type 0
  IsServer (profiling addr) = Unit
  IsServer (metrics addr) = Unit
  IsServer _ = ⊥

  -- A key pair, a listener and a grove are there.
  abbrev pub IsSetUp : Flags → Listener → Type 0
  IsSetUp f l =
      (cert : Cert) × (g : Grove) × (P.load_key_pair f.cert_path f.key_path ≡ ok cert)
      × (P.listen (listen_address P f) (server_config P cert) ≡ ok l)
      × (P.new_grove f.grove_path ≡ ok g)

  -- Nothing but such servers was started, since something is not there.
  abbrev pub Failed : (IsThere : Listener → Type 0) → Process P → Type 0
  Failed IsThere p =
      (p.done_closed ≡ false)
      × (p.destroyed ≡ false)
      × All IsServer p.services
      × ¬ ((l : Listener) × IsThere l)

  abbrev pub AllOrNothing :
      Flags
      → (interrupted : Bool) → (IsThere : Listener → Type 0) → Result Bool × Process P
      → Type 0
  AllOrNothing f interrupted IsThere (ok returned, p) =
      (returned ≡ interrupted)
      × (p.done_closed ≡ interrupted)
      × (p.destroyed ≡ interrupted)
      × ((l : Listener) × IsThere l × (p.services ≡ everything f l))
  AllOrNothing f interrupted IsThere (_, p) = Failed IsThere p
