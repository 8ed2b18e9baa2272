-- ===== src/Relay/Start.antt =====
-- cmd/relay/main.go: main, from its flags to its end. What is logged is left out. The goroutines that
-- it starts are their own parts.
pub mod Outcome
pub mod AllOrNothing
pub mod StartTests
use sprout_go.Base.{
  Bool, true, false, Option, none, some, List, [], ◌∷◌, ◌++◌, Text, codes, if◌then◌else◌,
}
use sprout_go.Base.Int.{ℤ, pos}
use sprout_go.Base.Exec.{Result, ok, Exec, pure, lift, rethrow, ◌>>=◌, ◌>>◌}
use sprout_go.Base.Errors.{opaque}
use sprout_go.Fmt.Format.{int, string, printf}
use sprout_go.Watch.{start_watch}

-- What flag.Parse leaves; `addresses` are the arguments that are left over.
pub record Flags : Type 0 where
  pub grove_path : Text
  pub cert_path : Text
  pub key_path : Text
  pub insecure : Bool
  pub tls_port : ℤ
  pub tls_ip : Text
  pub profiling_addr : Text
  pub metrics_address : Text
  pub addresses : List Text

-- The flags with no arguments, in a working directory.
abbrev pub default_flags : Text → Flags
default_flags wd = record {
  grove_path = wd;
  cert_path = [];
  key_path = [];
  insecure = false;
  tls_port = pos 7777;
  tls_ip = codes "127.0.0.1";
  profiling_addr = [];
  metrics_address = codes "127.0.0.1:2112";
  addresses = [];
}

-- tls.Config: the fields that main sets. tls.VersionTLS12 is 0x303.
pub record TlsConfig (Cert : Type 0) : Type 0 where
  pub certificates : List Cert
  pub min_version : ℤ
  pub insecure_skip_verify : Bool

-- What main asks of the packages crypto/tls, grove and fsnotify.
pub record Platform : Type 1 where
  pub Cert : Type 0
  pub Listener : Type 0
  pub Grove : Type 0
  pub Watcher : Type 0
  -- tls.LoadX509KeyPair, tls.Listen, grove.New, fsnotify.NewWatcher and the Add of the watcher
  pub load_key_pair : Text → Text → Result Cert
  pub listen : Text → TlsConfig Cert → Result Listener
  pub new_grove : Text → Result Grove
  pub new_watcher : Result Watcher
  pub add_watch : Text → Watcher → Result (Unit {0})

module _ (P : Platform) where
  open P use {Cert, Listener, Grove}

  -- What main starts: servers for profiles and metrics, the purge of expired nodes, the callback for
  -- added messages, the goroutine of Watch, the loop that accepts connections, and a supervised
  -- worker for an address.
  pub data Service : Type 0 where
    profiling metrics : Text → Service
    purging remembering : Service
    watching : Text → Service
    accepting : Listener → Service
    dialling : Option (TlsConfig Cert) → Text → Service

  pub record Process : Type 0 where
    -- in the order in which they were started
    pub services : List Service
    -- the channel `done`
    pub done_closed : Bool
    -- messages.Destroy()
    pub destroyed : Bool

  abbrev pub new_process : Process
  new_process = record { services = []; done_closed = false; destroyed = false }

  unfoldable pub start_all : List Service → Exec Process (Unit {0})
  start_all ss p = (ok tt, record p { services = p.services ++ ss })

  abbrev pub unless_empty : (Text → Service) → Text → List Service
  unless_empty service [] = []
  unless_empty service (c ∷ cs) = service (c ∷ cs) ∷ []

  abbrev pub server_config : Cert → TlsConfig Cert
  server_config cert = record {
    certificates = cert ∷ [];
    min_version = pos 0x303;
    insecure_skip_verify = false;
  }

  -- peerTlsConfig; `none` is nil
  abbrev pub peer_config : Bool → Option (TlsConfig Cert)
  peer_config insecure =
      if insecure
      then some (record { certificates = []; min_version = pos 0; insecure_skip_verify = true })
      else none

  abbrev pub listen_address : Flags → Text
  listen_address f = printf (codes "%s:%d") (string f.tls_ip ∷ int f.tls_port ∷ [])

  -- The call of Watch; its error is not looked at.
  unfoldable pub watch_grove : Text → Exec Process (Unit {0})
  watch_grove path =
      let started = (start_watch P.new_watcher (P.add_watch path) false).1 in
      start_all (if started then watching path ∷ [] else [])

  unfoldable pub dial_all : Option (TlsConfig Cert) → List Text → Exec Process (Unit {0})
  dial_all config [] = pure tt
  dial_all config (address ∷ rest) = do
    start_all (dialling config address ∷ [])
    dial_all config rest

  -- main up to the wait for a signal. An error is that of log.Fatalf, which ends the process.
  unfoldable pub start : Flags → Exec Process (Unit {0})
  start f = do
    start_all (unless_empty profiling f.profiling_addr)
    cert ←
        rethrow (opaque "Failed loading certs: %v") (lift (P.load_key_pair f.cert_path f.key_path))
    listener ←
        rethrow (opaque "Failed to start TLS listener on address %s: %v")
          (lift (P.listen (listen_address f) (server_config cert)))
    start_all (unless_empty metrics f.metrics_address)
    grove ← rethrow (opaque "Failed to create grove at %s: %v") (lift (P.new_grove f.grove_path))
    start_all (purging ∷ remembering ∷ [])
    watch_grove f.grove_path
    start_all (accepting listener ∷ [])
    dial_all (peer_config f.insecure) f.addresses

  -- The end of main: `done` is closed, and the deferred call is made.
  unfoldable pub shut_down : Exec Process Bool
  shut_down p = (ok true, record p { done_closed = true; destroyed = true })

  -- main, and whether it returns: it waits for a signal to interrupt it.
  unfoldable pub main : Flags → (interrupted : Bool) → Exec Process Bool
  main f interrupted = do start f; if interrupted then shut_down else pure false
