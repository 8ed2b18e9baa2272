-- ===== src/Relay/Start/AllOrNothing.antt =====
-- What main has started when it waits for a signal or returns, and when it fails.
use mathlib.Core.List.{append_assoc, append-nil}
use sprout_go.Base.{
  ◌≡◌, ◌∙◌, ◌⊎◌, inl, inr, refl, sym, ap, subst, Bool, true, false, Option, List, [], ◌∷◌, ◌++◌,
  All, All-append, Text, if◌then◌else◌,
}
use sprout_go.Base.Exec.{Result, ok, err, panics, pure, continue-pure}
use sprout_go.Watch.{start_watch}
use sprout_go.Relay.Start.{
  Flags, TlsConfig, Platform, Service, profiling, metrics, watching, dialling, Process, new_process,
  start_all, unless_empty, server_config, listen_address, watch_grove, dial_all, start, shut_down,
  main,
}
use sprout_go.Relay.Start.Outcome.{watched, dialled, everything, IsServer, IsSetUp, AllOrNothing}

-- A result is a success, or it is none.
is_ok : {A : Type 0} (r : Result A) → ((a : A) × (r ≡ ok a)) ⊎ ¬ ((a : A) × (r ≡ ok a))
is_ok (ok a) = inl (a, refl)
is_ok (err e) = inr (λ (a, q). cc)
is_ok panics = inr (λ (a, q). cc)

module _ (P : Platform) where
  open P use {Cert, Listener, Grove, Watcher}

  start_watch-watched :
      (r : Result Watcher) (add : Watcher → Result (Unit {0})) (path : Text)
      → (if (start_watch r add false).1 then watching path ∷ [] else []) ≡ watched P r path
  unfolding start_watch
  start_watch-watched (ok w) add path = rw (continue-pure (add w, true) (λ u. w)) refl
  start_watch-watched (err x) add path = refl
  start_watch-watched panics add path = refl

  watch_grove-watched :
      (path : Text) (p : Process P)
      → watch_grove P path p
        ≡ (ok tt, record p { services = p.services ++ watched P P.new_watcher path })
  unfolding watch_grove start_all
  watch_grove-watched path p =
      ap (λ ss. (ok tt, record p { services = p.services ++ ss }))
        (start_watch-watched P.new_watcher (P.add_watch path) path)

  dial_all-dialled :
      (config : Option (TlsConfig Cert)) (addresses : List Text) (p : Process P)
      → dial_all P config addresses p
        ≡ (ok tt, record p { services = p.services ++ dialled P config addresses })
  unfolding dial_all start_all
  dial_all-dialled config [] p =
      ap (λ ss. (ok tt, record p { services = ss })) (sym (append-nil p.services))
  dial_all-dialled config (a ∷ rest) p =
      dial_all-dialled config rest (record p { services = p.services ++ dialling config a ∷ [] })
      ∙ ap (λ ss. (ok tt, record p { services = ss }))
          (append_assoc p.services (dialling config a ∷ []) (dialled P config rest))

  -- The end of main, of what was started.
  waiting :
      (f : Flags) (interrupted : Bool) (l : Listener) (p : Process P)
      → IsSetUp P f l
      → p.services ≡ everything P f l
      → p.done_closed ≡ false
      → p.destroyed ≡ false
      → AllOrNothing P f interrupted
          (IsSetUp P f)
          ((if interrupted then shut_down P else pure false) p)
  unfolding shut_down
  waiting f true l p k e d c = (refl, refl, refl, (l, k, e))
  waiting f false l p k e d c = (refl, d, c, (l, k, e))

  servers_only :
      (service : Text → Service P) (addr : Text)
      → ((a : Text) → IsServer P (service a))
      → All (IsServer P) (unless_empty P service addr)
  servers_only service [] h = tt
  servers_only service (c ∷ cs) h = (h (c ∷ cs), tt)

  -- The key pair, the listener and the grove are what the calls have answered.
  only_cert :
      (f : Flags) (cert : Cert) (l : Result Listener) (g : Result Grove)
      → P.load_key_pair f.cert_path f.key_path ≡ ok cert
      → P.listen (listen_address P f) (server_config P cert) ≡ l
      → P.new_grove f.grove_path ≡ g
      → ((k : Listener) × IsSetUp P f k)
      → ((k : Listener) × (l ≡ ok k)) × ((h : Grove) × (g ≡ ok h))
  only_cert f cert l g ec el eg (k, (c, h, e1, e2, e3)) =
      let q : c ≡ cert = cc in
      let listens = subst (λ x. P.listen (listen_address P f) (server_config P x) ≡ ok k) q e2 in
      ((k, sym el ∙ listens), (h, sym eg ∙ e3))

  -- What was started with a key pair, a listener and a grove.
  start-everything :
      (f : Flags) (cert : Cert) (l : Listener) (g : Grove)
      → P.load_key_pair f.cert_path f.key_path ≡ ok cert
      → P.listen (listen_address P f) (server_config P cert) ≡ ok l
      → P.new_grove f.grove_path ≡ ok g
      → start P f (new_process P) ≡ (ok tt, record (new_process P) { services = everything P f l })
  unfolding start start_all
  start-everything f cert l g ec el eg =
      rw (ec, el, eg, watch_grove-watched, dial_all-dialled) (simp append_assoc)

  profilers : (f : Flags) → All (IsServer P) (unless_empty P profiling f.profiling_addr)
  profilers f = servers_only profiling f.profiling_addr (λ a. tt)

  servers :
      (f : Flags)
      → All
          (IsServer P)
          (unless_empty P profiling f.profiling_addr ++ unless_empty P metrics f.metrics_address)
  servers f =
      All-append (IsServer P) (unless_empty P profiling f.profiling_addr)
        (unless_empty P metrics f.metrics_address) (profilers f)
        (servers_only metrics f.metrics_address (λ a. tt))

  module _ (f : Flags) (interrupted : Bool) (IsThere : Listener → Type 0)
      (missing : ¬ ((l : Listener) × IsThere l)) where
    -- What is missing ends main.
    no_grove :
        (cert : Cert) (l : Listener) (g : Result Grove)
        → P.load_key_pair f.cert_path f.key_path ≡ ok cert
        → P.listen (listen_address P f) (server_config P cert) ≡ ok l
        → P.new_grove f.grove_path ≡ g
        → ¬ ((h : Grove) × (g ≡ ok h))
        → AllOrNothing P f interrupted IsThere (main P f interrupted (new_process P))
    unfolding main start start_all
    no_grove cert l (ok g) ec el eg n = absurd (n (g, refl))
    no_grove cert l (err x) ec el eg n = rw (ec, el, eg) (refl, refl, servers f, missing)
    no_grove cert l panics ec el eg n = rw (ec, el, eg) (refl, refl, servers f, missing)

    no_listener :
        (cert : Cert) (l : Result Listener)
        → P.load_key_pair f.cert_path f.key_path ≡ ok cert
        → P.listen (listen_address P f) (server_config P cert) ≡ l
        → ¬ ((k : Listener) × (l ≡ ok k))
        → AllOrNothing P f interrupted IsThere (main P f interrupted (new_process P))
    unfolding main start start_all
    no_listener cert (ok l) ec el n = absurd (n (l, refl))
    no_listener cert (err x) ec el n = rw (ec, el) (refl, refl, profilers f, missing)
    no_listener cert panics ec el n = rw (ec, el) (refl, refl, profilers f, missing)

    no_cert :
        (c : Result Cert)
        → P.load_key_pair f.cert_path f.key_path ≡ c
        → ¬ ((cert : Cert) × (c ≡ ok cert))
        → AllOrNothing P f interrupted IsThere (main P f interrupted (new_process P))
    unfolding main start start_all
    no_cert (ok c) ec n = absurd (n (c, refl))
    no_cert (err x) ec n = rw ec (refl, refl, profilers f, missing)
    no_cert panics ec n = rw ec (refl, refl, profilers f, missing)

  all_there :
      (f : Flags) (interrupted : Bool) (cert : Cert) (l : Listener) (g : Grove)
      → P.load_key_pair f.cert_path f.key_path ≡ ok cert
      → P.listen (listen_address P f) (server_config P cert) ≡ ok l
      → P.new_grove f.grove_path ≡ ok g
      → AllOrNothing P f interrupted (IsSetUp P f) (main P f interrupted (new_process P))
  unfolding main
  all_there f interrupted cert l g ec el eg = rw (start-everything f cert l g ec el eg) (
      waiting f interrupted l (record (new_process P) { services = everything P f l })
        (cert, g, ec, el, eg) refl refl refl)

  grove_decides :
      (f : Flags) (interrupted : Bool) (cert : Cert) (l : Listener) (g : Result Grove)
      → P.load_key_pair f.cert_path f.key_path ≡ ok cert
      → P.listen (listen_address P f) (server_config P cert) ≡ ok l
      → P.new_grove f.grove_path ≡ g
      → ((h : Grove) × (g ≡ ok h)) ⊎ ¬ ((h : Grove) × (g ≡ ok h))
      → AllOrNothing P f interrupted (IsSetUp P f) (main P f interrupted (new_process P))
  grove_decides f i cert l g ec el eg (inl (h, e)) = all_there f i cert l h ec el (eg ∙ e)
  grove_decides f i cert l g ec el eg (inr n) =
      no_grove f i (IsSetUp P f) (λ k. n (only_cert f cert (ok l) g ec el eg k).1) cert l g ec el eg
        n

  listener_decides :
      (f : Flags) (interrupted : Bool) (cert : Cert) (l : Result Listener)
      → P.load_key_pair f.cert_path f.key_path ≡ ok cert
      → P.listen (listen_address P f) (server_config P cert) ≡ l
      → ((k : Listener) × (l ≡ ok k)) ⊎ ¬ ((k : Listener) × (l ≡ ok k))
      → AllOrNothing P f interrupted (IsSetUp P f) (main P f interrupted (new_process P))
  listener_decides f i cert l ec el (inl (k, e)) =
      grove_decides f i cert k (P.new_grove f.grove_path) ec (el ∙ e) refl
        (is_ok (P.new_grove f.grove_path))
  listener_decides f i cert l ec el (inr n) =
      no_listener f i (IsSetUp P f)
        (λ k. n (only_cert f cert l (P.new_grove f.grove_path) ec el refl k).0) cert l ec el n

  -- main fails if the key pair cannot be loaded, or the address cannot be listened on, or the grove
  -- cannot be opened: then it has started nothing but servers for profiles and metrics, and `done` is
  -- open. Otherwise it starts everything P, in order, and among it a supervised worker for each
  -- address; also if the grove cannot be watched P, since the error of Watch is not looked at. It
  -- returns exactly if it is interrupted, and `done` is then closed and the store destroyed.
  pub main-all_or_nothing :
      (f : Flags) (interrupted : Bool)
      → AllOrNothing P f interrupted (IsSetUp P f) (main P f interrupted (new_process P))
  main-all_or_nothing f i = elim (is_ok (P.load_key_pair f.cert_path f.key_path)) [
    | inl (cert, e) ↦
        let l = P.listen (listen_address P f) (server_config P cert) in
        listener_decides f i cert l e refl (is_ok l)
    | inr n ↦
        no_cert f i (IsSetUp P f) (λ (l, (c, g, e, d, h)). n (c, e))
          (P.load_key_pair f.cert_path f.key_path) refl n
  ]
