-- ===== src/Hub/Startup/Wiring.antt =====
-- What a start-up sets up, and when it panics.
use fab_dns.Base.{
  Bool, true, false, List, [], ◌∷◌, ◌++◌, none, ◌≡◌, refl, arith, inl, inr, is_zero, if◌then◌else◌,
  ◌==◌, Bool-cases,
}
use fab_dns.Base.Equality.{string_eq}
use fab_dns.Hub.Client.{heartbeat}
use fab_dns.Hub.Options.{
  Options, StartError, Outcome, done, failed, panic, ◌>>=◌, ◌>>◌, require, mode_server,
}
use fab_dns.Hub.Startup.{
  Env, Hub, Runnable, api_server, cluster_cleaner, service_importer, service_exporter,
  lost_service_revoker, Exchange, by_manager, by_client, init_manager,
  get_key_pair_and_ca_cert_pool, init_api_server, init_client, add_importer, add_server,
  add_exporter, init_manager_runnables, complete,
}

>>=-done :
    {A B : Type 0} (m : Outcome A) (f : A → Outcome B) (b : B)
    → (m >>= f) ≡ done b
    → (a : A) × (m ≡ done a) × (f a ≡ done b)
>>=-done (done a) f b h = (a, refl, h)
>>=-done (failed e) f b h = cc
>>=-done panic f b h = cc

require_ok : (b : Bool) (e : StartError) (u : Unit {0}) → require b e ≡ done u → b ≡ true
require_ok true e u h = refl
require_ok false e u h = cc

-- The hub of an exchange and runnables.
abbrev made : Outcome Exchange → Outcome (List Runnable) → Outcome Hub
made m n = m >>= λ e. n >>= λ l. done (record { exchange = e; runnables = l })

made_done :
    (m : Outcome Exchange) (n : Outcome (List Runnable)) (hub : Hub)
    → made m n ≡ done hub
    → (m ≡ done hub.exchange) × (n ≡ done hub.runnables)
made_done (done e) (done l) hub h =
    let same : record { exchange = e; runnables = l } ≡ hub = cc in rw (← same) (refl, refl)
made_done (done e) (failed a) hub h = cc
made_done (done e) panic hub h = cc
made_done (failed a) n hub h = cc
made_done panic n hub h = cc

after_done :
    {A : Type 0} (m : Outcome (Unit {0})) (k : Outcome A) (a : A) → (m >> k) ≡ done a → k ≡ done a
after_done (done u) k a h = h
after_done (failed e) k a h = cc
after_done panic k a h = cc

Hub_ext :
    (hub hub' : Hub) → hub.exchange ≡ hub'.exchange → hub.runnables ≡ hub'.runnables → hub ≡ hub'
Hub_ext hub hub' p q = ground arith

module _ (opts : Options) where
  -- The runnables of a hub in server mode, and of one in client mode.
  abbrev pub of_server : List Runnable
  of_server =
      api_server opts.api_server_listen_address opts.cluster_expire_time
      ∷ cluster_cleaner opts.cluster_expire_time
      ∷ []

  abbrev pub of_client : List Runnable
  of_client = service_importer opts.service_import_interval opts.allow_create_namespace ∷ []

  abbrev pub of_both : List Runnable
  of_both =
      service_exporter opts.cluster opts.zone opts.region
      ∷ lost_service_revoker opts.cluster opts.zone opts.region
      ∷ []

  -- The hub that the options describe.
  abbrev pub hub_of : Hub
  hub_of =
      if opts.mode == mode_server
      then record {
        exchange = by_manager opts.allow_create_namespace;
        runnables = of_server ++ of_both;
      }
      else record {
        exchange = by_client opts.api_server_address opts.cluster;
        runnables = of_client ++ of_both;
      }

  module _ (env : Env) where
    add_server_done : (l : List Runnable) → add_server env opts ≡ done l → l ≡ of_server
    unfolding add_server
    add_server_done l h = ground arith

    add_importer_done :
        (l : List Runnable)
        → add_importer env opts ≡ done l
        → (l ≡ of_client)
          × (is_zero opts.service_import_interval ≡ false)
          × (is_zero opts.request_timeout ≡ false)
    unfolding add_importer
    add_importer_done l h = (ground arith, ground arith, ground arith)

    add_exporter_done : (l : List Runnable) → add_exporter env opts ≡ done l → l ≡ of_both
    unfolding add_exporter
    add_exporter_done l h = ground arith

    runnables_done :
        (l : List Runnable)
        → init_manager_runnables env opts ≡ done l
        → l ≡ (if opts.mode == mode_server then of_server else of_client) ++ of_both
    unfolding init_manager_runnables
    runnables_done l h = elim (Bool-cases (opts.mode == mode_server)) [
      | inl t ↦ rw t (
          appended (add_server env opts) (add_exporter env opts) of_server of_both l add_server_done
            add_exporter_done (rw t at h))
      | inr t ↦ rw t (
          appended (add_importer env opts) (add_exporter env opts) of_client of_both l
            (λ k e. (add_importer_done k e).0) add_exporter_done (rw t at h))
    ]
      where
        appended :
            (m n : Outcome (List Runnable)) (x y l : List Runnable)
            → ((k : List Runnable) → m ≡ done k → k ≡ x)
            → ((k : List Runnable) → n ≡ done k → k ≡ y)
            → (m >>= λ first. n >>= λ second. done (first ++ second)) ≡ done l
            → l ≡ x ++ y
        appended (done u) (done v) x y l is_x is_y e =
            let same : u ++ v ≡ l = cc in rw (← same, is_x u refl, is_y v refl) refl
        appended (done u) (failed a) x y l is_x is_y e = cc
        appended (done u) panic x y l is_x is_y e = cc
        appended (failed a) n x y l is_x is_y e = cc
        appended panic n x y l is_x is_y e = cc

    init_api_server_done :
        (e : Exchange)
        → init_api_server env opts ≡ done e
        → e ≡ by_manager opts.allow_create_namespace
    unfolding init_api_server get_key_pair_and_ca_cert_pool
    init_api_server_done e h = ground arith

    init_client_done :
        (e : Exchange)
        → init_client env opts ≡ done e
        → (e ≡ by_client opts.api_server_address opts.cluster)
          × ((heartbeat (env.client opts.api_server_address opts.cluster) tt).0 ≡ none)
    unfolding init_client get_key_pair_and_ca_cert_pool
    init_client_done e h = (ground arith, ground arith)

    importer_done :
        (l : List Runnable)
        → (opts.mode == mode_server) ≡ false
        → init_manager_runnables env opts ≡ done l
        → (is_zero opts.service_import_interval ≡ false) × (is_zero opts.request_timeout ≡ false)
    unfolding init_manager_runnables
    importer_done l t h =
        let (k, added, _) =
          >>=-done (add_importer env opts)
            (λ first. add_exporter env opts >>= λ second. done (first ++ second)) l (rw t at h) in
        let (_, interval, timeout) = add_importer_done k added in (interval, timeout)

    -- If `Complete` returns no error, the hub that is set up is the one that the mode asks for: in
    -- server mode it exports through its own manager of services and runs the API server and the
    -- cleaner; in client mode its first heartbeat has been answered without an error, it exports
    -- through the client and runs the importer, whose interval and timeout are not zero; and in both it
    -- runs the exporter and the lost service revoker.
    pub complete-hub_of :
        (hub : Hub)
        → complete env opts ≡ done hub
        → (hub ≡ hub_of)
          × ((opts.mode == mode_server) ≡ false
              → ((heartbeat (env.client opts.api_server_address opts.cluster) tt).0 ≡ none)
                × (is_zero opts.service_import_interval ≡ false)
                × (is_zero opts.request_timeout ≡ false))
    unfolding complete
    complete-hub_of hub h =
        let exchange =
          if opts.mode == mode_server then init_api_server env opts else init_client env opts in
        let (e, l) = made_done exchange (init_manager_runnables env opts) hub (
          after_done (init_manager env opts) (made exchange (init_manager_runnables env opts)) hub
            h) in
        let runs = runnables_done hub.runnables l in
        elim (Bool-cases (opts.mode == mode_server)) [
          | inl t ↦
              let from : init_api_server env opts ≡ done hub.exchange = rw t at e in
              rw t (
                Hub_ext hub _ (init_api_server_done hub.exchange from) (rw t at runs),
                λ (f : true ≡ false). cc,
              )
          | inr t ↦
              let from : init_client env opts ≡ done hub.exchange = rw t at e in
              let (by, answered) = init_client_done hub.exchange from in
              let (interval, timeout) = importer_done hub.runnables t l in
              rw t (Hub_ext hub _ by (rw t at runs), λ _. (answered, interval, timeout))
        ]
