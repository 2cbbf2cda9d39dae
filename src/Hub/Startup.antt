-- ===== src/Hub/Startup.antt =====
-- pkg/service-hub/options.go and cmd.go: what the start-up of the hub sets up, with the functions
-- `AddToManager` and `Start` of its parts. What is set up is a value.
pub mod Wiring
pub mod Tickers
use fab_dns.Base.{
  ℕ, String, Bool, true, false, not, List, [], ◌∷◌, ◌++◌, Option, none, some, ℤ, is_zero,
  is_positive, if◌then◌else◌, ◌==◌, ok, err, Result,
}
use fab_dns.Base.Equality.{string_eq}
use fab_dns.Hub.Client
use fab_dns.Hub.Client.{ClientError, heartbeat}
use fab_dns.Hub.Options.{
  Options, Stat, StartError, Outcome, done, failed, panic, ◌>>=◌, ◌>>◌, require, checked, reached,
  mode_server, interval_too_small, request_timeout_too_small, validate,
}

-- What the manager runs.
pub data Runnable : Type 0 where
  api_server : (address : String) (expire_time : ℤ) → Runnable
  cluster_cleaner : (interval : ℤ) → Runnable
  service_importer : (interval : ℤ) (allow_create_namespace : Bool) → Runnable
  service_exporter lost_service_revoker : (cluster zone region : String) → Runnable

-- How services are exported and revoked: by the hub's own manager of services, or through its client.
pub data Exchange : Type 0 where
  by_manager : (allow_create_namespace : Bool) → Exchange
  by_client : (api_server_address cluster : String) → Exchange

pub record Hub : Type 0 where
  pub exchange : Exchange
  pub runnables : List Runnable

-- The errors of the libraries: of `GetConfig`, `NewManager`, `LoadX509KeyPair`, `ReadFile`, `url.Parse`,
-- the manager's `Add` and controllers, the manager's `Start` before it starts what it runs, and the one
-- with which the manager stops in the end. `client` is what the client of an address and a cluster
-- meets at its first request.
pub record Env : Type 0 where
  pub stat : String → Stat
  pub get_config : Option String
  pub new_manager : (health_probe_listen_address : String) → Option String
  pub load_key_pair : (cert_file key_file : String) → Option String
  pub read_file : String → Option String
  pub parse_url : String → Option String
  pub add : Runnable → Option String
  pub start : Option String
  pub stopped : Option String
  pub client : (api_server_address cluster : String) → Client.Env (Unit {0})

-- A manager that could not be made is nil.
manager_made : Option String → Outcome (Unit {0})
manager_made none = done tt
manager_made (some e) = panic

module _ (env : Env) (opts : Options) where
  pub init_manager : Outcome (Unit {0})
  unfolding manager_made
  init_manager = do
    checked env.get_config
    manager_made (env.new_manager opts.health_probe_listen_address)

  pub get_key_pair_and_ca_cert_pool : Outcome (Unit {0})
  get_key_pair_and_ca_cert_pool = do
    checked (env.load_key_pair opts.tls_cert_file opts.tls_key_file)
    checked (env.read_file opts.tls_ca_cert_file)

  pub init_api_server : Outcome Exchange
  unfolding get_key_pair_and_ca_cert_pool
  init_api_server = do get_key_pair_and_ca_cert_pool; done (by_manager opts.allow_create_namespace)

  pub init_client : Outcome Exchange
  unfolding get_key_pair_and_ca_cert_pool
  init_client = do
    get_key_pair_and_ca_cert_pool
    checked (env.parse_url opts.api_server_address)
    reached (heartbeat (env.client opts.api_server_address opts.cluster) tt).0
    done (by_client opts.api_server_address opts.cluster)

  -- `AddToManager` of the importer
  pub add_importer : Outcome (List Runnable)
  add_importer =
      let task = service_importer opts.service_import_interval opts.allow_create_namespace in
      do
        require (not (is_zero opts.service_import_interval)) interval_too_small
        require (not (is_zero opts.request_timeout)) request_timeout_too_small
        checked (env.add task)
        done (task ∷ [])

  pub add_server : Outcome (List Runnable)
  add_server =
      let server = api_server opts.api_server_listen_address opts.cluster_expire_time in
      let cleaner = cluster_cleaner opts.cluster_expire_time in
      do checked (env.add server); checked (env.add cleaner); done (server ∷ cleaner ∷ [])

  -- `AddToManager` of the exporter
  pub add_exporter : Outcome (List Runnable)
  add_exporter =
      let exporter = service_exporter opts.cluster opts.zone opts.region in
      let revoker = lost_service_revoker opts.cluster opts.zone opts.region in
      do checked (env.add exporter); checked (env.add revoker); done (exporter ∷ revoker ∷ [])

  pub init_manager_runnables : Outcome (List Runnable)
  unfolding add_importer add_server add_exporter
  init_manager_runnables = do
    first ← if opts.mode == mode_server then add_server else add_importer
    second ← add_exporter
    done (first ++ second)

  unfoldable pub complete : Outcome Hub
  unfolding init_manager init_api_server init_client init_manager_runnables
  complete = do
    init_manager
    exchange ← if opts.mode == mode_server then init_api_server else init_client
    runnables ← init_manager_runnables
    done (record { exchange = exchange; runnables = runnables })

-- `time.NewTicker` panics unless the interval is positive.
abbrev ticker : ℤ → Outcome (Unit {0})
ticker interval = if is_positive interval then done tt else panic

-- What the loops of the importer and the cleaner wait for.
pub data Event : Type 0 where
  tick cancelled : Event

-- The loop, up to the end of the events.
pub loop : {S : Type 0} → (S → S) → List Event → S → S
loop task [] s = s
loop task (tick ∷ events) s = loop task events (task s)
loop task (cancelled ∷ events) s = s

-- `Start` of the cleaner with what a tick does, and that of the importer, which does it at once.
pub start_cleaner : {S : Type 0} → ℤ → (S → S) → List Event → S → Outcome S
unfolding loop
start_cleaner interval task events s = do ticker interval; done (loop task events s)

pub start_importer : {S : Type 0} → ℤ → (S → S) → List Event → S → Outcome S
unfolding loop
start_importer interval task events s = do ticker interval; done (loop task events (task s))

-- What `runAPIServer` waits for: `ListenAndServeTLS` has ended with an error, or since the server was
-- closed, or the context is cancelled. It returns an error in the first case and in the last one.
pub data ServerEvent : Type 0 where
  listen_failed context_done : String → ServerEvent
  server_closed : ServerEvent

pub run_api_server : List ServerEvent → Option String
run_api_server [] = none
run_api_server (listen_failed e ∷ events) = some e
run_api_server (context_done e ∷ events) = some e
run_api_server (server_closed ∷ events) = run_api_server events

-- What starting a runnable does at once.
pub start_runnable : Runnable → Outcome (Unit {0})
start_runnable (cluster_cleaner interval) = ticker interval
start_runnable (service_importer interval allow_create_namespace) = ticker interval
start_runnable (api_server address expire_time) = done tt
start_runnable (service_exporter cluster zone region) = done tt
start_runnable (lost_service_revoker cluster zone region) = done tt

pub start_all : List Runnable → Outcome (Unit {0})
unfolding start_runnable
start_all [] = done tt
start_all (task ∷ tasks) = do start_runnable task; start_all tasks

-- `Run`, which returns when the manager has stopped. What it starts beside the manager in server mode
-- is `record_global_services_by_cluster` of Hub/Recording.antt.
pub run : Env → Hub → Outcome (Unit {0})
unfolding start_all
run env hub = do checked env.start; start_all hub.runnables; checked env.stopped

-- `Execute`, once the flags are parsed.
unfoldable pub execute : Env → Options → Outcome (Unit {0})
unfolding validate complete run
execute env opts = do validate env.stat opts; hub ← complete env opts; run env hub
