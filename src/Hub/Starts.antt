-- ===== src/Hub/Starts.antt =====
-- The start of a hub with a name of two labels.
use fab_dns.Hub.Client
use fab_dns.Hub.Client.{heartbeat}
use fab_dns.Base.{Bool, true, false, [], err, ok, none, pos, is_zero, ◌≡◌, refl, ◌↔◌}
use fab_dns.Regexp.{codes, match_whole}
use fab_dns.Hub.Options.{
  Options, file_info, done, failed, first_heartbeat, panic, validate, dns1123_reg,
}
use fab_dns.Hub.Process.{default_about, exits, crashes, main}
use fab_dns.Hub.Startup.{Env, complete, execute}
use fab_dns.Hub.Options.Names.{IsDnsName, dns1123_reg_iff}
use fab_dns.Hub.Options.Validation.{IsValid, validate_iff}
use fab_dns.Hub.Startup.Wiring.{hub_of, complete-hub_of}
use fab_dns.Hub.Startup.Tickers.{execute-interval_of}

-- Clusters that expire at once.
abbrev opts : Options
opts = record {
  cluster = "bj-1.cn";
  zone = "z 1";
  region = "north";
  mode = "server";
  health_probe_listen_address = "0.0.0.0:3001";
  api_server_listen_address = "0.0.0.0:3000";
  api_server_address = "";
  tls_key_file = "key";
  tls_cert_file = "cert";
  tls_ca_cert_file = "ca";
  cluster_expire_time = pos 0;
  service_import_interval = pos 60;
  request_timeout = pos 5;
  allow_create_namespace = true;
}

abbrev env : Env
env = record {
  stat = λ file. file_info false;
  get_config = none;
  new_manager = λ address. none;
  load_key_pair = λ cert key. none;
  read_file = λ file. none;
  parse_url = λ url. none;
  add = λ task. none;
  start = none;
  stopped = none;
  client = λ address cluster. record {
    cluster_name = cluster;
    join = λ path. path;
    new_request = λ request. none;
    send = λ request w. (err "no connection", w);
    marshal = λ gs. ok "{}";
    unmarshal = λ text. ok [];
  };
}

dns1123_reg_iff_example : (match_whole dns1123_reg "bj-1.cn" ≡ true) ↔ IsDnsName (codes "bj-1.cn")
dns1123_reg_iff_example = dns1123_reg_iff "bj-1.cn"

no_dns_name : match_whole dns1123_reg "bj-.cn" ≡ false
unfolding match_whole
no_dns_name = refl

validate_iff_example : (validate env.stat opts ≡ done tt) ↔ IsValid env.stat opts
validate_iff_example = validate_iff env.stat opts

validates : validate env.stat opts ≡ done tt
unfolding validate
validates = refl

completes : complete env opts ≡ done (hub_of opts)
unfolding complete
completes = refl

-- A client whose first heartbeat is answered.
abbrev client_opts : Options
client_opts = record opts { mode = "client" }

abbrev up : Env
up = record env {
  client = λ address cluster. record (env.client address cluster) {
    send = λ request w. (ok (record { status_code = 204; content = ""; read_error = none }), w);
  };
}

client_completes : complete up client_opts ≡ done (hub_of client_opts)
unfolding complete heartbeat
client_completes = refl

no_connection : complete env client_opts ≡ failed (first_heartbeat (Client.failed "no connection"))
unfolding complete heartbeat
no_connection = refl

complete-hub_of_example :
    (hub_of client_opts ≡ hub_of client_opts)
    × ((◌≡◌ {A = Bool} false false)
        → ((heartbeat (up.client "" "bj-1.cn") tt).0 ≡ none)
          × (is_zero (pos 60) ≡ false)
          × (is_zero (pos 5) ≡ false))
complete-hub_of_example = complete-hub_of client_opts up (hub_of client_opts) client_completes

execute-interval_of_example : execute env opts ≡ panic
execute-interval_of_example = execute-interval_of env opts (hub_of opts) validates completes

shows_version :
    main env default_about true opts
    ≡ exits 0 "Version: 0.0.0\nBuildTime: 1970-01-01T00:00:00Z\nGitCommit: 00000000\n"
unfolding main
shows_version = refl

crashes_on_interval : main env default_about false opts ≡ crashes
unfolding main
crashes_on_interval = rw (execute-interval_of env opts (hub_of opts) validates completes) refl
