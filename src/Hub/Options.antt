-- ===== src/Hub/Options.antt =====
-- pkg/service-hub/options.go: the options of the hub and their validation. A step of the start-up has
-- one of three outcomes.
pub mod Names
pub mod Validation
use fab_dns.Base.{
  ℕ, ◌*◌, String, Bool, true, false, not, ◌&&◌, ◌||◌, List, [], ◌∷◌, ◌++◌, Option, none, some, ℤ,
  pos, is_zero, is_positive, if◌then◌else◌, ◌==◌, Result, ok, err,
}
use fab_dns.Base.Equality.{string_eq}
use fab_dns.Hub.Client
use fab_dns.Hub.Client.{ClientError, heartbeat}
use fab_dns.Regexp.{Regex, class, seq, star, opt, plus, Ranges, match_whole, match_part}

abbrev pub mode_server : String
mode_server = "server"

abbrev pub mode_client : String
mode_client = "client"

-- `[a-z0-9]`, `[-a-z0-9]` and `[a-zA-Z0-9]`
abbrev pub lower_alnum : Ranges
lower_alnum = (b'a', b'z') ∷ (b'0', b'9') ∷ []

abbrev pub lower_alnum_dash : Ranges
lower_alnum_dash = (b'-', b'-') ∷ (b'a', b'z') ∷ (b'0', b'9') ∷ []

abbrev pub alnum : Ranges
alnum = (b'a', b'z') ∷ (b'A', b'Z') ∷ (b'0', b'9') ∷ []

-- `[a-z0-9]([-a-z0-9]*[a-z0-9])?`
abbrev pub label_reg : Regex
label_reg = seq (class lower_alnum) (opt (seq (star (class lower_alnum_dash)) (class lower_alnum)))

-- `\.` and a label
abbrev pub dotted_reg : Regex
dotted_reg = seq (class ((b'.', b'.') ∷ [])) label_reg

-- `dns1123Reg`, without its two anchors, and `zoneNameReg`, which has none.
abbrev pub dns1123_reg : Regex
dns1123_reg = seq label_reg (star dotted_reg)

abbrev pub zone_name_reg : Regex
zone_name_reg = plus (class alnum)

-- What `os.Stat` returns.
pub data Stat : Type 0 where
  not_exist : Stat
  unreadable : String → Stat
  file_info : (is_dir : Bool) → Stat

-- The options; durations are in nanoseconds.
pub record Options : Type 0 where
  pub cluster : String
  pub zone : String
  pub region : String
  pub mode : String
  pub health_probe_listen_address : String
  pub api_server_listen_address : String
  pub api_server_address : String
  pub tls_key_file : String
  pub tls_cert_file : String
  pub tls_ca_cert_file : String
  pub cluster_expire_time : ℤ
  pub service_import_interval : ℤ
  pub request_timeout : ℤ
  pub allow_create_namespace : Bool

abbrev second : ℕ
second = 1000000000

-- The defaults of `AddFlags`.
pub default_options : Options
default_options = record {
  cluster = "";
  zone = "default";
  region = "default";
  mode = "server";
  health_probe_listen_address = "0.0.0.0:3001";
  api_server_listen_address = "0.0.0.0:3000";
  api_server_address = "";
  tls_key_file = "";
  tls_cert_file = "";
  tls_ca_cert_file = "";
  cluster_expire_time = pos (5 * 60 * second);
  service_import_interval = pos (60 * second);
  request_timeout = pos (5 * second);
  allow_create_namespace = true;
}

-- The errors that `Execute` returns.
pub data StartError : Type 0 where
  invalid_cluster_name invalid_zone_name invalid_region_name : String → StartError
  unsupported_mode no_tls_key_file no_tls_cert_file no_tls_ca_cert_file : StartError
  library : String → StartError
  first_heartbeat : ClientError → StartError
  interval_too_small request_timeout_too_small : StartError

-- A step of the start-up: its value, its error, or the panic of a nil pointer that is followed.
pub data Outcome (A : Type 0) : Type 0 where
  done : A → Outcome A
  failed : StartError → Outcome A
  panic : Outcome A

infixl 5 ◌>>=◌ ◌>>◌
abbrev pub ◌>>=◌ : {A B : Type 0} → Outcome A → (A → Outcome B) → Outcome B
done a >>= f = f a
failed e >>= f = failed e
panic >>= f = panic

abbrev pub ◌>>◌ : {B : Type 0} → Outcome (Unit {0}) → Outcome B → Outcome B
m >> k = m >>= λ _. k

-- `if !test { return error }`
abbrev pub require : Bool → StartError → Outcome (Unit {0})
require true e = done tt
require false e = failed e

-- A call of a library that returns an error or nil.
abbrev pub checked : Option String → Outcome (Unit {0})
checked none = done tt
checked (some e) = failed (library e)

-- The first call of the client.
abbrev pub reached : Option ClientError → Outcome (Unit {0})
reached none = done tt
reached (some e) = failed (first_heartbeat e)

unfoldable pub file_exists : Stat → Outcome Bool
file_exists not_exist = done false
file_exists (unreadable e) = panic
file_exists (file_info is_dir) = done (not is_dir)

unfoldable pub validate : (String → Stat) → Options → Outcome (Unit {0})
unfolding file_exists match_whole match_part
validate stat opts = do
  require (match_whole dns1123_reg opts.cluster) (invalid_cluster_name opts.cluster)
  require (match_part zone_name_reg opts.zone) (invalid_zone_name opts.zone)
  require (opts.mode == mode_server || opts.mode == mode_client) unsupported_mode
  require (match_part zone_name_reg opts.region) (invalid_region_name opts.region)
  key ← file_exists (stat opts.tls_key_file)
  require key no_tls_key_file
  cert ← file_exists (stat opts.tls_cert_file)
  require cert no_tls_cert_file
  ca_cert ← file_exists (stat opts.tls_ca_cert_file)
  require ca_cert no_tls_ca_cert_file
  done tt
