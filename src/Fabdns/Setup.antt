-- ===== src/Fabdns/Setup.antt =====
-- `fabdnsParse` of pkg/fabdns/setup.go. The block of the configuration is the list of its properties
-- with their arguments, as caddy's controller hands them out.
pub mod Values
use fab_dns.Base.{
  ℕ, suc, String, Bool, true, false, List, [], ◌∷◌, ltb, ℤ, pos, negsuc, if◌then◌else◌, ◌==◌,
  Result, ok, err,
}
use fab_dns.Fabdns.Global.{ClusterInfo}
use fab_dns.Fabdns.Serve.{FabDns, plugin_name}

abbrev pub default_ttl : ℕ
default_ttl = 5

-- The cases of the switch.
pub data Property : Type 0 where
  fallthrough kubeconfig masterurl cluster zone region ttl : Property
  unknown : String → Property

pub property_of : String → Property
property_of val =
    if val == "fallthrough"
    then fallthrough
    else if val == "kubeconfig"
    then kubeconfig
    else if val == "masterurl"
    then masterurl
    else if val == "cluster"
    then cluster
    else if val == "zone"
    then zone
    else if val == "region"
    then region
    else if val == "ttl"
    then ttl
    else unknown val

pub data SetupError : Type 0 where
  arg_err : SetupError
  ttl_invalid : String → SetupError
  ttl_out_of_range : ℤ → SetupError
  unknown_property : String → SetupError
  no_client : String → SetupError

-- The variables of `fabdnsParse`.
pub record Config : Type 0 where
  pub ttl : ℤ
  pub fab_fall : List String
  pub masterurl : String
  pub kubeconfig : String
  pub cluster : String
  pub cluster_zone : String
  pub cluster_region : String

abbrev pub initial : Config
initial = record {
  ttl = negsuc 0;
  fab_fall = [];
  masterurl = "";
  kubeconfig = "";
  cluster = "";
  cluster_zone = "";
  cluster_region = "";
}

-- `OriginsFromArgsOrServerBlock`, `SetZonesFromArgs`, `strconv.Atoi`, and the making of a client from the master's URL and the
-- file.
pub record Env : Type 0 where
  pub origins_from_args_or_server_block : (args server_block_keys : List String) → List String
  pub zones_from_args : List String → List String
  pub atoi : String → Result String ℤ
  pub new_client : String → String → Result String (Unit {0})

-- A property of exactly one argument.
pub one_arg : List String → (String → Result SetupError Config) → Result SetupError Config
one_arg [] f = err arg_err
one_arg (arg ∷ []) f = f arg
one_arg (arg ∷ _ ∷ _) f = err arg_err

pub set_ttl : Config → Result String ℤ → Result SetupError Config
set_ttl c (err e) = err (ttl_invalid e)
set_ttl c (ok (negsuc n)) = err (ttl_out_of_range (negsuc n))
set_ttl c (ok (pos n)) =
    if ltb 3600 n then err (ttl_out_of_range (pos n)) else ok (record c { ttl = pos n })

module _ (env : Env) where
  -- The body of the loop.
  pub set_property : Property → List String → Config → Result SetupError Config
  unfolding one_arg set_ttl
  set_property fallthrough args c = ok (record c { fab_fall = env.zones_from_args args })
  set_property kubeconfig args c = one_arg args (λ arg. ok (record c { kubeconfig = arg }))
  set_property masterurl args c = one_arg args (λ arg. ok (record c { masterurl = arg }))
  set_property cluster args c = one_arg args (λ arg. ok (record c { cluster = arg }))
  set_property zone args c = one_arg args (λ arg. ok (record c { cluster_zone = arg }))
  set_property region args c = one_arg args (λ arg. ok (record c { cluster_region = arg }))
  set_property ttl args c = one_arg args (λ arg. set_ttl c (env.atoi arg))
  set_property (unknown val) args c = err (unknown_property val)

  pub parse_block : List (String × List String) → Config → Result SetupError Config
  unfolding set_property property_of
  parse_block [] c = ok c
  parse_block ((val, args) ∷ block) c = elim (set_property (property_of val) args c) [
    | err e ↦ err e
    | ok c' ↦ parse_block block c'
  ]

  abbrev pub ttl_or_default : ℤ → ℕ
  ttl_or_default (pos n) = n
  ttl_or_default (negsuc n) = default_ttl

  abbrev with_client : Result String (Unit {0}) → FabDns → Result SetupError FabDns
  with_client (err e) f = err (no_client e)
  with_client (ok _) f = ok f

  pub finish : List String → Result SetupError Config → Result SetupError FabDns
  finish zones (err e) = err e
  finish zones (ok c) = with_client (env.new_client c.masterurl c.kubeconfig) (record {
    zones = zones;
    fall = c.fab_fall;
    ttl = ttl_or_default c.ttl;
    cluster = record { name = c.cluster; zone = c.cluster_zone; region = c.cluster_region };
  })

  -- `args` stand behind the name of the plugin, and `server_block_keys` are the controller's
  -- `ServerBlockKeys`.
  unfoldable pub fabdns_parse :
      (args server_block_keys : List String)
      → List (String × List String)
      → Result SetupError FabDns
  unfolding parse_block finish
  fabdns_parse args server_block_keys block =
      finish (env.origins_from_args_or_server_block args server_block_keys)
        (parse_block block initial)

  -- `setup`: the error of the plugin's name, or what makes the handler of the next one. A handler is a
  -- plugin with the one that is asked after it.
  setup :
      {E H : Type 0}
      → (String → SetupError → E)
      → (FabDns → H → H)
      → (args server_block_keys : List String) → List (String × List String)
      → Result E (H → H)
  setup plugin_error handler args server_block_keys block =
      elim (fabdns_parse args server_block_keys block) [
        | err e ↦ err (plugin_error plugin_name e)
        | ok fabdns ↦ ok (λ next. handler fabdns next)
      ]
