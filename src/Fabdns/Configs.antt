-- ===== src/Fabdns/Configs.antt =====
-- The set-up of the plugin from a block that names the zone twice.
use fab_dns.Base.{pos, String, List, [], ◌∷◌, ◌≡◌, refl, ok}
use fab_dns.Fabdns.Serve.{FabDns}
use fab_dns.Fabdns.Setup.{Env, fabdns_parse}
use fab_dns.Fabdns.Setup.Values.{HasValues, fabdns_parse-HasValues}

-- The arguments, if there are any.
abbrev origins : (args server_block_keys : List String) → List String
origins [] server_block_keys = server_block_keys
origins (arg ∷ args) server_block_keys = arg ∷ args

-- Every number is 30.
abbrev env : Env
env = record {
  origins_from_args_or_server_block = origins;
  zones_from_args = λ args. args;
  atoi = λ text. ok (pos 30);
  new_client = λ url file. ok tt;
}

abbrev block : List (String × List String)
block =
    ("cluster", "beijing" ∷ [])
    ∷ ("zone", "z0" ∷ [])
    ∷ ("ttl", "30" ∷ [])
    ∷ ("zone", "z1" ∷ [])
    ∷ []

abbrev f : FabDns
f = record {
  zones = "global." ∷ [];
  fall = [];
  ttl = 30;
  cluster = record { name = "beijing"; zone = "z1"; region = "" };
}

accepts : fabdns_parse env ("global." ∷ []) (".:53" ∷ []) block ≡ ok f
unfolding fabdns_parse
accepts = refl

fabdns_parse-HasValues_example : HasValues env ("global." ∷ []) block f
fabdns_parse-HasValues_example =
    fabdns_parse-HasValues env ("global." ∷ []) (".:53" ∷ []) block f accepts
