-- ===== src/Fabdns/Setup/Values.antt =====
-- The values that a configuration block gives to the plugin.
use fab_dns.Base.{
  ℤ, pos, negsuc, String, Bool, true, false, List, [], ◌∷◌, ltb, ◌≡◌, refl, ◌∙◌, ap, if◌then◌else◌,
  Result, ok, err, Bool-cases, inl, inr,
}
use fab_dns.Fabdns.Serve.{FabDns}
use fab_dns.Fabdns.Setup.{
  Property, fallthrough, kubeconfig, masterurl, cluster, zone, region, ttl, unknown, property_of,
  SetupError, ttl_out_of_range, ttl_or_default, Config, initial, Env, one_arg, set_ttl,
  set_property, parse_block, with_client, finish, fabdns_parse,
}

abbrev pub is_cluster : Property → Bool
is_cluster cluster = true
is_cluster _ = false

abbrev pub is_zone : Property → Bool
is_zone zone = true
is_zone _ = false

abbrev pub is_region : Property → Bool
is_region region = true
is_region _ = false

abbrev head_or : String → List String → String
head_or d [] = d
head_or d (arg ∷ args) = arg

-- The argument of the last property of a kind, or a default.
abbrev pub last_of : (Property → Bool) → String → List (String × List String) → String
last_of p d [] = d
last_of p d ((val, args) ∷ block) =
    last_of p (if p (property_of val) then head_or d args else d) block

-- A TTL that was given is in range.
abbrev IsTtl : ℤ → Type 0
IsTtl (pos n) = ltb 3600 n ≡ false
IsTtl (negsuc n) = Unit

-- What a property makes of the variables that are kept.
record IsSetBy (prop : Property) (args : List String) (c c' : Config) : Type 0 where
  cluster_is : c'.cluster ≡ (if is_cluster prop then head_or c.cluster args else c.cluster)
  zone_is : c'.cluster_zone ≡ (if is_zone prop then head_or c.cluster_zone args else c.cluster_zone)
  region_is :
      c'.cluster_region
      ≡ (if is_region prop then head_or c.cluster_region args else c.cluster_region)
  ttl_is : IsTtl c.ttl → IsTtl c'.ttl

set_ttl-IsSetBy :
    (args : List String) (c c' : Config) (r : Result String ℤ)
    → set_ttl c r ≡ ok c'
    → IsSetBy ttl args c c'
unfolding set_ttl
set_ttl-IsSetBy args c c' (err e) h = cc
set_ttl-IsSetBy args c c' (ok (negsuc n)) h = cc
set_ttl-IsSetBy args c c' (ok (pos n)) h = elim (Bool-cases (ltb 3600 n)) [
  | inl t ↦
      let k : ◌≡◌ {A = Result SetupError Config} (err (ttl_out_of_range (pos n))) (ok c') =
        rw t at h in
      cc
  | inr t ↦
      let k : ◌≡◌ {A = Result SetupError Config} (ok (record c { ttl = pos n })) (ok c') =
        rw t at h in
      let same : record c { ttl = pos n } ≡ c' = cc in
      rw (← same) (record { cluster_is = refl; zone_is = refl; region_is = refl; ttl_is = λ i. t })
]

module _ (env : Env) where
  set_property-IsSetBy :
      (prop : Property) (args : List String) (c c' : Config)
      → set_property env prop args c ≡ ok c'
      → IsSetBy prop args c c'
  unfolding set_property one_arg
  set_property-IsSetBy fallthrough args c c' h =
      let same : record c { fab_fall = env.zones_from_args args } ≡ c' = cc in
      rw (← same) (record { cluster_is = refl; zone_is = refl; region_is = refl; ttl_is = λ i. i })
  set_property-IsSetBy (unknown val) args c c' h = cc
  set_property-IsSetBy kubeconfig (arg ∷ []) c c' h =
      let same : record c { kubeconfig = arg } ≡ c' = cc in
      rw (← same) (record { cluster_is = refl; zone_is = refl; region_is = refl; ttl_is = λ i. i })
  set_property-IsSetBy kubeconfig [] c c' h = cc
  set_property-IsSetBy kubeconfig (arg ∷ _ ∷ _) c c' h = cc
  set_property-IsSetBy masterurl (arg ∷ []) c c' h =
      let same : record c { masterurl = arg } ≡ c' = cc in
      rw (← same) (record { cluster_is = refl; zone_is = refl; region_is = refl; ttl_is = λ i. i })
  set_property-IsSetBy masterurl [] c c' h = cc
  set_property-IsSetBy masterurl (arg ∷ _ ∷ _) c c' h = cc
  set_property-IsSetBy cluster (arg ∷ []) c c' h =
      let same : record c { cluster = arg } ≡ c' = cc in
      rw (← same) (record { cluster_is = refl; zone_is = refl; region_is = refl; ttl_is = λ i. i })
  set_property-IsSetBy cluster [] c c' h = cc
  set_property-IsSetBy cluster (arg ∷ _ ∷ _) c c' h = cc
  set_property-IsSetBy zone (arg ∷ []) c c' h =
      let same : record c { cluster_zone = arg } ≡ c' = cc in
      rw (← same) (record { cluster_is = refl; zone_is = refl; region_is = refl; ttl_is = λ i. i })
  set_property-IsSetBy zone [] c c' h = cc
  set_property-IsSetBy zone (arg ∷ _ ∷ _) c c' h = cc
  set_property-IsSetBy region (arg ∷ []) c c' h =
      let same : record c { cluster_region = arg } ≡ c' = cc in
      rw (← same) (record { cluster_is = refl; zone_is = refl; region_is = refl; ttl_is = λ i. i })
  set_property-IsSetBy region [] c c' h = cc
  set_property-IsSetBy region (arg ∷ _ ∷ _) c c' h = cc
  set_property-IsSetBy ttl (arg ∷ []) c c' h = set_ttl-IsSetBy (arg ∷ []) c c' (env.atoi arg) h
  set_property-IsSetBy ttl [] c c' h = cc
  set_property-IsSetBy ttl (arg ∷ _ ∷ _) c c' h = cc

  -- What a block makes of the variables that are kept.
  abbrev IsParsed : List (String × List String) → Config → Config → Type 0
  IsParsed block c c' =
      (c'.cluster ≡ last_of is_cluster c.cluster block)
      × (c'.cluster_zone ≡ last_of is_zone c.cluster_zone block)
      × (c'.cluster_region ≡ last_of is_region c.cluster_region block)
      × (IsTtl c.ttl → IsTtl c'.ttl)

  parse_block-IsParsed :
      (block : List (String × List String)) (c c' : Config)
      → parse_block env block c ≡ ok c'
      → IsParsed block c c'
  unfolding parse_block
  parse_block-IsParsed [] c c' h = let same : c ≡ c' = cc in rw (← same) (refl, refl, refl, λ i. i)
  parse_block-IsParsed ((val, args) ∷ block) c c' h =
      go (set_property env (property_of val) args c) refl h (λ d. parse_block-IsParsed block d c')
    where
      go :
          (r : Result SetupError Config)
          → set_property env (property_of val) args c ≡ r
          → ◌≡◌ {A = Result SetupError Config}
              (elim r [ err e ↦ err e | ok d ↦ parse_block env block d ])
              (ok c')
          → ((d : Config) → parse_block env block d ≡ ok c' → IsParsed block d c')
          → IsParsed ((val, args) ∷ block) c c'
      go (err e) was k ih = cc
      go (ok d) was k ih =
          let set = set_property-IsSetBy (property_of val) args c d was in
          let (cl, zo, re, tt_) = ih d k in
          (
            cl ∙ ap (λ (x : String). last_of is_cluster x block) set.cluster_is,
            zo ∙ ap (λ (x : String). last_of is_zone x block) set.zone_is,
            re ∙ ap (λ (x : String). last_of is_region x block) set.region_is,
            λ i. tt_ (set.ttl_is i),
          )

  -- What the plugin is given.
  abbrev pub HasValues : List String → List (String × List String) → FabDns → Type 0
  HasValues zones block f =
      (f.zones ≡ zones)
      × (f.cluster ≡ (record {
        name = last_of is_cluster "" block;
        zone = last_of is_zone "" block;
        region = last_of is_region "" block;
      }))
      × (ltb 3600 f.ttl ≡ false)

  ttl_in_range : (t : ℤ) → IsTtl t → ltb 3600 (ttl_or_default env t) ≡ false
  ttl_in_range (pos n) h = h
  ttl_in_range (negsuc n) h = refl

  finish-HasValues :
      (zones : List String) (block : List (String × List String)) (r : Result SetupError Config)
      (f : FabDns)
      → ((c : Config) → r ≡ ok c → IsParsed block initial c)
      → finish env zones r ≡ ok f
      → HasValues zones block f
  unfolding finish
  finish-HasValues zones block (err e) f parsed h = cc
  finish-HasValues zones block (ok c) f parsed h = go (env.new_client c.masterurl c.kubeconfig) h
    where
      made : FabDns
      made = record {
        zones = zones;
        fall = c.fab_fall;
        ttl = ttl_or_default env c.ttl;
        cluster = record { name = c.cluster; zone = c.cluster_zone; region = c.cluster_region };
      }

      go : (r : Result String (Unit {0})) → with_client env r made ≡ ok f → HasValues zones block f
      go (err e) k = cc
      go (ok _) k =
          let same : made ≡ f = cc in
          let (cl, zo, re, in_range) = parsed c refl in
          rw (← same) (refl, rw (cl, zo, re) refl, ttl_in_range c.ttl (in_range tt))

  -- Every configuration that is accepted gives the plugin the zones that
  -- `OriginsFromArgsOrServerBlock` makes of the arguments behind the plugin's name and of the keys of
  -- the server block, the name, the zone and the region of the cluster that the block gives last, or
  -- blank ones if it gives none, and a TTL of at most 3600.
  pub fabdns_parse-HasValues :
      (args server_block_keys : List String) (block : List (String × List String)) (f : FabDns)
      → fabdns_parse env args server_block_keys block ≡ ok f
      → HasValues (env.origins_from_args_or_server_block args server_block_keys) block f
  unfolding fabdns_parse
  fabdns_parse-HasValues args server_block_keys block f =
      finish-HasValues (env.origins_from_args_or_server_block args server_block_keys) block
        (parse_block env block initial) f (parse_block-IsParsed block initial)
