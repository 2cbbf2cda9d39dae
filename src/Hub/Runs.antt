-- ===== src/Hub/Runs.antt =====
-- The exporter at a cluster with one headless service.
use fab_dns.Base.{
  ℕ, suc, String, Bool, true, List, [], ◌∷◌, Option, none, some, ◌≡◌, refl, sym, ap, inl, inr, In,
  ◌↔◌, ◌⊎◌, ok, err, ◌==◌, if◌then◌else◌, filter, ◌∙◌,
}
use fab_dns.Base.Map
use fab_dns.Base.Equality.{string_eq}
use fab_dns.Base.Entries.{lookup-In}
use fab_dns.Base.Sorting.{Permᴰ-In}
use fab_dns.Base.Sorting.Insertion.{sort_by, sort_by-Permᴰ}
use mathlib.Core.List.Permᴰ
use fab_dns.Api.{Endpoint, GlobalService, ObjectKey, empty_meta, empty_service, key_eq}
use fab_dns.Kube.{not_found}
use fab_dns.Hub.Exporter.{
  Env, Service, reconcile, should_skip_service, get_endpoints_of_headless_service, listed,
}
use fab_dns.Hub.Slices.{
  ClusterInfo, SliceEndpoint, EndpointSlice, less_by_name, add_slices, add_endpoints, add_endpoint,
}
use fab_dns.Hub.Exporter.Tracking.{IsTracked, reconcile-IsTracked}
use fab_dns.Hub.Exporter.Headless.{pod_of, targets, addressed, headless-pods}
use fab_dns.Hub.Exporter.Lost.{reconcile_lost, reconcile_lost-repeated}

-- One key of `values_at`.
or_skip : Option Endpoint → List Endpoint → List Endpoint
or_skip none es = es
or_skip (some e) es = e ∷ es

In-or_skip :
    (e : Endpoint) (o : Option Endpoint) (es : List Endpoint)
    → In e (or_skip o es)
    → (o ≡ some e) ⊎ In e es
unfolding or_skip
In-or_skip e none es i = inr i
In-or_skip e (some v) es (inl same) = inl (ap (λ (x : Endpoint). some x) (sym same))
In-or_skip e (some v) es (inr i) = inr i

or_skip-In :
    (e : Endpoint) (o : Option Endpoint) (es : List Endpoint)
    → (o ≡ some e) ⊎ In e es
    → In e (or_skip o es)
unfolding or_skip
or_skip-In e none es (inl h) = cc
or_skip-In e none es (inr i) = i
or_skip-In e (some v) es (inl h) = inl (cc)
or_skip-In e (some v) es (inr i) = inr i

-- What is stored under each of some keys.
pub values_at : List (String × Endpoint) → List String → List Endpoint
unfolding or_skip
values_at m [] = []
values_at m (k ∷ ks) = or_skip (Map.lookup k m) (values_at m ks)

values_at-lookup :
    (e : Endpoint) (m : List (String × Endpoint)) (ks : List String)
    → In e (values_at m ks)
    → (name : String) × (Map.lookup name m ≡ some e)
unfolding values_at
values_at-lookup e m [] i = absurd i
values_at-lookup e m (k ∷ ks) i = elim (In-or_skip e (Map.lookup k m) (values_at m ks) i) [
  | inl h ↦ (k, h)
  | inr j ↦ values_at-lookup e m ks j
]

lookup-values_at :
    (e : Endpoint) (name : String) (m l : List (String × Endpoint))
    → Map.lookup name m ≡ some e
    → In (name, e) l
    → In e (values_at m (Map.keys l))
unfolding values_at
lookup-values_at e name m [] h i = absurd i
lookup-values_at e name m ((k, v) ∷ l) h (inl same) =
    let k_same : name ≡ k = ap (λ (x : String × Endpoint). x.0) same in
    or_skip-In e (Map.lookup k m) (values_at m (Map.keys l))
      (inl (ap (λ (x : String). Map.lookup x m) (sym k_same) ∙ h))
lookup-values_at e name m ((k, v) ∷ l) h (inr i) =
    or_skip-In e (Map.lookup k m) (values_at m (Map.keys l)) (inr (lookup-values_at e name m l h i))

abbrev pub range_of : List (String × Endpoint) → List Endpoint
range_of m = values_at m (Map.keys m)

pub ranges :
    (e : Endpoint) (m : List (String × Endpoint))
    → In e (range_of m) ↔ ((name : String) × (Map.lookup name m ≡ some e))
ranges e m =
    (values_at-lookup e m (Map.keys m), λ p. lookup-values_at e p.0 m m p.1 (lookup-In p.0 e m p.1))

pub sorts :
    (less : Endpoint → Endpoint → Bool) (e : Endpoint) (es : List Endpoint)
    → In e (sort_by less es) ↔ In e es
sorts less e es =
    (Permᴰ-In e (sort_by-Permᴰ less es), Permᴰ-In e (Permᴰ.symm (sort_by-Permᴰ less es)))

abbrev web : Service
web = record {
  metadata = record empty_meta {
    name = "web";
    namespace = "default";
    labels = ("fabedge.io/global-service", "true") ∷ [];
  };
  type = "ClusterIP";
  cluster_ip = "None";
  cluster_ips = [];
  ports = [];
}

abbrev web_key : ObjectKey
web_key = record { namespace = "default"; name = "web" }

abbrev pod : String → String → SliceEndpoint
pod address name = record {
  addresses = address ∷ [];
  hostname = some name;
  target_ref = some (record { kind = "Pod"; namespace = "default"; name = name });
}

abbrev pub slices : List EndpointSlice
slices =
    record { address_type = "IPv4"; endpoints = pod "10.0.0.1" "a" ∷ pod "10.0.0.2" "b" ∷ [] }
    ∷ record { address_type = "IPv6"; endpoints = pod "fd00::1" "a" ∷ [] }
    ∷ record { address_type = "FQDN"; endpoints = pod "example.org" "c" ∷ [] }
    ∷ []

abbrev pub beijing : ClusterInfo
beijing = record { name = "beijing"; region = "north"; zone = "z1" }

abbrev exported : GlobalService
exported = record empty_service {
  spec = record empty_service.spec {
    endpoints =
        record {
          addresses = [];
          hostname = none;
          target_ref = none;
          cluster = "beijing";
          zone = "z1";
          region = "north";
        }
        ∷ [];
  };
}

-- The world counts the calls to the hub.
unfoldable env : Env ℕ
unfolding values_at
env = record {
  get_global_service = λ k n. (ok exported, n);
  get_service = λ k n. (if k.name == "web" then ok web else err not_found, n);
  list_slices = λ ns name n. (ok slices, n);
  export_global_service = λ svc n. (none, suc n);
  revoke_global_service = λ c ns name n. (none, suc n);
  sort_slices = λ less slices. sort_by less slices;
  sort_endpoints = λ less endpoints. sort_by less endpoints;
  range = range_of;
}

reconcile-IsTracked_example :
    IsTracked env beijing web_key [] true
      (reconcile env beijing web_key (record { service_key_set = []; world = 0 }))
unfolding env should_skip_service
reconcile-IsTracked_example = reconcile-IsTracked env beijing web_key [] 0

abbrev pods : List Endpoint
pods = elim (get_endpoints_of_headless_service env "default" "web" beijing 0).0 [
  | err e ↦ []
  | ok es ↦ es
]

collects : (get_endpoints_of_headless_service env "default" "web" beijing 0).0 ≡ ok pods
unfolding get_endpoints_of_headless_service env listed add_slices add_endpoints add_endpoint
    Map.lookup Map.insert values_at or_skip sort_by
collects = refl

-- The endpoint of the pod with two addresses.
abbrev pod_a : Endpoint
pod_a = record {
  addresses = "10.0.0.1" ∷ "fd00::1" ∷ [];
  hostname = some "a";
  target_ref = some (record { kind = "Pod"; namespace = "default"; name = "a" });
  cluster = "beijing";
  zone = "z1";
  region = "north";
}

headless-pods_example :
    In pod_a pods
    ↔ ((name : String) × (pod_of beijing (filter (targets name) (addressed slices)) ≡ some pod_a))
unfolding env sort_by
headless-pods_example =
    headless-pods env beijing (sorts less_by_name) ranges "default" "web" 0 slices pods refl
      collects pod_a

-- The service `api` is exported and gone.
reconcile_lost-repeated_example :
    reconcile_lost env beijing (record { namespace = "default"; name = "api" }) 0 ≡ (none, 1)
unfolding env
reconcile_lost-repeated_example =
    reconcile_lost-repeated env beijing (record { namespace = "default"; name = "api" }) 0 0
      exported refl
