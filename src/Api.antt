-- ===== src/Api.antt =====
-- pkg/apis/v1alpha1/global_service_types.go: the GlobalService resource, with those fields of the
-- Kubernetes metadata and object reference that the program reads, copies or clears. The JSON form
-- of a service is not modelled.
use fab_dns.Base.{ℕ, ◌≡◌, ◌↔◌, String, List, [], Option, Bool, true, ◌&&◌, arith, eq_iff, ◌==◌}
use fab_dns.Base.Equality.{Eq}

-- `type ServiceType string`
abbrev pub ServiceType : Type 0
ServiceType = String

abbrev pub cluster_ip : ServiceType
cluster_ip = "ClusterIP"

abbrev pub headless : ServiceType
headless = "Headless"

-- corev1.ObjectReference
pub record ObjectReference : Type 0 where
  pub kind : String
  pub namespace : String
  pub name : String

pub record Endpoint : Type 0 where
  pub addresses : List String
  pub hostname : Option String
  pub target_ref : Option ObjectReference
  pub cluster : String
  pub zone : String
  pub region : String

pub record ServicePort : Type 0 where
  pub name : String
  pub protocol : String
  pub app_protocol : Option String
  pub port : ℕ

pub record GlobalServiceSpec : Type 0 where
  pub type : ServiceType
  pub ports : List ServicePort
  pub endpoints : List Endpoint

-- `map[string]string`; a nil map and an empty one are both `[]`.
abbrev pub Labels : Type 0
Labels = List (String × String)

-- metav1.ObjectMeta
pub record ObjectMeta : Type 0 where
  pub name : String
  pub namespace : String
  pub resource_version : String
  pub cluster_name : String
  pub labels : Labels

abbrev pub empty_meta : ObjectMeta
empty_meta = record {
  name = "";
  namespace = "";
  resource_version = "";
  cluster_name = "";
  labels = [];
}

pub record GlobalService : Type 0 where
  pub metadata : ObjectMeta
  pub spec : GlobalServiceSpec

abbrev pub empty_spec : GlobalServiceSpec
empty_spec = record { type = ""; ports = []; endpoints = [] }

-- `var svc apis.GlobalService`
abbrev pub empty_service : GlobalService
empty_service = record { metadata = empty_meta; spec = empty_spec }

-- client.ObjectKey
pub record ObjectKey : Type 0 where
  pub namespace : String
  pub name : String

abbrev pub key_beq : ObjectKey → ObjectKey → Bool
key_beq a b = a.namespace == b.namespace && a.name == b.name

pub key_beq_iff : (a b : ObjectKey) → (key_beq a b ≡ true) ↔ (a ≡ b)
key_beq_iff a b = ground (arith, eq_iff a.namespace b.namespace, eq_iff a.name b.name)

instance abbrev pub key_eq : Eq ObjectKey
key_eq = record { beq = key_beq; beq_iff = key_beq_iff }

-- The key under which the cluster stores a service.
abbrev pub key_of : GlobalService → ObjectKey
key_of svc = record { namespace = svc.metadata.namespace; name = svc.metadata.name }
