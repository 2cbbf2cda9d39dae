-- ===== src/Kube.antt =====
-- What the program uses of Kubernetes through sigs.k8s.io/controller-runtime: the errors that it
-- tells apart, the client, and what the client's documentation promises.
pub mod Memory
use fab_dns.Base.{String, Bool, true, List, Option, none, some, ◌≡◌, if◌then◌else◌, Result, ok, err}
use fab_dns.Api.{GlobalService, GlobalServiceSpec, Labels, ObjectKey, ObjectMeta, key_of, key_beq}

-- `errors.IsNotFound` and `errors.IsAlreadyExists` of k8s.io/apimachinery tell the first two from
-- all others.
pub data ApiError : Type 0 where
  not_found already_exists : ApiError
  other : String → ApiError

-- The operations of `client.Client` on global services and namespaces, and
-- `controllerutil.CreateOrUpdate`. `W` is the cluster behind the client. An error is `none` for nil.
-- The function given to `create_or_update` is one that returns nil in Go.
pub record Client (W : Type 0) : Type 0 where
  pub get : ObjectKey → W → Result ApiError GlobalService × W
  pub list : W → Result ApiError (List GlobalService) × W
  pub update : GlobalService → W → Option ApiError × W
  pub delete : GlobalService → W → Option ApiError × W
  pub create_or_update : GlobalService → (GlobalService → GlobalService) → W → Option ApiError × W
  pub get_namespace : String → W → Option ApiError × W
  pub create_namespace : String → Labels → W → Option ApiError × W

-- What the program writes of a global service; the cluster chooses the rest of the metadata.
pub record Content : Type 0 where
  pub labels : Labels
  pub spec : GlobalServiceSpec

abbrev pub content_of : GlobalService → Content
content_of svc = record { labels = svc.metadata.labels; spec = svc.spec }

abbrev pub content_or : Content → Option Content → Content
content_or c none = c
content_or c (some d) = d

-- What is documented of a client whose calls succeed, and of reads: a read returns what is stored and
-- changes nothing, a write stores the object under its key and leaves all others alone, a delete
-- removes it (a global service has no finalizers), and `CreateOrUpdate` stores what the function makes
-- of the stored object, or of the given one if there is none. Of a write that fails nothing is said.
pub record ClientLaws {W : Type 0} (cli : Client W) : Type 0 where
  pub content_at : W → ObjectKey → Option Content
  pub has_namespace : W → String → Bool
  pub get_quiet : (k j : ObjectKey) (w : W) → content_at (cli.get k w).1 j ≡ content_at w j
  pub get_ok :
      (k : ObjectKey) (w : W) (svc : GlobalService)
      → (cli.get k w).0 ≡ ok svc
      → (key_of svc ≡ k) × (content_at w k ≡ some (content_of svc))
  pub get_not_found :
      (k : ObjectKey) (w : W) → (cli.get k w).0 ≡ err not_found → content_at w k ≡ none
  pub list_quiet : (j : ObjectKey) (w : W) → content_at (cli.list w).1 j ≡ content_at w j
  pub update_ok :
      (svc : GlobalService) (j : ObjectKey) (w : W)
      → (cli.update svc w).0 ≡ none
      → content_at (cli.update svc w).1 j
        ≡ (if key_beq (key_of svc) j then some (content_of svc) else content_at w j)
  pub delete_ok :
      (svc : GlobalService) (j : ObjectKey) (w : W)
      → (cli.delete svc w).0 ≡ none
      → content_at (cli.delete svc w).1 j
        ≡ (if key_beq (key_of svc) j then none else content_at w j)
  pub create_or_update_ok :
      (obj : GlobalService) (f : GlobalService → GlobalService) (w : W)
      → (cli.create_or_update obj f w).0 ≡ none
      → (old : GlobalService) × (key_of old ≡ key_of obj)
        × (content_of old ≡ content_or (content_of obj) (content_at w (key_of obj)))
        × ((j : ObjectKey)
            → content_at (cli.create_or_update obj f w).1 j
              ≡ (if key_beq (key_of obj) j then some (content_of (f old)) else content_at w j))
  pub get_namespace_quiet :
      (n : String) (j : ObjectKey) (w : W) → content_at (cli.get_namespace n w).1 j ≡ content_at w j
  pub get_namespace_ok :
      (n : String) (w : W)
      → (cli.get_namespace n w).0 ≡ none
      → has_namespace (cli.get_namespace n w).1 n ≡ true
  pub create_namespace_quiet :
      (n : String) (l : Labels) (j : ObjectKey) (w : W)
      → content_at (cli.create_namespace n l w).1 j ≡ content_at w j
  pub create_namespace_ok :
      (n : String) (l : Labels) (w : W)
      → (cli.create_namespace n l w).0 ≡ none
      → has_namespace (cli.create_namespace n l w).1 n ≡ true
  pub create_namespace_exists :
      (n : String) (l : Labels) (w : W)
      → (cli.create_namespace n l w).0 ≡ some already_exists
      → has_namespace (cli.create_namespace n l w).1 n ≡ true
