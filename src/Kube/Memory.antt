-- ===== src/Kube/Memory.antt =====
-- A client over a store in memory, which satisfies what is required of one.
use fab_dns.Base.{
  String, Bool, true, List, [], ◌∷◌, Option, none, some, ◌≡◌, refl, arith, if◌then◌else◌, ◌==◌,
  Result, ok, err, any, eq_refl, Bool-cases, inl, inr,
}
use fab_dns.Base.Map.{lookup, insert, delete, has_value, lookup-insert, lookup-delete}
use fab_dns.Api.{GlobalService, ObjectKey, Labels, key_of, key_eq, key_beq}
use fab_dns.Kube.{
  ApiError, not_found, already_exists, Client, Content, content_of, content_or, ClientLaws,
}

pub record Memory : Type 0 where
  pub services : List (ObjectKey × Content)
  pub namespaces : List String

service_of : ObjectKey → Content → GlobalService
service_of k c = record {
  metadata = record {
    name = k.name;
    namespace = k.namespace;
    resource_version = "";
    cluster_name = "";
    labels = c.labels;
  };
  spec = c.spec;
}

get_result : ObjectKey → Option Content → Result ApiError GlobalService
get_result k none = err not_found
get_result k (some c) = ok (service_of k c)

services_of : List (ObjectKey × Content) → List GlobalService
services_of [] = []
services_of ((k, c) ∷ m) = service_of k c ∷ services_of m

put : GlobalService → Memory → Memory
put svc w = record w { services = insert (key_of svc) (content_of svc) w.services }

stored_or : GlobalService → Option Content → GlobalService
stored_or obj none = obj
stored_or obj (some c) = service_of (key_of obj) c

create_or_update :
    GlobalService → (GlobalService → GlobalService) → Memory → Option ApiError × Memory
create_or_update obj f w = (
  none,
  record w {
    services =
        insert (key_of obj) (content_of (f (stored_or obj (lookup (key_of obj) w.services))))
          w.services;
  },
)

has_name : String → List String → Bool
has_name n ns = any (λ m. m == n) ns

unfoldable pub memory : Client Memory
unfolding get_result services_of put stored_or create_or_update service_of has_name
memory = record {
  get = λ k w. (get_result k (lookup k w.services), w);
  list = λ w. (ok (services_of w.services), w);
  update = λ svc w.
      if has_value (lookup (key_of svc) w.services) then (none, put svc w) else (some not_found, w);
  delete = λ svc w.
      if has_value (lookup (key_of svc) w.services)
      then (none, record w { services = delete (key_of svc) w.services })
      else (some not_found, w);
  create_or_update = create_or_update;
  get_namespace = λ n w. if has_name n w.namespaces then (none, w) else (some not_found, w);
  create_namespace = λ n l w.
      if has_name n w.namespaces
      then (some already_exists, w)
      else (none, record w { namespaces = n ∷ w.namespaces });
}

get_result_ok :
    (k : ObjectKey) (o : Option Content) (svc : GlobalService)
    → get_result k o ≡ ok svc
    → (key_of svc ≡ k) × (o ≡ some (content_of svc))
unfolding get_result service_of
get_result_ok k none svc h = cc
get_result_ok k (some c) svc h = ground arith

get_result_not_found :
    (k : ObjectKey) (o : Option Content) → get_result k o ≡ err not_found → o ≡ none
unfolding get_result
get_result_not_found k none h = refl
get_result_not_found k (some c) h = cc

key_of-stored_or :
    (obj : GlobalService) (o : Option Content) → key_of (stored_or obj o) ≡ key_of obj
unfolding stored_or service_of
key_of-stored_or obj none = refl
key_of-stored_or obj (some c) = refl

content_of-stored_or :
    (obj : GlobalService) (o : Option Content)
    → content_of (stored_or obj o) ≡ content_or (content_of obj) o
unfolding stored_or service_of
content_of-stored_or obj none = refl
content_of-stored_or obj (some c) = refl

abbrev content_in : Memory → ObjectKey → Option Content
content_in w k = lookup k w.services

module _ (svc : GlobalService) (j : ObjectKey) (w : Memory) where
  update_lem :
      (memory.update svc w).0 ≡ none
      → content_in (memory.update svc w).1 j
        ≡ (if key_beq (key_of svc) j then some (content_of svc) else content_in w j)
  unfolding memory
  update_lem h = elim (Bool-cases (has_value (lookup (key_of svc) w.services))) [
    | inl t ↦ rw t (lookup-insert (key_of svc) j (content_of svc) w.services)
    | inr t ↦ ground arith
  ]

  delete_lem :
      (memory.delete svc w).0 ≡ none
      → content_in (memory.delete svc w).1 j
        ≡ (if key_beq (key_of svc) j then none else content_in w j)
  unfolding memory
  delete_lem h = elim (Bool-cases (has_value (lookup (key_of svc) w.services))) [
    | inl t ↦ rw t (lookup-delete (key_of svc) j w.services)
    | inr t ↦ ground arith
  ]

module _ (n : String) (w : Memory) where
  get_namespace_quiet_lem :
      (j : ObjectKey) → content_in (memory.get_namespace n w).1 j ≡ content_in w j
  unfolding memory
  get_namespace_quiet_lem j = ground arith

  get_namespace_lem :
      (memory.get_namespace n w).0 ≡ none
      → has_name n (memory.get_namespace n w).1.namespaces ≡ true
  unfolding memory
  get_namespace_lem h = ground arith

  create_namespace_quiet_lem :
      (l : Labels) (j : ObjectKey) → content_in (memory.create_namespace n l w).1 j ≡ content_in w j
  unfolding memory
  create_namespace_quiet_lem l j = ground arith

  -- The namespace is there after the call, whether it was created or not.
  create_namespace_lem :
      (l : Labels) → has_name n (memory.create_namespace n l w).1.namespaces ≡ true
  unfolding memory
  create_namespace_lem l = ground (arith, eq_refl n)

create_or_update_lem :
    (obj : GlobalService) (f : GlobalService → GlobalService) (w : Memory)
    → (old : GlobalService) × (key_of old ≡ key_of obj)
      × (content_of old ≡ content_or (content_of obj) (content_in w (key_of obj)))
      × ((j : ObjectKey)
          → content_in (memory.create_or_update obj f w).1 j
            ≡ (if key_beq (key_of obj) j then some (content_of (f old)) else content_in w j))
unfolding memory
create_or_update_lem obj f w = (
  stored_or obj (lookup (key_of obj) w.services),
  key_of-stored_or obj (lookup (key_of obj) w.services),
  content_of-stored_or obj (lookup (key_of obj) w.services),
  λ j. lookup-insert (key_of obj) j _ w.services,
)

unfoldable pub memory_laws : ClientLaws memory
unfolding memory get_result_ok get_result_not_found update_lem delete_lem create_or_update_lem
    key_of-stored_or content_of-stored_or get_namespace_quiet_lem get_namespace_lem
    create_namespace_quiet_lem create_namespace_lem
memory_laws = record {
  content_at = λ w k. lookup k w.services;
  has_namespace = λ w n. has_name n w.namespaces;
  get_quiet = λ k j w. refl;
  get_ok = λ k w svc h. get_result_ok k (lookup k w.services) svc h;
  get_not_found = λ k w h. get_result_not_found k (lookup k w.services) h;
  list_quiet = λ j w. refl;
  update_ok = update_lem;
  delete_ok = delete_lem;
  create_or_update_ok = λ obj f w h. create_or_update_lem obj f w;
  get_namespace_quiet = λ n j w. get_namespace_quiet_lem n w j;
  get_namespace_ok = λ n w h. get_namespace_lem n w h;
  create_namespace_quiet = λ n l j w. create_namespace_quiet_lem n w l j;
  create_namespace_ok = λ n l w h. create_namespace_lem n w l;
  create_namespace_exists = λ n l w h. create_namespace_lem n w l;
}
