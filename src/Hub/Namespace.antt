-- ===== src/Hub/Namespace.antt =====
-- pkg/util/namespace/namespace.go, with the names of pkg/constants/constants.go.
use fab_dns.Base.{
  String, Bool, true, false, [], ◌∷◌, Option, none, some, ◌≡◌, refl, ◌∙◌, Result, ok, err,
}
use fab_dns.Api.{ObjectKey}
use fab_dns.Kube.{ApiError, not_found, already_exists, Client, ClientLaws}

abbrev pub key_origin_resource_version : String
key_origin_resource_version = "fabedge.io/origin-resource-version"

abbrev pub key_created_by : String
key_created_by = "fabedge.io/created-by"

abbrev pub app_service_hub : String
app_service_hub = "service-hub"

module _ {W : Type 0} (cli : Client W) where
  -- What `Exists` makes of the error of `Get`.
  found : Option ApiError → Result ApiError Bool
  found none = ok true
  found (some not_found) = ok false
  found (some e) = err e

  unfoldable pub exists : String → W → Result ApiError Bool × W
  unfolding found
  exists name w = let (e, w') = cli.get_namespace name w in (found e, w')

  -- `if errors.IsAlreadyExists(err) { err = nil }`
  ignore_exists : Option ApiError → Option ApiError
  ignore_exists (some already_exists) = none
  ignore_exists e = e

  ensured : String → Result ApiError Bool × W → Option ApiError × W
  unfolding ignore_exists
  ensured name (err e, w) = (some e, w)
  ensured name (ok true, w) = (none, w)
  ensured name (ok false, w) =
      let (e, w') = cli.create_namespace name ((key_created_by, app_service_hub) ∷ []) w in
      (ignore_exists e, w')

  unfoldable pub ensure : String → W → Option ApiError × W
  unfolding ensured exists
  ensure name w = ensured name (exists name w)

module _ {W : Type 0} (cli : Client W) (laws : ClientLaws cli) (name : String) where
  -- What is left of `Ensure` after `Get`, by the result of `Get`.
  content_at-ensured :
      (o : Option ApiError) (j : ObjectKey) (w : W)
      → laws.content_at (ensured cli name (found cli o, w)).1 j ≡ laws.content_at w j
  unfolding ensured found
  content_at-ensured none j w = refl
  content_at-ensured (some not_found) j w = laws.create_namespace_quiet name _ j w
  content_at-ensured (some _) j w = refl

  -- `Ensure` touches no global service.
  pub content_at-ensure :
      (j : ObjectKey) (w : W) → laws.content_at (ensure cli name w).1 j ≡ laws.content_at w j
  unfolding ensure
  content_at-ensure j w =
      content_at-ensured (cli.get_namespace name w).0 j (cli.get_namespace name w).1
      ∙ laws.get_namespace_quiet name j w

  -- The error of `Create` is dropped only where the namespace is there.
  created :
      (o : Option ApiError) (w : W)
      → (cli.create_namespace name ((key_created_by, app_service_hub) ∷ []) w).0 ≡ o
      → ignore_exists cli o ≡ none
      → laws.has_namespace
          (cli.create_namespace name ((key_created_by, app_service_hub) ∷ []) w).1
          name
        ≡ true
  unfolding ignore_exists
  created none w e h = laws.create_namespace_ok name _ w e
  created (some already_exists) w e h = laws.create_namespace_exists name _ w e
  created (some _) w e h = cc

  ensured-has_namespace :
      (o : Option ApiError) (w : W)
      → (o ≡ none → laws.has_namespace w name ≡ true)
      → (ensured cli name (found cli o, w)).0 ≡ none
      → laws.has_namespace (ensured cli name (found cli o, w)).1 name ≡ true
  unfolding ensured found
  ensured-has_namespace none w there h = there refl
  ensured-has_namespace (some not_found) w there h = created _ w refl h
  ensured-has_namespace (some _) w there h = cc

  -- If `Ensure` returns no error, the namespace is there, whether it was found, was created, or was
  -- created by somebody else between the two calls.
  pub ensure-has_namespace :
      (w : W) → (ensure cli name w).0 ≡ none → laws.has_namespace (ensure cli name w).1 name ≡ true
  unfolding ensure
  ensure-has_namespace w h =
      ensured-has_namespace (cli.get_namespace name w).0 (cli.get_namespace name w).1
        (laws.get_namespace_ok name w) h
