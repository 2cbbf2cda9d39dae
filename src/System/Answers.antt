-- ===== src/System/Answers.antt =====
-- What the plugin answers in a cluster after a tick of the importer.
use fab_dns.Base.{
  Bool, true, false, String, List, [], ◌∷◌, ◌++◌, none, some, ◌≡◌, ◌≢◌, refl, sym, ap, ◌∙◌, In, ◌⊎◌,
  ◌↔◌, inl, inr, Result, ok, err,
}
use fab_dns.Api.{GlobalService, ObjectKey, key_of}
use fab_dns.Kube.{
  ApiError, not_found, already_exists, other, Client, ClientLaws, Content, content_of,
}
use fab_dns.Fabdns.Parse.{RecordRequest, parse_request, label_svc}
use fab_dns.Fabdns.Parse.Formats.{global, parse_labels_iff}
use fab_dns.Fabdns.Records.{Request, Rr, type_a, type_aaaa, generate_records}
use fab_dns.Fabdns.Global.Locality.{IsNearby}
use fab_dns.Fabdns.Serve.{Env, FabDns, Io, serve_dns, rcode_success}
use fab_dns.Fabdns.Serve.Answers.{serve_dns-nearest}
use fab_dns.Fabdns.Serve.Failures.{failed, serve_dns-get_error}
use fab_dns.Hub.Manager.Revoking.{IsRead, service_key}
use fab_dns.Hub.Importer.{Task, run_tasks, origin, import_services}
use fab_dns.Hub.Importer.Tasks.{has_key}
use fab_dns.Hub.Importer.Running.{AreDone}
use fab_dns.Hub.Importer.Mirrors.{import_services-IsCopy, IsCopy-spec}

module _ {W : Type 0} (cli : Client W) (laws : ClientLaws cli) where
  open laws use {content_at}

  -- What a read gives that succeeds or finds nothing.
  pub get_stored :
      (k : ObjectKey) (w : W) (c : Content)
      → content_at w k ≡ some c
      → IsRead (cli.get k w).0
      → (found : GlobalService) × (cli.get k w ≡ (ok found, (cli.get k w).1))
        × (found.spec ≡ c.spec)
  get_stored k w c at read = go (cli.get k w).0 refl read
    where
      go :
          (r : Result ApiError GlobalService)
          → (cli.get k w).0 ≡ r
          → IsRead r
          → (found : GlobalService) × (cli.get k w ≡ (ok found, (cli.get k w).1))
            × (found.spec ≡ c.spec)
      go (ok found) e h =
          let (_, was) = laws.get_ok k w found e in
          let same : c ≡ content_of found = cc in
          (found, rw (← e) refl, ap (λ (x : Content). x.spec) (sym same))
      go (err not_found) e h = let gone = laws.get_not_found k w e in cc
      go (err already_exists) e h = absurd h
      go (err (other s)) e h = absurd h

  get_absent :
      (k : ObjectKey) (w : W)
      → content_at w k ≡ none
      → IsRead (cli.get k w).0
      → cli.get k w ≡ (err not_found, (cli.get k w).1)
  get_absent k w at read = go (cli.get k w).0 refl read
    where
      go :
          (r : Result ApiError GlobalService)
          → (cli.get k w).0 ≡ r
          → IsRead r
          → cli.get k w ≡ (err not_found, (cli.get k w).1)
      go (ok found) e h = let (_, was) = laws.get_ok k w found e in cc
      go (err not_found) e h = rw (← e) refl
      go (err already_exists) e h = absurd h
      go (err (other s)) e h = absurd h

  module _ (plain : Env W) (f : FabDns) (request : Request) where
    -- A plugin with that client.
    abbrev pub over_client : Env W
    over_client = record plain { get = cli.get }

    -- The success message with an answer, after a read of a key.
    abbrev pub IsAnswered : ObjectKey → Io W → List Rr → Type 0
    IsAnswered k io answer = serve_dns over_client f request io ≡ (
      (rcode_success, none),
      record {
        world = (cli.get k io.world).1;
        written =
            io.written
            ++ record { authoritative = true; rcode = rcode_success; answer = answer } ∷ [];
      },
    )

    -- The request for a service in any cluster.
    abbrev asked : String → String → RecordRequest
    asked s n = record {
      hostname = "";
      cluster = "";
      service = s;
      namespace = n;
      is_ad_hoc = false;
    }

    -- Let the tasks of a tick of the importer end without an error, in whatever order they run, with
    -- downloaded services of distinct keys, a list of all local services, and no local service that has
    -- the version of a downloaded one noted but another spec. Let a query of a supported type be, in a
    -- zone of the plugin, for `service.namespace.svc.<last>`, and let the client then read that service
    -- or find none. The query is answered from what was downloaded: if a service of that key was, by one
    -- authoritative success message with exactly the records of its nearest endpoints; and if none was,
    -- as a name error, or by the next plugin if the name falls through.
    pub serve_dns-import_services :
        (allow : Bool) (E : Type 0) (services items : List GlobalService) (tasks : List Task)
        (before : Io W) (w : W)
        → ((a b : GlobalService) → In a services → In b services → key_of a ≡ key_of b → a ≡ b)
        → ((j : ObjectKey) (c : Content) → content_at w j ≡ some c → has_key j items ≡ true)
        → ((t : Task) → In t tasks ↔ In t (import_services {E = E} (ok services) (ok items)))
        → AreDone cli laws allow tasks w
        → ((svc : GlobalService) (c : Content)
            → In svc services
            → content_at w (key_of svc) ≡ some c
            → origin c.labels ≡ svc.metadata.resource_version
            → c.spec ≡ svc.spec)
        → before.world ≡ run_tasks cli allow tasks w
        → plain.matches f.zones request.qname ≢ ""
        → (request.qtype ≡ type_a) ⊎ (request.qtype ≡ type_aaaa)
        → (s n last : String)
        → plain.split_domain_name request.qname ≡ s ∷ n ∷ label_svc ∷ last ∷ []
        → s ≢ ""
        → n ≢ ""
        → IsRead (cli.get (service_key n s) before.world).0
        → ((svc : GlobalService)
            → In svc services
            → key_of svc ≡ service_key n s
            → (answer : List Rr) × IsAnswered (service_key n s) before answer
              × ((r : Rr)
                  → In r answer
                    ↔ IsNearby
                        (generate_records plain.net f.ttl request)
                        f.cluster
                        svc.spec.endpoints
                        r))
          × (has_key (service_key n s) services ≡ false
              → serve_dns over_client f request before
                ≡ failed over_client f request not_found
                    (record before { world = (cli.get (service_key n s) before.world).1 }))
    serve_dns-import_services allow E services items tasks before w distinct listed started done
          honest after in_zone supported s n last labels s_given n_given read =
        let (absent, present) =
          import_services-IsCopy cli laws allow E services items tasks w distinct listed started
            done in
        (
          λ svc i key.
              let (c, at, copy) = present svc i in
              let spec = IsCopy-spec cli laws allow services svc c w honest i copy in
              let (found, got, same) =
                get_stored (service_key n s) before.world c (rw (after, ← key) at) read in
              let (answer, served, near) =
                serve_dns-nearest over_client f request before in_zone supported s n last found _
                  labels s_given n_given got in
              (answer, served, rw (same ∙ spec) at near),
          λ out.
              serve_dns-get_error over_client f request before (asked s n) not_found _ in_zone
                supported (parsed s n last labels) (inr (refl, n_given, s_given, inl refl))
                (get_absent (service_key n s) before.world (rw after (absent (service_key n s) out))
                  read),
        )
      where
        parsed :
            (s n last : String)
            → plain.split_domain_name request.qname ≡ s ∷ n ∷ label_svc ∷ last ∷ []
            → parse_request plain.split_domain_name request.qname ≡ ok (asked s n)
        parsed s n last labels =
            unfold parse_request in
            (parse_labels_iff (plain.split_domain_name request.qname) (asked s n)).1
              (global s n last labels refl)
