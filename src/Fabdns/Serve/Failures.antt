-- ===== src/Fabdns/Serve/Failures.antt =====
-- What `ServeDNS` does when the client finds no service, or fails.
use fab_dns.Base.{
  true, false, [], ◌∷◌, ◌++◌, some, ◌≡◌, ◌≢◌, ◌⊎◌, inl, inr, refl, ◌∙◌, ok, err, if◌then◌else◌,
}
use fab_dns.Kube.{ApiError, not_found}
use fab_dns.Fabdns.Errors.{no_items, kube}
use fab_dns.Fabdns.Parse.{RecordRequest, parse_request}
use fab_dns.Fabdns.Records.{Request, type_a, type_aaaa}
use fab_dns.Fabdns.Serve.{
  Env, FabDns, Io, Reply, serve_dns, serve_parsed, reply, found_or_error, global_records_found,
  ad_hoc_records_found, plugin_name, rcode_name_error, rcode_server_failure,
}
use fab_dns.Fabdns.Serve.Answers.{
  get_global_records_lem, get_ad_hoc_records_lem, zoned, serve_dns-zoned,
}

-- The request is one for which the client is asked.
abbrev pub IsLookedUp : RecordRequest → Type 0
IsLookedUp r =
    (r.is_ad_hoc ≡ true)
    ⊎ (r.is_ad_hoc ≡ false)
      × (r.namespace ≢ "")
      × (r.service ≢ "")
      × ((r.hostname ≡ "") ⊎ (r.cluster ≢ ""))

module _ {W : Type 0} (env : Env W) (f : FabDns) (request : Request) where
  -- The reply to a query for which the client returned an error.
  abbrev pub failed : ApiError → Io W → Reply W
  failed not_found io =
      if env.through f.fall request.name then env.next_or_failure plugin_name io else (
        (rcode_name_error, some (env.plugin_error plugin_name (some no_items))),
        record io {
          written =
              io.written
              ++ record { authoritative = true; rcode = rcode_name_error; answer = [] } ∷ [];
        },
      )
  failed e io = ((rcode_server_failure, some (env.plugin_error plugin_name (some (kube e)))), io)

  -- The reply once the lookup of either kind has failed.
  reply-global_records :
      (e : ApiError) (state : Request) (r : RecordRequest) (io : Io W)
      → state.name ≡ request.name
      → reply env f state (global_records_found env f state r (found_or_error env f (err e)), io)
        ≡ failed e io
  unfolding reply found_or_error global_records_found
  reply-global_records not_found state r io n = rw n
  reply-global_records _ state r io n = refl

  reply-ad_hoc_records :
      (e : ApiError) (state : Request) (r : RecordRequest) (io : Io W)
      → state.name ≡ request.name
      → reply env f state (ad_hoc_records_found env f state r (found_or_error env f (err e)), io)
        ≡ failed e io
  unfolding reply found_or_error ad_hoc_records_found
  reply-ad_hoc_records not_found state r io n = rw n
  reply-ad_hoc_records _ state r io n = refl

module _ {W : Type 0} (env : Env W) (f : FabDns) (request : Request) (before : Io W) where
  -- A query in a zone of the plugin, of a supported type and with a name for which the client is
  -- asked, gets no answer if the client fails. A service that is not found falls through to the next
  -- plugin, or is a name error with one empty message; any other error is a server failure with
  -- nothing written, and does not fall through.
  pub serve_dns-get_error :
      (r : RecordRequest) (e : ApiError) (w : W)
      → env.matches f.zones request.qname ≢ ""
      → (request.qtype ≡ type_a) ⊎ (request.qtype ≡ type_aaaa)
      → parse_request env.split_domain_name request.qname ≡ ok r
      → IsLookedUp r
      → env.get (record { namespace = r.namespace; name = r.service }) before.world ≡ (err e, w)
      → serve_dns env f request before ≡ failed env f request e (record before { world = w })
  serve_dns-get_error r e w in_zone supported parsed (inl ad_hoc) got =
      let state = zoned env f request before in_zone supported in
      let looked = get_ad_hoc_records_lem env f state r before (err e) w got in
      serve_dns-zoned env f request before in_zone supported
      ∙ (rw parsed (
          unfold serve_parsed in
          rw (ad_hoc, looked) (reply-ad_hoc_records env f request e state r _ refl)))
  serve_dns-get_error r e w in_zone supported parsed (inr (glob, n, s, h)) got =
      let state = zoned env f request before in_zone supported in
      let looked = get_global_records_lem env f state r before (err e) w n s h got in
      serve_dns-zoned env f request before in_zone supported
      ∙ (rw parsed (
          unfold serve_parsed in
          rw (glob, looked) (reply-global_records env f request e state r _ refl)))
