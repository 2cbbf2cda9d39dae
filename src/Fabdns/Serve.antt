-- ===== src/Fabdns/Serve.antt =====
-- `ServeDNS`, `writeMsg`, `nextOrFailure` and the lookups of pkg/fabdns/fabdns.go.
pub mod Replies
pub mod Answers
pub mod Clusters
pub mod Failures
use Prim.Native.String.{slice, len}
use fab_dns.Base.{
  ℕ, ◌-◌, String, Bool, true, false, not, List, [], ◌∷◌, ◌++◌, Option, none, some, ltb, nat_beq,
  if◌then◌else◌, ◌==◌, ◌&&◌, ◌||◌, Result, ok, err,
}
use fab_dns.Api.{Endpoint, GlobalService, ObjectKey}
use fab_dns.Kube.{ApiError, not_found}
use fab_dns.Fabdns.Errors.{
  Error, no_items, invalid_request, not_in_zone, not_implemented, kube, wrapped,
}
use fab_dns.Fabdns.Parse.{RecordRequest, parse_request}
use fab_dns.Fabdns.Records.{Request, Net, Rr, type_a, type_aaaa, generate_records}
use fab_dns.Fabdns.Global.{ClusterInfo, global_records_of, ad_hoc_records_of}

-- The response codes of RFC 1035 and RFC 2136 that the plugin uses.
abbrev pub rcode_success : ℕ
rcode_success = 0

abbrev pub rcode_server_failure : ℕ
rcode_server_failure = 2

abbrev pub rcode_name_error : ℕ
rcode_name_error = 3

abbrev pub rcode_not_implemented : ℕ
rcode_not_implemented = 4

abbrev pub rcode_not_zone : ℕ
rcode_not_zone = 10

abbrev pub plugin_name : String
plugin_name = "fabdns"

-- `dns.Msg`: what the plugin sets of it. `SetReply` and `SetRcode` set the response code, and copy
-- from the request what is not modelled.
pub record Msg : Type 0 where
  pub authoritative : Bool
  pub rcode : ℕ
  pub answer : List Rr

-- What a handler changes: the outside world, and the messages written to the response writer.
pub record Io (W : Type 0) : Type 0 where
  pub world : W
  pub written : List Msg

-- A handler returns a response code and an error.
abbrev pub Reply : Type 0 → Type 0
Reply W = (ℕ × Option Error) × Io W

-- The code around the plugin: `plugin.Zones.Matches`, `dns.SplitDomainName`, `fall.F.Through`,
-- package net, the client's `Get`, `plugin.NextOrFailure` with the next plugin, and `plugin.Error`.
pub record Env (W : Type 0) : Type 0 where
  pub matches : List String → String → String
  pub split_domain_name : String → List String
  pub through : List String → String → Bool
  pub net : Net
  pub get : ObjectKey → W → Result ApiError GlobalService × W
  pub next_or_failure : String → Io W → Reply W
  pub plugin_error : String → Option Error → Error

-- The fields of `FabDNS`; its `Next` and `Client` are in `Env`.
pub record FabDns : Type 0 where
  pub zones : List String
  pub fall : List String
  pub ttl : ℕ
  pub cluster : ClusterInfo

unfoldable pub is_name_error : Error → Bool
is_name_error no_items = true
is_name_error invalid_request = true
is_name_error _ = false

module _ {W : Type 0} (env : Env W) (f : FabDns) where
  write_msg : Request → List Rr → ℕ → Option Error → Io W → Reply W
  write_msg state records rcode e io =
      let message : Msg =
        if nat_beq rcode rcode_success
        then record { authoritative = true; rcode = rcode_success; answer = records }
        else record { authoritative = true; rcode = rcode; answer = [] } in
      let e' = if nat_beq rcode rcode_success then e else some (env.plugin_error plugin_name e) in
      ((rcode, e'), record io { written = io.written ++ message ∷ [] })

  pub next_or_failure : Request → ℕ → Error → Io W → Reply W
  unfolding write_msg
  next_or_failure state rcode e io =
      if env.through f.fall state.name
      then env.next_or_failure plugin_name io
      else write_msg state [] rcode (some e) io

  -- What both lookups make of the result of the client.
  pub found_or_error : Result ApiError GlobalService → Result Error GlobalService
  found_or_error (ok service) = ok service
  found_or_error (err not_found) = err no_items
  found_or_error (err e) = err (kube e)

  pub get_service : ObjectKey → Io W → Result Error GlobalService × Io W
  unfolding found_or_error
  get_service key io =
      let (found, w) = env.get key io.world in (found_or_error found, record io { world = w })

  pub generate : Request → Endpoint → List Rr
  generate state = generate_records env.net f.ttl state

  pub global_records_found :
      Request → RecordRequest → Result Error GlobalService → Result Error (List Rr)
  unfolding generate
  global_records_found state r (err e) = err e
  global_records_found state r (ok service) =
      global_records_of (generate state) f.cluster r.cluster r.hostname service

  pub get_global_records : Request → RecordRequest → Io W → Result Error (List Rr) × Io W
  unfolding get_service global_records_found
  get_global_records state r io =
      if r.namespace == "" || r.service == ""
      then (err no_items, io)
      else if not (r.hostname == "") && r.cluster == ""
      then (err invalid_request, io)
      else let (found, io') =
          get_service (record { namespace = r.namespace; name = r.service }) io in
        (global_records_found state r found, io')

  pub ad_hoc_records_found :
      Request → RecordRequest → Result Error GlobalService → Result Error (List Rr)
  unfolding generate
  ad_hoc_records_found state r (err e) = err e
  ad_hoc_records_found state r (ok service) =
      ok (ad_hoc_records_of (generate state) f.cluster r.cluster service.spec.endpoints)

  pub get_ad_hoc_records : Request → RecordRequest → Io W → Result Error (List Rr) × Io W
  unfolding get_service ad_hoc_records_found
  get_ad_hoc_records state r io =
      let (found, io') = get_service (record { namespace = r.namespace; name = r.service }) io in
      (ad_hoc_records_found state r found, io')

  -- `ServeDNS` from the lookup on.
  pub reply : Request → Result Error (List Rr) × Io W → Reply W
  unfolding next_or_failure write_msg is_name_error
  reply state (ok records, io) = write_msg state records rcode_success none io
  reply state (err e, io) =
      if is_name_error e
      then next_or_failure state rcode_name_error e io
      else ((rcode_server_failure, some (env.plugin_error plugin_name (some e))), io)

  -- `ServeDNS` from the parsed request on.
  pub serve_parsed : Request → Result Error RecordRequest → Io W → Reply W
  unfolding reply get_ad_hoc_records get_global_records
  serve_parsed state (err e) io = ((rcode_name_error, some e), io)
  serve_parsed state (ok r) io =
      reply state
        (if r.is_ad_hoc then get_ad_hoc_records state r io else get_global_records state r io)

  unfoldable pub serve_dns : Request → Io W → Reply W
  unfolding serve_parsed next_or_failure
  serve_dns request io =
      let qname = request.qname in
      let zone = env.matches f.zones qname in
      if zone == ""
      then next_or_failure request rcode_not_zone not_in_zone io
      else let state = record request { zone = slice qname (len qname - len zone) (len qname) } in
        if not (nat_beq state.qtype type_a) && not (nat_beq state.qtype type_aaaa)
        then next_or_failure state rcode_not_implemented (not_implemented state.qtype) io
        else serve_parsed state (parse_request env.split_domain_name qname) io
