-- ===== src/Fabdns/Serve/Replies.antt =====
-- What `ServeDNS` writes, and how that fits what it returns.
use Prim.Native.String.{slice, len}
use fab_dns.Base.{
  ◌-◌, not, ℕ, true, List, [], ◌∷◌, ◌++◌, none, some, ◌≡◌, ◌≢◌, ◌⊎◌, inl, inr, refl, arith, ◌==◌,
  ◌&&◌, nat_beq, Result, ok, err, Bool-cases,
}
use fab_dns.Fabdns.Errors.{Error, not_in_zone, not_implemented}
use fab_dns.Fabdns.Parse.{RecordRequest, parse_request}
use fab_dns.Fabdns.Records.{Request, Rr, type_a, type_aaaa}
use fab_dns.Fabdns.Serve.{
  Env, FabDns, Io, Msg, Reply, serve_dns, serve_parsed, reply, next_or_failure, write_msg,
  get_global_records, get_ad_hoc_records, is_name_error, plugin_name, rcode_success,
  rcode_name_error, rcode_server_failure, rcode_not_zone, rcode_not_implemented,
}

module _ {W : Type 0} (env : Env W) (f : FabDns) (request : Request) (before : Io W) where
  -- The three ways to answer, from the response writer as it was before the query.
  pub data Answered (out : Reply W) : Type 0 where
    -- The query is handed to the next plugin, and only if the name falls through.
    passed_on :
        (io : Io W)
        → env.through f.fall request.name ≡ true
        → io.written ≡ before.written
        → out ≡ env.next_or_failure plugin_name io
        → Answered out
    -- Nothing is written, and the response code and the error are left to the server.
    returned :
        (e : Error)
        → (out.0.0 ≡ rcode_name_error) ⊎ (out.0.0 ≡ rcode_server_failure)
        → out.0.1 ≡ some e
        → out.1.written ≡ before.written
        → Answered out
    -- One authoritative message is written, with the response code that is returned.
    replied :
        (m : Msg)
        → m.authoritative ≡ true
        → m.rcode ≡ out.0.0
        → (out.0.0 ≡ rcode_success) ⊎ (m.answer ≡ [])
        → (out.0.0 ≡ rcode_success) × (out.0.1 ≡ none)
          ⊎ (out.0.0 ≢ rcode_success) × (out.0.1 ≢ none)
        → out.1.written ≡ before.written ++ m ∷ []
        → Answered out

  next_or_failure-Answered :
      (state : Request) (rcode : ℕ) (e : Error) (io : Io W)
      → state.name ≡ request.name
      → io.written ≡ before.written
      → rcode ≢ rcode_success
      → Answered (next_or_failure env f state rcode e io)
  unfolding next_or_failure
  next_or_failure-Answered state rcode e io n h c =
      elim (Bool-cases (env.through f.fall state.name)) [
        | inl t ↦ rw t (passed_on io (ground arith) h refl)
        | inr t ↦ rw t (
            unfold write_msg in
            replied (record { authoritative = true; rcode = rcode; answer = [] }) refl refl
              (inr refl) (inr (c, ground arith)) (ground arith))
      ]

  reply-Answered :
      (state : Request) (r : Result Error (List Rr)) (io : Io W)
      → state.name ≡ request.name
      → io.written ≡ before.written
      → Answered (reply env f state (r, io))
  unfolding reply
  reply-Answered state (ok records) io n h =
      replied (record { authoritative = true; rcode = rcode_success; answer = records }) refl refl
        (inl refl) (inl (refl, refl)) (ground arith)
  reply-Answered state (err e) io n h = elim (Bool-cases (is_name_error e)) [
    | inl t ↦ rw t (next_or_failure-Answered state rcode_name_error e io n h (omega arith))
    | inr t ↦ rw t (returned (env.plugin_error plugin_name (some e)) (inr refl) refl h)
  ]

  written-get_global_records :
      (state : Request) (r : RecordRequest)
      → (get_global_records env f state r before).1.written ≡ before.written
  unfolding get_global_records
  written-get_global_records state r = ground arith

  written-get_ad_hoc_records :
      (state : Request) (r : RecordRequest)
      → (get_ad_hoc_records env f state r before).1.written ≡ before.written
  unfolding get_ad_hoc_records
  written-get_ad_hoc_records state r = ground arith

  serve_parsed-Answered :
      (state : Request) (r : Result Error RecordRequest)
      → state.name ≡ request.name
      → Answered (serve_parsed env f state r before)
  unfolding serve_parsed
  serve_parsed-Answered state (err e) n = returned e (inl refl) refl refl
  serve_parsed-Answered state (ok r) n = elim (Bool-cases r.is_ad_hoc) [
    | inl t ↦
        let (found, io) = get_ad_hoc_records env f state r before in
        rw t (reply-Answered state found io n (written-get_ad_hoc_records state r))
    | inr t ↦
        let (found, io) = get_global_records env f state r before in
        rw t (reply-Answered state found io n (written-get_global_records state r))
  ]

  -- Whatever the query and the client's answers, `ServeDNS` does one of three things: it hands the
  -- query to the next plugin, with nothing written yet and only if the name falls through; it writes
  -- nothing and returns the code for a name error or a server failure with an error; or it writes
  -- one authoritative message, with the response code that it returns, with records only if that
  -- code is success, and with an error beside all other codes and not beside success.
  pub serve_dns-Answered : Answered (serve_dns env f request before)
  unfolding serve_dns
  serve_dns-Answered = elim (Bool-cases (env.matches f.zones request.qname == "")) [
    | inl t ↦
        rw t (
          next_or_failure-Answered request rcode_not_zone not_in_zone before refl refl
            (omega arith))
    | inr t ↦
        let zone = env.matches f.zones request.qname in
        let state = record request {
          zone = slice request.qname (len request.qname - len zone) (len request.qname);
        } in
        elim (Bool-cases
          (not (nat_beq request.qtype type_a) && not (nat_beq request.qtype type_aaaa))) [
            | inl k ↦
                rw (t, k)
                  (next_or_failure-Answered state rcode_not_implemented
                    (not_implemented request.qtype) before refl refl (omega arith))
            | inr k ↦
                rw (t, k)
                  (serve_parsed-Answered state (parse_request env.split_domain_name request.qname)
                    refl)
          ]
  ]
