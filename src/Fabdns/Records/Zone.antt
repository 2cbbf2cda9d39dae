-- ===== src/Fabdns/Records/Zone.antt =====
-- The zone of a request plays no part in the records that are generated.
use fab_dns.Base.{ℕ, String, List, [], ◌∷◌, none, some, ◌≡◌, refl, arith}
use fab_dns.Api.{Endpoint}
use fab_dns.Fabdns.Records.{
  Request, Net, Ip, a_answer, aaaa_answer, a_records, aaaa_records, generate_records,
}

module _ (net : Net) (ttl : ℕ) (state : Request) (zone : String) where
  abbrev zoned : Request
  zoned = record state { zone = zone }

  a_answer-zone : (ip : Ip) → a_answer net ttl zoned ip ≡ a_answer net ttl state ip
  unfolding a_answer
  a_answer-zone none = refl
  a_answer-zone (some ip) = refl

  aaaa_answer-zone : (ip : Ip) → aaaa_answer net ttl zoned ip ≡ aaaa_answer net ttl state ip
  unfolding aaaa_answer
  aaaa_answer-zone none = refl
  aaaa_answer-zone (some ip) = refl

  a_records-zone :
      (addrs : List String) → a_records net ttl zoned addrs ≡ a_records net ttl state addrs
  unfolding a_records
  a_records-zone [] = refl
  a_records-zone (x ∷ xs) = ground (arith, a_answer-zone (net.parse_ip x), a_records-zone xs)

  aaaa_records-zone :
      (addrs : List String) → aaaa_records net ttl zoned addrs ≡ aaaa_records net ttl state addrs
  unfolding aaaa_records
  aaaa_records-zone [] = refl
  aaaa_records-zone (x ∷ xs) =
      ground (arith, aaaa_answer-zone (net.parse_ip x), aaaa_records-zone xs)

  pub generate_records-zone :
      (endpoint : Endpoint)
      → generate_records net ttl zoned endpoint ≡ generate_records net ttl state endpoint
  unfolding generate_records
  generate_records-zone endpoint =
      rw (a_records-zone endpoint.addresses, aaaa_records-zone endpoint.addresses)
