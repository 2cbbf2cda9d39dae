-- ===== src/Fabdns/Records.antt =====
-- `generateRecords`, `verifyIP` and `isIPv4` of pkg/fabdns/fabdns.go, and the records and the request
-- of github.com/miekg/dns and github.com/coredns/coredns/request as far as they are used.
pub mod Families
pub mod Zone
use fab_dns.Base.{
  ℕ, String, Bool, true, false, not, List, [], ◌∷◌, ◌++◌, Option, none, some, nat_beq,
  if◌then◌else◌,
}
use fab_dns.Base.Map.{has_value}
use fab_dns.Api.{Endpoint}

-- The query types of RFC 1035 and RFC 3596.
abbrev pub type_a : ℕ
type_a = 1

abbrev pub type_aaaa : ℕ
type_aaaa = 28

-- What `state.QName()`, `state.Name()`, `state.QType()` and `state.QClass()` return, and the field
-- `state.Zone`.
pub record Request : Type 0 where
  pub qname : String
  pub name : String
  pub qtype : ℕ
  pub qclass : ℕ
  pub zone : String

-- `net.IP`: its bytes; `none` is nil.
abbrev pub Ip : Type 0
Ip = Option (List ℕ)

-- Package net: `net.ParseIP` and the methods `To4` and `To16` of an address that is not nil.
pub record Net : Type 0 where
  pub parse_ip : String → Ip
  pub to4 : List ℕ → Ip
  pub to16 : List ℕ → Ip

pub record Header : Type 0 where
  pub name : String
  pub rrtype : ℕ
  pub class : ℕ
  pub ttl : ℕ

pub data Rr : Type 0 where
  a aaaa : Header → Ip → Rr

module _ (net : Net) where
  verify_ip : String → Option (List ℕ)
  verify_ip address = net.parse_ip address

  is_ipv4 : List ℕ → Bool
  is_ipv4 ip = has_value (net.to4 ip)

  -- The bodies of the loops over the addresses of an endpoint: what is appended for a verified
  -- address under a query for A, and under one for AAAA.
  a_answer : ℕ → Request → Ip → List Rr
  unfolding is_ipv4
  a_answer ttl state none = []
  a_answer ttl state (some ip) =
      if is_ipv4 ip
      then a (record { name = state.qname; rrtype = type_a; class = state.qclass; ttl = ttl })
          (net.to4 ip)
        ∷ []
      else []

  aaaa_answer : ℕ → Request → Ip → List Rr
  unfolding is_ipv4
  aaaa_answer ttl state none = []
  aaaa_answer ttl state (some ip) =
      if not (is_ipv4 ip)
      then aaaa (record { name = state.qname; rrtype = type_aaaa; class = state.qclass; ttl = ttl })
          (net.to16 ip)
        ∷ []
      else []

  a_records : ℕ → Request → List String → List Rr
  unfolding a_answer verify_ip
  a_records ttl state [] = []
  a_records ttl state (addr ∷ addrs) =
      a_answer ttl state (verify_ip addr) ++ a_records ttl state addrs

  aaaa_records : ℕ → Request → List String → List Rr
  unfolding aaaa_answer verify_ip
  aaaa_records ttl state [] = []
  aaaa_records ttl state (addr ∷ addrs) =
      aaaa_answer ttl state (verify_ip addr) ++ aaaa_records ttl state addrs

  unfoldable pub generate_records : ℕ → Request → Endpoint → List Rr
  unfolding a_records aaaa_records
  generate_records ttl state endpoint =
      if nat_beq state.qtype type_a
      then a_records ttl state endpoint.addresses
      else if nat_beq state.qtype type_aaaa
      then aaaa_records ttl state endpoint.addresses
      else []
