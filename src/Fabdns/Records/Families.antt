-- ===== src/Fabdns/Records/Families.antt =====
-- Which addresses of an endpoint are answered, for queries of type A and of type AAAA.
use fab_dns.Base.{
  ℕ, String, List, [], ◌∷◌, ◌++◌, none, some, ◌≡◌, ◌+◌, ◌≢◌, inl, inr, refl, arith, length,
  length-append, In, In-append, ◌↔◌, Bool-cases, nat_beq, if◌then◌else◌,
}
use fab_dns.Base.Map.{has_value}
use fab_dns.Api.{Endpoint}
use fab_dns.Fabdns.Records.{
  Request, Header, Net, Rr, a, aaaa, type_a, type_aaaa, a_answer, aaaa_answer, a_records,
  aaaa_records, generate_records, Ip,
}

-- The number of addresses that `net.ParseIP` accepts.
abbrev pub parsed : Net → List String → ℕ
parsed net [] = 0
parsed net (addr ∷ addrs) = (if has_value (net.parse_ip addr) then 1 else 0) + parsed net addrs

module _ (net : Net) (ttl : ℕ) (state : Request) where
  -- A request that differs in its query type alone.
  abbrev pub asking : ℕ → Request
  asking t = record state { qtype = t }

  records_split :
      (addrs : List String)
      → length (a_records net ttl (asking type_a) addrs)
          + length (aaaa_records net ttl (asking type_aaaa) addrs)
        ≡ parsed net addrs
  unfolding a_records aaaa_records
  records_split [] = omega arith
  records_split (addr ∷ addrs) = ground (
    arith,
    records_split addrs,
    length-append (a_answer net ttl (asking type_a) (net.parse_ip addr))
        (a_records net ttl (asking type_a) addrs),
    length-append (aaaa_answer net ttl (asking type_aaaa) (net.parse_ip addr))
        (aaaa_records net ttl (asking type_aaaa) addrs),
  )

  -- What a record of the answer says: it is of the query's type and class, bears the query's name
  -- and the plugin's TTL, and its address is one of the given texts, parsed, in the family of its
  -- type.
  pub data IsRecordOf (addrs : List String) (r : Rr) : Type 0 where
    v4 :
        (addr : String) (ip : List ℕ)
        → In addr addrs
        → net.parse_ip addr ≡ some ip
        → net.to4 ip ≢ none
        → state.qtype ≡ type_a
        → r
          ≡ a
              (record { name = state.qname; rrtype = state.qtype; class = state.qclass; ttl = ttl })
              (net.to4 ip)
        → IsRecordOf addrs r
    v6 :
        (addr : String) (ip : List ℕ)
        → In addr addrs
        → net.parse_ip addr ≡ some ip
        → net.to4 ip ≡ none
        → state.qtype ≡ type_aaaa
        → r
          ≡ aaaa
              (record { name = state.qname; rrtype = state.qtype; class = state.qclass; ttl = ttl })
              (net.to16 ip)
        → IsRecordOf addrs r

  IsRecordOf-cons :
      (addr : String) (addrs : List String) (r : Rr)
      → IsRecordOf addrs r
      → IsRecordOf (addr ∷ addrs) r
  IsRecordOf-cons addr addrs r (v4 x ip i p f t e) = v4 x ip (inr i) p f t e
  IsRecordOf-cons addr addrs r (v6 x ip i p f t e) = v6 x ip (inr i) p f t e

  -- What is appended for one address.
  a_answer-IsRecordOf :
      (addr : String) (addrs : List String) (r : Rr) (ip : Ip)
      → state.qtype ≡ type_a
      → net.parse_ip addr ≡ ip
      → In r (a_answer net ttl state ip)
      → IsRecordOf (addr ∷ addrs) r
  unfolding a_answer
  a_answer-IsRecordOf addr addrs r none t e h = absurd h
  a_answer-IsRecordOf addr addrs r (some ip) t e h =
      v4 addr ip (inl refl) e (ground arith) t (ground arith)

  aaaa_answer-IsRecordOf :
      (addr : String) (addrs : List String) (r : Rr) (ip : Ip)
      → state.qtype ≡ type_aaaa
      → net.parse_ip addr ≡ ip
      → In r (aaaa_answer net ttl state ip)
      → IsRecordOf (addr ∷ addrs) r
  unfolding aaaa_answer
  aaaa_answer-IsRecordOf addr addrs r none t e h = absurd h
  aaaa_answer-IsRecordOf addr addrs r (some ip) t e h =
      v6 addr ip (inl refl) e (ground arith) t (ground arith)

  a_records-IsRecordOf :
      (addrs : List String) (r : Rr)
      → state.qtype ≡ type_a
      → In r (a_records net ttl state addrs)
      → IsRecordOf addrs r
  unfolding a_records
  a_records-IsRecordOf [] r t h = absurd h
  a_records-IsRecordOf (addr ∷ addrs) r t h =
      elim (In-append r (a_answer net ttl state (net.parse_ip addr)) _ h) [
        | inl i ↦ a_answer-IsRecordOf addr addrs r (net.parse_ip addr) t refl i
        | inr i ↦ IsRecordOf-cons addr addrs r (a_records-IsRecordOf addrs r t i)
      ]

  aaaa_records-IsRecordOf :
      (addrs : List String) (r : Rr)
      → state.qtype ≡ type_aaaa
      → In r (aaaa_records net ttl state addrs)
      → IsRecordOf addrs r
  unfolding aaaa_records
  aaaa_records-IsRecordOf [] r t h = absurd h
  aaaa_records-IsRecordOf (addr ∷ addrs) r t h =
      elim (In-append r (aaaa_answer net ttl state (net.parse_ip addr)) _ h) [
        | inl i ↦ aaaa_answer-IsRecordOf addr addrs r (net.parse_ip addr) t refl i
        | inr i ↦ IsRecordOf-cons addr addrs r (aaaa_records-IsRecordOf addrs r t i)
      ]

  -- Every record generated for an endpoint is a record of one of its addresses.
  pub generate_records-IsRecordOf :
      (endpoint : Endpoint) (r : Rr)
      → In r (generate_records net ttl state endpoint)
      → IsRecordOf endpoint.addresses r
  unfolding generate_records
  generate_records-IsRecordOf endpoint r h = elim (Bool-cases (nat_beq state.qtype type_a)) [
    | inl e ↦
        let i : In r (a_records net ttl state endpoint.addresses) = rw e at h in
        a_records-IsRecordOf endpoint.addresses r (ground arith) i
    | inr n ↦ elim (Bool-cases (nat_beq state.qtype type_aaaa)) [
      | inl e ↦
          let i : In r (aaaa_records net ttl state endpoint.addresses) = rw (n, e) at h in
          aaaa_records-IsRecordOf endpoint.addresses r (ground arith) i
      | inr m ↦ let i : ⊥ = rw (n, m) at h in absurd i
    ]
  ]

  In-prefix : (r : Rr) (xs ys : List Rr) → In r xs → In r (xs ++ ys)
  In-prefix r [] ys i = absurd i
  In-prefix r (x ∷ xs) ys (inl e) = inl e
  In-prefix r (x ∷ xs) ys (inr i) = inr (In-prefix r xs ys i)

  In-suffix : (r : Rr) (xs ys : List Rr) → In r ys → In r (xs ++ ys)
  In-suffix r [] ys i = i
  In-suffix r (x ∷ xs) ys i = inr (In-suffix r xs ys i)

  -- The header of each record.
  abbrev header : Header
  header = record { name = state.qname; rrtype = state.qtype; class = state.qclass; ttl = ttl }

  -- An address that is parsed into the family of the query has its record in the answer.
  In-a_records :
      (addrs : List String) (addr : String) (ip : List ℕ)
      → state.qtype ≡ type_a
      → In addr addrs
      → net.parse_ip addr ≡ some ip
      → net.to4 ip ≢ none
      → In (a header (net.to4 ip)) (a_records net ttl state addrs)
  unfolding a_records a_answer
  In-a_records [] addr ip t i p f = absurd i
  In-a_records (x ∷ addrs) addr ip t (inl e) p f =
      let q : net.parse_ip x ≡ some ip = rw e at p in
      In-prefix (a header (net.to4 ip)) (a_answer net ttl state (net.parse_ip x))
        (a_records net ttl state addrs) (rw (q, t) (ground arith))
  In-a_records (x ∷ addrs) addr ip t (inr i) p f =
      In-suffix (a header (net.to4 ip)) (a_answer net ttl state (net.parse_ip x))
        (a_records net ttl state addrs) (In-a_records addrs addr ip t i p f)

  In-aaaa_records :
      (addrs : List String) (addr : String) (ip : List ℕ)
      → state.qtype ≡ type_aaaa
      → In addr addrs
      → net.parse_ip addr ≡ some ip
      → net.to4 ip ≡ none
      → In (aaaa header (net.to16 ip)) (aaaa_records net ttl state addrs)
  unfolding aaaa_records aaaa_answer
  In-aaaa_records [] addr ip t i p f = absurd i
  In-aaaa_records (x ∷ addrs) addr ip t (inl e) p f =
      let q : net.parse_ip x ≡ some ip = rw e at p in
      In-prefix (aaaa header (net.to16 ip)) (aaaa_answer net ttl state (net.parse_ip x))
        (aaaa_records net ttl state addrs) (rw (q, f, t) (inl refl))
  In-aaaa_records (x ∷ addrs) addr ip t (inr i) p f =
      In-suffix (aaaa header (net.to16 ip)) (aaaa_answer net ttl state (net.parse_ip x))
        (aaaa_records net ttl state addrs) (In-aaaa_records addrs addr ip t i p f)

  IsRecordOf-generate_records :
      (endpoint : Endpoint) (r : Rr)
      → IsRecordOf endpoint.addresses r
      → In r (generate_records net ttl state endpoint)
  unfolding generate_records
  IsRecordOf-generate_records endpoint r (v4 addr ip i p f t e) =
      rw (e, t) (rw t at (In-a_records endpoint.addresses addr ip t i p f))
  IsRecordOf-generate_records endpoint r (v6 addr ip i p f t e) =
      rw (e, t) (rw t at (In-aaaa_records endpoint.addresses addr ip t i p f))

  -- The records generated for an endpoint are exactly these: under a query for A, one for each address
  -- that `net.ParseIP` accepts and that has a form of four bytes, with those four bytes; under a query
  -- for AAAA, one for each address that it accepts and that has no such form, with its sixteen bytes;
  -- under any other query none. Each is of the query's type and class and bears the query's name and
  -- the TTL. And over a query for A and the same query for AAAA each address that parses is answered
  -- once: the two answers together have as many records as there are such addresses.
  pub generate_records_partition :
      (endpoint : Endpoint)
      → ((r : Rr)
          → In r (generate_records net ttl state endpoint) ↔ IsRecordOf endpoint.addresses r)
        × (length (generate_records net ttl (asking type_a) endpoint)
              + length (generate_records net ttl (asking type_aaaa) endpoint)
            ≡ parsed net endpoint.addresses)
  unfolding generate_records
  generate_records_partition endpoint = (
    λ r. (generate_records-IsRecordOf endpoint r, IsRecordOf-generate_records endpoint r),
    records_split endpoint.addresses,
  )
