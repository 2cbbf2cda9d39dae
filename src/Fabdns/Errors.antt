-- ===== src/Fabdns/Errors.antt =====
-- The errors of pkg/fabdns/fabdns.go.
use fab_dns.Base.{ℕ, String}
use fab_dns.Kube.{ApiError}

-- The first four are made in that file, `kube` is what the client returned, and `wrapped` what
-- `plugin.Error` of CoreDNS made of one.
pub data Error : Type 0 where
  no_items invalid_request not_in_zone : Error
  not_implemented : ℕ → Error
  kube : ApiError → Error
  wrapped : String → Error
