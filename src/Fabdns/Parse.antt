-- ===== src/Fabdns/Parse.antt =====
-- pkg/fabdns/parse.go: from the labels of a query name to a record request.
pub mod Formats
use Prim.Native.String.{◌++◌ as str_append}
use fab_dns.Base.{
  ℕ, zero, suc, String, Bool, true, false, List, [], ◌∷◌, ◌&&◌, length, ltb, nat_beq, if◌then◌else◌,
  ◌==◌, Result, ok, err,
}
use fab_dns.Fabdns.Errors.{Error, invalid_request}

abbrev pub label_svc : String
label_svc = "svc"

pub record RecordRequest : Type 0 where
  pub hostname : String
  pub cluster : String
  pub service : String
  pub namespace : String
  pub is_ad_hoc : Bool

-- `labels[i]`; the code reads no index out of range.
abbrev label : List String → ℕ → String
label [] i = ""
label (x ∷ xs) zero = x
label (x ∷ xs) (suc i) = label xs i

-- The body of `parseRequest`, from the labels on.
pub parse_labels : List String → Result Error RecordRequest
parse_labels labels =
    if ltb (length labels) 4 && ltb 6 (length labels)
    then err invalid_request
    else if nat_beq (length labels) 6
    then ok (record {
      hostname = label labels 0;
      cluster = label labels 1;
      service = label labels 2;
      namespace = label labels 3;
      is_ad_hoc = false;
    })
    else if nat_beq (length labels) 5
    then ok (record {
      hostname = "";
      cluster = label labels 0;
      service = label labels 1;
      namespace = label labels 2;
      is_ad_hoc = true;
    })
    else if nat_beq (length labels) 4 && label labels 2 == label_svc
    then ok (record {
      hostname = "";
      cluster = "";
      service = label labels 0;
      namespace = label labels 1;
      is_ad_hoc = false;
    })
    else if nat_beq (length labels) 4
    then ok (record {
      hostname = "";
      cluster = label labels 2;
      service = label labels 0;
      namespace = label labels 1;
      is_ad_hoc = true;
    })
    else err invalid_request

-- `split` is `dns.SplitDomainName` of github.com/miekg/dns.
unfoldable pub parse_request : (split : String → List String) → String → Result Error RecordRequest
unfolding parse_labels
parse_request split name = parse_labels (split name)

-- `recordRequest.String`
unfoldable pub to_string : RecordRequest → String
to_string r =
    let s = r.hostname in
    let s = str_append s (str_append "." r.cluster) in
    let s = str_append s (str_append "." r.service) in str_append s (str_append "." r.namespace)
