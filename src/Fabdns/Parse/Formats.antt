-- ===== src/Fabdns/Parse/Formats.antt =====
-- The name formats of `parseRequest`.
use fab_dns.Base.{
  String, true, false, List, [], ◌∷◌, ◌≡◌, ◌≢◌, ◌↔◌, refl, inl, inr, ap, Bool-cases, ok, arith,
  eq_iff, ◌==◌,
}
use fab_dns.Fabdns.Parse.{RecordRequest, label_svc, parse_labels}

-- The four formats, by the labels of the name. Only the deprecated format reads the label before the
-- last one, and none reads the last.
pub data Denotes (labels : List String) (r : RecordRequest) : Type 0 where
  in_cluster_host :
      (h c s n x z : String)
      → labels ≡ h ∷ c ∷ s ∷ n ∷ x ∷ z ∷ []
      → r ≡ record { hostname = h; cluster = c; service = s; namespace = n; is_ad_hoc = false }
      → Denotes labels r
  in_cluster :
      (c s n x z : String)
      → labels ≡ c ∷ s ∷ n ∷ x ∷ z ∷ []
      → r ≡ record { hostname = ""; cluster = c; service = s; namespace = n; is_ad_hoc = true }
      → Denotes labels r
  global :
      (s n z : String)
      → labels ≡ s ∷ n ∷ label_svc ∷ z ∷ []
      → r ≡ record { hostname = ""; cluster = ""; service = s; namespace = n; is_ad_hoc = false }
      → Denotes labels r
  deprecated :
      (s n c z : String)
      → labels ≡ s ∷ n ∷ c ∷ z ∷ []
      → c ≢ label_svc
      → r ≡ record { hostname = ""; cluster = c; service = s; namespace = n; is_ad_hoc = true }
      → Denotes labels r

parse_labels_sound :
    (labels : List String) (r : RecordRequest) → parse_labels labels ≡ ok r → Denotes labels r
unfolding parse_labels
parse_labels_sound (a ∷ b ∷ c ∷ d ∷ []) r h = elim (Bool-cases (c == label_svc)) [
  | inl e ↦
      global a b d (ap (λ (t : String). a ∷ b ∷ t ∷ d ∷ []) ((eq_iff c label_svc).0 e))
        (ground arith)
  | inr e ↦ deprecated a b c d refl (ground (arith, eq_iff c label_svc)) (ground arith)
]
parse_labels_sound (a ∷ b ∷ c ∷ d ∷ e ∷ []) r h = in_cluster a b c d e refl (ground arith)
parse_labels_sound (a ∷ b ∷ c ∷ d ∷ e ∷ f ∷ []) r h =
    in_cluster_host a b c d e f refl (ground arith)
parse_labels_sound _ r h = absurd (ground arith)

parse_labels_complete :
    (labels : List String) (r : RecordRequest) → Denotes labels r → parse_labels labels ≡ ok r
unfolding parse_labels
parse_labels_complete labels r (in_cluster_host h c s n x z e f) = rw e (ground arith)
parse_labels_complete labels r (in_cluster c s n x z e f) = rw e (ground arith)
parse_labels_complete labels r (global s n z e f) =
    rw e (ground (arith, eq_iff label_svc label_svc))
parse_labels_complete labels r (deprecated s n c z e m f) =
    rw e (ground (arith, eq_iff c label_svc))

-- A name is parsed to a request exactly when its labels have one of the formats and the request is
-- what that format denotes.
pub parse_labels_iff :
    (labels : List String) (r : RecordRequest) → (parse_labels labels ≡ ok r) ↔ Denotes labels r
parse_labels_iff labels r = (parse_labels_sound labels r, parse_labels_complete labels r)
