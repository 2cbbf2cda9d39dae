-- ===== src/Hub/Options/Validation.antt =====
-- Which options are valid.
use fab_dns.Base.{
  String, Bool, true, false, ◌||◌, ◌≡◌, refl, ◌∙◌, ◌↔◌, ◌⊎◌, inl, inr, ◌==◌, eq_iff, Bool-cases,
}
use fab_dns.Base.Equality.{string_eq}
use fab_dns.Regexp.{codes}
use fab_dns.Hub.Options.{
  Options, Stat, not_exist, unreadable, file_info, StartError, Outcome, done, ◌>>=◌, ◌>>◌, require,
  file_exists, validate, mode_server, mode_client, alnum,
}
use fab_dns.Hub.Options.Names.{IsDnsName, AnyIn, dns1123_reg_iff, zone_name_reg_iff}

-- Something is there that is not a directory.
abbrev pub IsFile : Stat → Type 0
IsFile not_exist = ⊥
IsFile (unreadable e) = ⊥
IsFile (file_info is_dir) = is_dir ≡ false

pub record IsValid (stat : String → Stat) (opts : Options) : Type 0 where
  pub cluster_name : IsDnsName (codes opts.cluster)
  pub zone_name : AnyIn alnum (codes opts.zone)
  pub mode : (opts.mode ≡ mode_server) ⊎ (opts.mode ≡ mode_client)
  pub region_name : AnyIn alnum (codes opts.region)
  pub key_file : IsFile (stat opts.tls_key_file)
  pub cert_file : IsFile (stat opts.tls_cert_file)
  pub ca_cert_file : IsFile (stat opts.tls_ca_cert_file)

require_done :
    {A : Type 0} (b : Bool) (e : StartError) (k : Outcome A) (a : A)
    → (require b e >> k) ≡ done a
    → (b ≡ true) × (k ≡ done a)
require_done true e k a h = (refl, h)
require_done false e k a h = cc

IsFile-done :
    {A : Type 0} (s : Stat) (e : StartError) (k : Outcome A) (a : A)
    → (file_exists s >>= λ b. require b e >> k) ≡ done a
    → IsFile s × (k ≡ done a)
unfolding file_exists
IsFile-done not_exist e k a h = cc
IsFile-done (unreadable m) e k a h = cc
IsFile-done (file_info true) e k a h = cc
IsFile-done (file_info false) e k a h = (refl, h)

file_there :
    {A : Type 0} (s : Stat) (e : StartError) (k : Outcome A)
    → IsFile s
    → (file_exists s >>= λ b. require b e >> k) ≡ k
unfolding file_exists
file_there not_exist e k h = absurd h
file_there (unreadable m) e k h = absurd h
file_there (file_info is_dir) e k h = rw h refl

mode_iff :
    (mode : String)
    → ((mode == mode_server || mode == mode_client) ≡ true)
      ↔ ((mode ≡ mode_server) ⊎ (mode ≡ mode_client))
mode_iff mode = (
  λ h. elim (Bool-cases (mode == mode_server)) [
    | inl t ↦ inl ((eq_iff mode mode_server).0 t)
    | inr t ↦ inr ((eq_iff mode mode_client).0 (rw t at h))
  ],
  λ h. elim h [ inl e ↦ rw e refl | inr e ↦ rw e refl ],
)

module _ (stat : String → Stat) (opts : Options) where
  validate-IsValid : validate stat opts ≡ done tt → IsValid stat opts
  unfolding validate
  validate-IsValid h =
      let (cluster, h1) = require_done _ _ _ _ h in
      let (zone, h2) = require_done _ _ _ _ h1 in
      let (mode, h3) = require_done _ _ _ _ h2 in
      let (region, h4) = require_done _ _ _ _ h3 in
      let (key, h5) = IsFile-done (stat opts.tls_key_file) _ _ _ h4 in
      let (cert, h6) = IsFile-done (stat opts.tls_cert_file) _ _ _ h5 in
      let (ca_cert, _) = IsFile-done (stat opts.tls_ca_cert_file) _ (done tt) _ h6 in
      record {
        cluster_name = (dns1123_reg_iff opts.cluster).0 cluster;
        zone_name = (zone_name_reg_iff opts.zone).0 zone;
        mode = (mode_iff opts.mode).0 mode;
        region_name = (zone_name_reg_iff opts.region).0 region;
        key_file = key;
        cert_file = cert;
        ca_cert_file = ca_cert;
      }

  IsValid-validate : IsValid stat opts → validate stat opts ≡ done tt
  unfolding validate
  IsValid-validate v =
      rw
        (
          (dns1123_reg_iff opts.cluster).1 v.cluster_name,
          (zone_name_reg_iff opts.zone).1 v.zone_name,
          (mode_iff opts.mode).1 v.mode,
          (zone_name_reg_iff opts.region).1 v.region_name,
        )
        (file_there (stat opts.tls_key_file) _ _ v.key_file
          ∙ file_there (stat opts.tls_cert_file) _ _ v.cert_file
          ∙ file_there (stat opts.tls_ca_cert_file) _ (done tt) v.ca_cert_file)

  -- `Validate` returns nil exactly if the cluster consists of labels between dots, of any number and
  -- any length, each of lower case letters, digits and dashes with a letter or a digit at both ends, the
  -- zone and the region have a letter or digit in them, the mode is one of the two, and all three files are there and are no
  -- directories.
  pub validate_iff : (validate stat opts ≡ done tt) ↔ IsValid stat opts
  validate_iff = (validate-IsValid, IsValid-validate)
