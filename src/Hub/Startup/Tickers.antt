-- ===== src/Hub/Startup/Tickers.antt =====
-- When the tickers of the hub make it panic.
use fab_dns.Base.{◌≡◌, refl, ℤ, is_positive, if◌then◌else◌, ◌==◌, Bool-cases, inl, inr}
use fab_dns.Base.Equality.{string_eq}
use fab_dns.Hub.Options.{Options, done, panic, checked, ◌>>◌, mode_server, validate}
use fab_dns.Hub.Startup.{Env, Hub, complete, start_runnable, start_all, run, execute}
use fab_dns.Hub.Startup.Wiring.{hub_of, complete-hub_of}

-- The interval of the ticker that the mode starts.
abbrev pub interval_of : Options → ℤ
interval_of opts =
    if opts.mode == mode_server then opts.cluster_expire_time else opts.service_import_interval

module _ (env : Env) (opts : Options) where
  run-hub_of : run env (hub_of opts) ≡ (
      checked env.start >> (if is_positive (interval_of opts) then checked env.stopped else panic))
  unfolding run start_all start_runnable
  run-hub_of = elim (Bool-cases (opts.mode == mode_server)) [
    | inl t ↦ rw t (elim (Bool-cases (is_positive opts.cluster_expire_time)) [
      | inl p ↦ rw p refl
      | inr p ↦ rw p refl
    ])
    | inr t ↦ rw t (elim (Bool-cases (is_positive opts.service_import_interval)) [
      | inl p ↦ rw p refl
      | inr p ↦ rw p refl
    ])
  ]

  -- Once options are valid and `Complete` returns no error, `Execute` returns the error with which the
  -- manager fails to start, if there is one; else it panics exactly if the interval of the ticker of its
  -- mode is not positive, which is the expire time of clusters in server mode and the import interval
  -- in client mode; else it returns what the manager returns when it stops.
  pub execute-interval_of :
      (hub : Hub)
      → validate env.stat opts ≡ done tt
      → complete env opts ≡ done hub
      → execute env opts ≡ (
          checked env.start
          >> (if is_positive (interval_of opts) then checked env.stopped else panic))
  unfolding execute
  execute-interval_of hub valid completes =
      let (same, _) = complete-hub_of opts env hub completes in
      rw (valid, completes, same) run-hub_of
