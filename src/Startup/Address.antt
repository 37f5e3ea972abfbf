-- ===== src/Startup/Address.antt =====
-- Which addresses the metrics server can be given.
use k8s_object_syncer.Base.{String, ◌≡◌, true, some, [], All, Result, ok, err, arith}
use k8s_object_syncer.Configuration.{env_var}
use k8s_object_syncer.Startup.{
  Host, Process, crypto_installed, has_colon, metrics_address, install_provider, start_metrics,
  main,
}

abbrev pub IsErr : {E A : Type 0} → Result E A → Type 0
IsErr (ok a) = ⊥
IsErr (err e) = Unit

-- With a listen address that holds a colon, as each IPv6 address does, the process ends with an
-- error before it has bound an endpoint or connected to the cluster.
pub main-has_colon :
    (H : Host) (addr : String) (s : Process H)
    → env_var (H.env "METRICS_LISTEN_ADDR") ≡ some addr
    → has_colon addr ≡ true
    → s.events ≡ []
    → IsErr (main H s).0 × All (λ e. e ≡ crypto_installed) (main H s).1.events
unfolding main install_provider start_metrics metrics_address
main-has_colon H addr s given colon fresh = ground arith
