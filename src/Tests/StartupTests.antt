-- ===== src/Tests/StartupTests.antt =====
-- The start of the process on a host where everything succeeds and SIGTERM comes.
use native.Mathlib.Decide.{ℕ_discrete}
use k8s_object_syncer.Base.{
  All, true, String, string_eq, ◌==◌, ◌≡◌, refl, none, some, [], ok, Result, if◌then◌else◌,
}
use k8s_object_syncer.Configuration.{env_var, is_whitespace}
use k8s_object_syncer.Startup.Address.{IsErr, main-has_colon}
use k8s_object_syncer.Startup.{crypto_installed, has_colon, Host, Process, main, sigterm}
use k8s_object_syncer.Startup.Order.{IsOrdered, main-IsOrdered}

abbrev fine : String → Result String (Unit {0}) × String
fine w = (ok tt, w)

abbrev calm : Host
calm = record {
  World = String;
  SocketAddr = String;
  env = λ name. if name == "WATCH_NAMESPACES" then some " a , b " else none;
  parse = λ text. ok text;
  show_addr = λ addr. addr;
  install_crypto = fine;
  build_exporter = fine;
  bind_address = λ addr. fine;
  connect = fine;
  spawn_reflector = λ w. w;
  wait_cache = λ w. (ok (ok tt), w);
  register_sigint = fine;
  register_sigterm = fine;
  select = λ w. (sigterm, w);
}

abbrev fresh : Process calm
fresh = record { world = ""; events = [] }

main-IsOrdered_example : IsOrdered calm fresh.world (main calm fresh).1.events
main-IsOrdered_example = main-IsOrdered calm fresh refl

-- The same host with the IPv6 address of all interfaces.
abbrev six : Host
six = record calm { env = λ name. if name == "METRICS_LISTEN_ADDR" then some "::" else none }

abbrev fresh_six : Process six
fresh_six = record { world = ""; events = [] }

given_six : env_var (six.env "METRICS_LISTEN_ADDR") ≡ some "::"
unfolding env_var is_whitespace string_eq ℕ_discrete
given_six = refl

colon_in_six : has_colon "::" ≡ true
unfolding ℕ_discrete
colon_in_six = refl

main-has_colon_example :
    IsErr (main six fresh_six).0 × All (λ e. e ≡ crypto_installed) (main six fresh_six).1.events
main-has_colon_example = main-has_colon six "::" fresh_six given_six colon_in_six refl
