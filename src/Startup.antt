-- ===== src/Startup.antt =====
-- rustrial-k8s-object-syncer/src/main.rs: `main`, from the metrics address to the end of the process.
-- What the libraries and the operating system do is a parameter; the run notes what it has done,
-- the latest first. An error stands as the text that it displays, which is that of its context.
pub mod Address
pub mod Order
use Prim.Native.Char.{code}
use mathlib.Core.Option.{get_or}
use k8s_object_syncer.Base.{
  String, ◌<>◌, Bool, false, ◌||◌, ◌==◌, nat_eq, Option, List, ◌∷◌, Result, ok, err, map_err,
  and_then, Exec, pure, fail, lift, convert, if◌then◌else◌, ◌>>=◌, ◌>>◌,
}
use k8s_object_syncer.Configuration.{env_var, Configuration, new}

-- Which branch of `select!` came first.
pub data Finished : Type 0 where
  controller_ended : Finished
  reflector_ended : Finished
  metrics_server_ended : Result String (Unit {0}) → Finished
  sigint : Finished
  sigterm : Finished

pub data Event : Type 0 where
  crypto_installed : Event
  metrics_bound : Event
  client_connected : Event
  reflector_spawned : Event
  cache_ready : Event
  -- The controllers and the metrics server run from here on, with this configuration.
  running : Configuration → Event
  finished : Finished → Event

pub record Host : Type 1 where
  pub World : Type 0
  pub SocketAddr : Type 0
  -- `std::env::var(name).ok()`
  pub env : String → Option String
  pub parse : String → Result String SocketAddr
  pub show_addr : SocketAddr → String
  pub install_crypto : World → Result String (Unit {0}) × World
  pub build_exporter : World → Result String (Unit {0}) × World
  pub bind_address : SocketAddr → World → Result String (Unit {0}) × World
  pub connect : World → Result String (Unit {0}) × World
  pub spawn_reflector : World → World
  -- The outer result is that of `timeout`, the inner one that of `wait_until_ready`.
  pub wait_cache : World → Result String (Result String (Unit {0})) × World
  pub register_sigint : World → Result String (Unit {0}) × World
  pub register_sigterm : World → Result String (Unit {0}) × World
  pub select : World → Finished × World

abbrev pub has_colon : String → Bool
has_colon String.[] = false
has_colon (String.◌∷◌ c s) = code c == b':' || has_colon s

module _ (H : Host) where
  pub record Process : Type 0 where
    pub world : H.World
    pub events : List Event

  abbrev pub Run : Type 0 → Type 0
  Run = Exec Process String

  abbrev host : {A : Type 0} → (H.World → Result String A × H.World) → Run A
  host f s = let (r, w) = f s.world in (r, record s { world = w })

  abbrev happened : Event → Run (Unit {0})
  happened e s = (ok tt, record s { events = e ∷ s.events })

  -- `.context(…)`
  abbrev in_context : {A : Type 0} → String → Run A → Run A
  in_context text = convert (λ _. text)

  -- The address that the metrics server listens on.
  unfoldable pub metrics_address : Result String H.SocketAddr
  metrics_address =
      let addr = get_or (env_var (H.env "METRICS_LISTEN_ADDR")) "0.0.0.0" in
      let port = get_or (env_var (H.env "METRICS_LISTEN_PORT")) "9000" in
      if has_colon addr
      then err (
          "METRICS_LISTEN_ADDR ('" <> addr
          <> "') must be a bare IP address without a port suffix. Set the port via METRICS_LISTEN_PORT instead (current value: '"
          <> port <> "').")
      else map_err
          (λ _.
            "Failed to parse metrics listen address from METRICS_LISTEN_ADDR='" <> addr
            <> "' and METRICS_LISTEN_PORT='" <> port
            <> "'. Expected a valid IP address and a numeric port.")
          (H.parse (addr <> (":" <> port)))

  unfoldable pub install_provider : Run (Unit {0})
  install_provider = do
    convert (λ e. "failed to set crypto provider: " <> e) (host H.install_crypto)
    happened crypto_installed

  -- The metrics endpoint, which is bound here and served later.
  unfoldable pub start_metrics : Run (Unit {0})
  start_metrics = do
    addr ← lift metrics_address
    host H.build_exporter
    in_context ("Failed to bind metrics endpoint to http://" <> H.show_addr addr)
        (host (H.bind_address addr))
    happened metrics_bound

  -- The namespace reflector is spawned, and its cache awaited.
  unfoldable pub fill_cache : Run (Unit {0})
  fill_cache = do
    host (λ w. (ok tt, H.spawn_reflector w))
    happened reflector_spawned
    ready ←
        in_context "timed out after 60s waiting for namespace cache to be populated"
          (host H.wait_cache)
    in_context "namespace reflector failed before populating the cache" (lift ready)
    happened cache_ready

  -- How the process ends.
  unfoldable pub end_with : Finished → Result String (Unit {0})
  end_with controller_ended = err "ObjectSync controller exited unexpectedly"
  end_with reflector_ended = err "namespace reflector exited unexpectedly"
  end_with (metrics_server_ended (ok _)) = err "prometheus metrics server exited unexpectedly"
  end_with (metrics_server_ended (err e)) = err "prometheus metrics server failed"
  end_with sigint = ok tt
  end_with sigterm = ok tt

  -- The controllers, until one of the branches of `select!` is through.
  unfoldable pub run_controllers : Run (Unit {0})
  run_controllers = do
    let configuration = new H.env
    in_context "failed to register SIGINT handler" (host H.register_sigint)
    in_context "failed to register SIGTERM handler" (host H.register_sigterm)
    happened (running configuration)
    f ← host (λ w. let (f, w') = H.select w in (ok f, w'))
    happened (finished f)
    lift (end_with f)

  unfoldable pub main : Run (Unit {0})
  main = do
    install_provider
    start_metrics
    host H.connect
    happened client_connected
    fill_cache
    run_controllers
