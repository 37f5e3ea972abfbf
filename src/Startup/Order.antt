-- ===== src/Startup/Order.antt =====
-- In which order the process starts, and when it ends without an error.
use k8s_object_syncer.Base.{String, ◌≡◌, ◌↔◌, ◌⊎◌, List, [], ◌∷◌, In, Result, ok, err, arith}
use k8s_object_syncer.Configuration.{new}
use k8s_object_syncer.Startup.{
  Host, Process, Event, cache_ready, metrics_bound, client_connected, running, finished, sigint,
  sigterm, metrics_address, install_provider, start_metrics, fill_cache, run_controllers, end_with,
  main,
}

module _ (H : Host) where
  -- From this world on, the provider is installed, the exporter built, the address of the environment
  -- bound, the client connected, and the cache of the spawned reflector found ready, all without an
  -- error.
  abbrev pub IsSetUp : H.World → Result String H.SocketAddr → Type 0
  IsSetUp w (err e) = ⊥
  IsSetUp w (ok addr) =
      let (installed, w1) = H.install_crypto w in
      let (built, w2) = H.build_exporter w1 in
      let (bound, w3) = H.bind_address addr w2 in
      let (connected, w4) = H.connect w3 in
      (installed ≡ ok tt)
      × (built ≡ ok tt)
      × (bound ≡ ok tt)
      × (connected ≡ ok tt)
      × ((H.wait_cache (H.spawn_reflector w4)).0 ≡ ok (ok tt))

  module _ (w : H.World) where
    -- What has happened before an event.
    abbrev Before : Event → List Event → Type 0
    Before (Event.running c) earlier =
        IsSetUp w (metrics_address H)
        × In cache_ready earlier
        × In metrics_bound earlier
        × In client_connected earlier
        × (c ≡ new H.env)
    Before (Event.finished f) earlier = In (running (new H.env)) earlier
    Before _ earlier = Unit

    abbrev pub IsOrdered : List Event → Type 0
    IsOrdered [] = Unit
    IsOrdered (e ∷ earlier) = Before e earlier × IsOrdered earlier

  -- However the libraries answer, the controllers run only if the metrics endpoint of the environment
  -- was bound, the client connected, and then the wait for the cache of the spawned reflector came
  -- back without a timeout and without an error, after what is noted of these; they run with the
  -- configuration of the environment; and the process ends by a signal or a failed task only when
  -- they run.
  pub main-IsOrdered : (s : Process H) → s.events ≡ [] → IsOrdered s.world (main H s).1.events
  unfolding main install_provider start_metrics fill_cache run_controllers
  main-IsOrdered s h = ground arith

  -- The process succeeds exactly if the controllers ran until a signal came.
  pub main_ok_iff :
      (s : Process H)
      → s.events ≡ []
      → ((main H s).0 ≡ ok tt)
        ↔ (In (finished sigint) (main H s).1.events ⊎ In (finished sigterm) (main H s).1.events)
  unfolding main install_provider start_metrics fill_cache run_controllers end_with
  main_ok_iff s h = ground arith
