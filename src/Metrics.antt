-- ===== src/Metrics.antt =====
-- rustrial-k8s-object-syncer/src/prometheus_exporter.rs: the answer to a request for the metrics, and
-- the loop that accepts connections.
use k8s_object_syncer.Base.{ℕ, String, Option, none, some, List, [], ◌∷◌, Result, ok, err}

-- A response as it is built; `build` of the library may refuse it.
pub record Response : Type 0 where
  pub status : ℕ
  pub content_type : Option String
  pub body : String

-- `serve_req`, given the encoded metrics and the encoder's format.
unfoldable pub serve_req :
    (Response → Result String Response) → String → Result String String → Result String Response
serve_req build format_type (ok text) =
    build (record { status = 200; content_type = some format_type; body = text })
serve_req build format_type (err e) =
    build (record { status = 500; content_type = none; body = "" })

-- The loop over the connections that come in: those that were spawned, and the error that ended the
-- loop; none while it still waits for the next one.
unfoldable pub serve : {S : Type 0} → List (Result String S) → List S × Option String
serve [] = ([], none)
serve (ok stream ∷ accepted) = let (spawned, e) = serve accepted in (stream ∷ spawned, e)
serve (err e ∷ accepted) = ([], some e)
