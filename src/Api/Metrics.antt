-- ===== src/Api/Metrics.antt =====
-- src/api/middleware/metrics.rs: the exporter, its endpoint and the middleware that counts requests.
-- What the exporter prints is a parameter, `render`.
use aether_relay.Prelude.{String, Option, none, some, List, ◌∷◌}
use aether_relay.Store.{Metric, http_requests, World}
use aether_relay.Api.Http.{text, HttpResponse}

-- `PROMETHEUS_HANDLE`, which is set at most once.
abbrev pub Exporter : Type 0
Exporter = Option (List Metric → String)

unfoldable pub install_prometheus_exporter : (List Metric → String) → Exporter → Exporter
install_prometheus_exporter render none = some render
install_prometheus_exporter render (some handle) = some handle

unfoldable pub metrics_endpoint : Exporter → List Metric → HttpResponse
metrics_endpoint (some handle) metrics = record { status = 200; body = text (handle metrics) }
metrics_endpoint none metrics = record { status = 404; body = text "metrics disabled" }

-- `next` is the handler; the label of the path is the template of its route.
unfoldable pub track_metrics :
    String → String → (World → HttpResponse × World) → World → HttpResponse × World
track_metrics path method next w =
    let (res, w') = next w in
    (res, record w' { metrics = http_requests method path res.status ∷ w'.metrics })
