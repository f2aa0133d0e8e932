-- ===== src/Resources/Workload/Probes.antt =====
-- The port and the probes of internal/resources/workload.go.
use paperless_ngx_operator.Prelude.{ℤ, pos, String, [], ◌∷◌}
use paperless_ngx_operator.Kube.Objects.{Probe}

abbrev pub paperless_port : ℤ
paperless_port = pos 8000

abbrev pub readiness_initial_delay_seconds : ℤ
readiness_initial_delay_seconds = pos 10

abbrev pub readiness_period_seconds : ℤ
readiness_period_seconds = pos 10

abbrev pub readiness_timeout_seconds : ℤ
readiness_timeout_seconds = pos 5

abbrev pub readiness_failure_threshold : ℤ
readiness_failure_threshold = pos 30

abbrev pub liveness_initial_delay_seconds : ℤ
liveness_initial_delay_seconds = pos 60

abbrev pub liveness_period_seconds : ℤ
liveness_period_seconds = pos 20

abbrev pub liveness_timeout_seconds : ℤ
liveness_timeout_seconds = pos 5

abbrev pub liveness_failure_threshold : ℤ
liveness_failure_threshold = pos 30

unfoldable pub paperless_probe : String → ℤ → ℤ → ℤ → ℤ → Probe
paperless_probe host initial_delay period timeout failure_threshold = record {
  path = "/";
  port = paperless_port;
  http_headers = ("Host", host) ∷ [];
  initial_delay_seconds = initial_delay;
  period_seconds = period;
  timeout_seconds = timeout;
  failure_threshold = failure_threshold;
}
