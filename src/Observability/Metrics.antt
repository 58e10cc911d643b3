-- ===== src/Observability/Metrics.antt =====
-- gateway/internal/observability/metrics.go: the calls on the collectors, which are the Prometheus
-- library's. `SpendWriteDropped` is not among them: only the queue of the spend writer has it.
use budget_governor.Prelude.{ℕ, String, List, [], ◌∷◌}

-- Adding one, `Add`, `Observe` (of nanoseconds here, not of seconds), or `Set`.
pub data Metric (F : Type 0) : Type 0 where
  requests_total : String → String → String → Metric F
  request_duration : String → String → String → ℕ → Metric F
  tokens_total : String → String → String → F → Metric F
  cost_usd_total : String → String → String → F → Metric F
  rejections_total : String → String → Metric F
  bucket_saturation : String → String → F → Metric F
  advisor_invocations : String → String → Metric F
  provider_errors_total : String → String → Metric F

-- The name of a collector behind its namespace and subsystem, and its labels with their values.
unfoldable pub series : {F : Type 0} → Metric F → String × List (String × String)
series (requests_total tenant model decision) =
    ("requests_total", ("tenant_id", tenant) ∷ ("model", model) ∷ ("decision", decision) ∷ [])
series (request_duration tenant model decision ns) = (
  "request_duration_seconds",
  ("tenant_id", tenant) ∷ ("model", model) ∷ ("decision", decision) ∷ [],
)
series (tokens_total tenant model direction n) =
    ("tokens_total", ("tenant_id", tenant) ∷ ("model", model) ∷ ("direction", direction) ∷ [])
series (cost_usd_total tenant agent model usd) =
    ("cost_usd_total", ("tenant_id", tenant) ∷ ("agent_id", agent) ∷ ("model", model) ∷ [])
series (rejections_total tenant reason) =
    ("rejections_total", ("tenant_id", tenant) ∷ ("reason", reason) ∷ [])
series (bucket_saturation tenant scope ratio) =
    ("bucket_saturation_ratio", ("tenant_id", tenant) ∷ ("scope", scope) ∷ [])
series (advisor_invocations tenant outcome) =
    ("advisor_invocations_total", ("tenant_id", tenant) ∷ ("outcome", outcome) ∷ [])
series (provider_errors_total provider status_class) =
    ("provider_errors_total", ("provider", provider) ∷ ("status_class", status_class) ∷ [])
