-- ===== src/Server/Metrics/Registry.antt =====
-- The registration of collectors: mustRegister and getHTTPMetrics of server/gateway.go, and the init of
-- server/grpc.go. The registry of prometheus is a parameter.
use grpcx.Common.{
  ◌≡◌, refl, ap, Option, none, some, Bool, true, false, if◌then◌else◌, Option-cases, inl, inr,
}

-- What prometheus.Register answers: nil, an AlreadyRegisteredError, or another error.
pub data Registration (Collector : Type 0) : Type 0 where
  registered_now refused : Registration Collector
  already_registered : Collector → Registration Collector

-- prometheus: its registry, Register, and collectors, of which two kinds are used here; the type
-- assertions on a collector are `none` where they panic.
pub record Prometheus : Type 1 where
  pub Registry : Type 0
  pub Collector : Type 0
  pub CounterVec : Type 0
  pub HistogramVec : Type 0
  pub register : Registry → Collector → Registry × Registration Collector
  pub of_counter : CounterVec → Collector
  pub of_histogram : HistogramVec → Collector
  pub as_counter : Collector → Option CounterVec
  pub as_histogram : Collector → Option HistogramVec
  pub new_counter_vec : CounterVec
  pub new_histogram_vec : HistogramVec

module _ (Q : Prometheus) where
  open Q use {
    Registry, Collector, CounterVec, HistogramVec, register, of_counter, of_histogram, as_counter,
    as_histogram, new_counter_vec, new_histogram_vec,
  }

  -- mustRegister: the registry afterwards, and the collector in use, or `none` for a panic
  unfoldable pub must_register :
      {C : Type 0} → (C → Collector) → (Collector → Option C) → Registry → C → Registry × Option C
  must_register of_c as_c r c =
      let (r', answer) = register r (of_c c) in
      elim answer [
        | registered_now ↦ (r', some c)
        | already_registered existing ↦ (r', as_c existing)
        | refused ↦ (r', none)
      ]

  -- the init of server/grpc.go, for the metrics of the gRPC server: whether it panics
  unfoldable pub init : Registry → Collector → Registry × Bool
  init r server_metrics =
      let (r', answer) = register r server_metrics in
      elim answer [
        | registered_now ↦ (r', false)
        | already_registered existing ↦ (r', false)
        | refused ↦ (r', true)
      ]

  pub record HttpMetrics : Type 0 where
    pub req_total : CounterVec
    pub req_duration : HistogramVec

  -- the registry, whether globalHTTPMetricsOnce is done, and globalHTTPMetrics, `none` for nil
  pub record MetricsState : Type 0 where
    pub registry : Registry
    pub once_done : Bool
    pub global : Option HttpMetrics

  -- the function that sync.Once runs; the Once is done also where that function panics
  first_call : MetricsState → MetricsState × Option (Option HttpMetrics)
  unfolding must_register
  first_call s =
      let (r, total) = must_register of_counter as_counter s.registry new_counter_vec in
      elim total [
        | none ↦ (record s { registry = r; once_done = true }, none)
        | some req_total ↦
            let (r', duration) = must_register of_histogram as_histogram r new_histogram_vec in
            elim duration [
              | none ↦ (record s { registry = r'; once_done = true }, none)
              | some req_duration ↦
                  let m : HttpMetrics = record {
                    req_total = req_total;
                    req_duration = req_duration;
                  } in
                  (record { registry = r'; once_done = true; global = some m }, some (some m))
            ]
      ]

  -- getHTTPMetrics: the state afterwards and what it returns, or `none` for a panic
  unfoldable pub get_http_metrics : MetricsState → MetricsState × Option (Option HttpMetrics)
  unfolding first_call
  get_http_metrics s = let first = first_call s in if s.once_done then (s, some s.global) else first

  -- the state at the start of the program, over a registry
  abbrev pub fresh_state : Registry → MetricsState
  fresh_state r = record { registry = r; once_done = false; global = none }

  -- what the first call leaves behind: the Once is done, and the variable holds what it returned
  IsKept : MetricsState × Option (Option HttpMetrics) → Type 0
  IsKept (s, out) =
      (s.once_done ≡ true)
      × (out ≡ none → s.global ≡ none)
      × ((m : Option HttpMetrics) → out ≡ some m → s.global ≡ m)

  panic-IsKept : (r : Registry) → IsKept (record (fresh_state r) { once_done = true }, none)
  unfolding IsKept
  panic-IsKept r = (refl, λ e. refl, λ m e. cc)

  returned-IsKept :
      (r : Registry) (m : HttpMetrics)
      → IsKept (record { registry = r; once_done = true; global = some m }, some (some m))
  unfolding IsKept
  returned-IsKept r m = (refl, λ e. absurd cc, λ m' e. cc)

  first_call-IsKept : (r : Registry) → IsKept (first_call (fresh_state r))
  unfolding first_call
  first_call-IsKept r =
      let (r', total) = must_register of_counter as_counter r new_counter_vec in
      elim (Option-cases total) [
        | inl q ↦ rw (q, first_call) (panic-IsKept r')
        | inr (req_total, q) ↦
            let (r'', duration) = must_register of_histogram as_histogram r' new_histogram_vec in
            elim (Option-cases duration) [
              | inl q' ↦ rw (q, first_call) (rw (q', first_call) (panic-IsKept r''))
              | inr (req_duration, q') ↦
                  rw (q, first_call) (rw (q', first_call) (returned-IsKept r'' _))
            ]
      ]

  get_http_metrics-done :
      (s : MetricsState) → s.once_done ≡ true → get_http_metrics s ≡ (s, some s.global)
  unfolding get_http_metrics
  get_http_metrics-done s q = rw (q, get_http_metrics) refl

  -- getHTTPMetrics registers once: after the first call, whatever came of it, every later call leaves the
  -- registry as it is and returns the metrics that the first call returned, or nil where the first
  -- call panicked.
  pub get_http_metrics_lem :
      (r : Registry)
      → let (s, first) = get_http_metrics (fresh_state r) in
        let (s', second) = get_http_metrics s in
        (s' ≡ s)
        × (second ≡ some s.global)
        × (first ≡ none → s.global ≡ none)
        × ((m : Option HttpMetrics) → first ≡ some m → s.global ≡ m)
  unfolding get_http_metrics IsKept
  get_http_metrics_lem r =
      let f = first_call-IsKept r in
      let later = get_http_metrics-done (first_call (fresh_state r)).0 f.0 in
      (ap (λ t. t.0) later, ap (λ t. t.1) later, f.1, f.2)
