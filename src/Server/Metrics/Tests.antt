-- ===== src/Server/Metrics/Tests.antt =====
-- The collectors, in a registry that knows the counter of another part of the program.
use grpcx.Common.{
  String, List, [], ◌∷◌, ◌++◌, ◌≡◌, refl, some, if◌then◌else◌, contains, string_equality,
}
use grpcx.Server.Metrics.Registry.{
  Prometheus, registered_now, already_registered, must_register, get_http_metrics, fresh_state,
}

-- collectors are their names
abbrev by_name : Prometheus
by_name = record {
  Registry = List String;
  Collector = String;
  CounterVec = String;
  HistogramVec = String;
  register =
      λ r c. if contains r c then (r, already_registered c) else (r ++ c ∷ [], registered_now);
  of_counter = λ c. c;
  of_histogram = λ c. c;
  as_counter = λ c. some c;
  as_histogram = λ c. some c;
  new_counter_vec = "http_requests_total";
  new_histogram_vec = "http_request_duration_seconds";
}

first_and_second :
    let (s, first) = get_http_metrics by_name (fresh_state by_name ("http_requests_total" ∷ [])) in
    let (s', second) = get_http_metrics by_name s in
    (first ≡ second) × (s'.registry ≡ "http_requests_total" ∷ "http_request_duration_seconds" ∷ [])
unfolding get_http_metrics must_register
first_and_second = (refl, refl)
