-- ===== src/Tracing/Tests.antt =====
-- An exporter that cannot be made.
use grpcx.Common.{String, List, [], ◌∷◌, ◌≡◌, refl, some, map}
use grpcx.Common.Result.{Result, failure}
use grpcx.Tracing.{
  ExporterOption, Globals, noop_provider, shutdown_nothing, Setting, service_name_setting,
  endpoint_setting, option_of, setup, setup_lem, wrapping,
}

abbrev unreachable : List ExporterOption → Result String String
unreachable opts = failure "no collector"

abbrev settings : List Setting
settings = service_name_setting "shop" ∷ endpoint_setting "collector:4317" ∷ []

abbrev globals : Globals String
globals = record { provider = noop_provider; propagators = [] }

setup_lem_example : setup unreachable (map option_of settings) globals ≡ (
  globals,
  shutdown_nothing,
  some
      (wrapping "tracing: failed to create OTLP exporter (falling back to no-op): " "no collector"),
)
setup_lem_example = (setup_lem unreachable settings globals).0 "no collector" refl
