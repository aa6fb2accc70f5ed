-- ===== src/Tracing.antt =====
-- tracing/tracing.go. The exporter and the tracer providers of OpenTelemetry are parameters; the global
-- provider and propagator are the state.
mod Tests
use grpcx.Common.{
  String, List, [], ◌∷◌, ◌++◌, ◌≡◌, refl, ap, Option, none, some, Bool, true, if◌then◌else◌, arith,
  map, ◌∙◌,
}
use grpcx.Common.Result.{Result, success, failure, Result-cases}

pub record TracingConfig : Type 0 where
  pub service_name : String
  pub otlp_endpoint : String
  pub insecure : Bool

abbrev pub TracingOption : Type 0
TracingOption = TracingConfig → TracingConfig

abbrev pub default_config : TracingConfig
default_config = record {
  service_name = "grpc-service";
  otlp_endpoint = "localhost:4317";
  insecure = true;
}

unfoldable pub with_service_name : String → TracingOption
with_service_name name c = record c { service_name = name }

unfoldable pub with_otlp_endpoint : String → TracingOption
with_otlp_endpoint endpoint c = record c { otlp_endpoint = endpoint }

unfoldable pub with_insecure : TracingOption
with_insecure c = record c { insecure = true }

-- options of the exporter, with the dial options of grpc
pub data DialOption : Type 0 where
  insecure_credentials : DialOption

pub data ExporterOption : Type 0 where
  with_endpoint : String → ExporterOption
  with_dial_option : List DialOption → ExporterOption
  exporter_insecure : ExporterOption

-- the options of the SDK's provider, with its samplers and its resource
pub data Sampler : Type 0 where
  always_sample never_sample parent_based : Sampler

pub data ProviderOption (X : Type 0) : Type 0 where
  with_batcher : X → ProviderOption X
  with_sampler : Sampler → ProviderOption X
  with_resource : List (String × String) → ProviderOption X

-- a tracer provider: the one that does nothing, or one of the SDK, by its options
pub data Provider (X : Type 0) : Type 0 where
  noop_provider : Provider X
  sdk_provider : List (ProviderOption X) → Provider X

-- the propagators of a composite one
pub data Propagator : Type 0 where
  trace_context baggage : Propagator

pub record Globals (X : Type 0) : Type 0 where
  pub provider : Provider X
  pub propagators : List Propagator

-- what Setup returns as its shutdown function: one that does nothing, or that of the provider
pub data Shutdown (X : Type 0) : Type 0 where
  shutdown_nothing : Shutdown X
  shutdown_provider : Provider X → Shutdown X

-- an error behind a message (fmt.Errorf with %w)
pub data SetupError (E : Type 0) : Type 0 where
  wrapping : String → E → SetupError E

abbrev pub apply_options : List TracingOption → TracingConfig → TracingConfig
apply_options [] c = c
apply_options (o ∷ opts) c = apply_options opts (o c)

unfoldable pub exporter_options : TracingConfig → List ExporterOption
exporter_options cfg =
    let dial_opts = if cfg.insecure then insecure_credentials ∷ [] else [] in
    let opts = with_endpoint cfg.otlp_endpoint ∷ with_dial_option dial_opts ∷ [] in
    if cfg.insecure then opts ++ exporter_insecure ∷ [] else opts

-- Setup, over otlptracegrpc.New: the globals afterwards, the shutdown function and the error
unfoldable pub setup :
    {E X : Type 0}
    → (List ExporterOption → Result E X)
    → List TracingOption
    → Globals X
    → Globals X × Shutdown X × Option (SetupError E)
unfolding exporter_options
setup new_exporter opts globals =
    elim (new_exporter (exporter_options (apply_options opts default_config))) [
      | failure err ↦ (
        record globals { provider = noop_provider },
        shutdown_nothing,
        some (wrapping "tracing: failed to create OTLP exporter (falling back to no-op): " err),
      )
      | success exporter ↦
          let tp = sdk_provider (with_batcher exporter ∷ with_sampler always_sample ∷ []) in
          (
            record { provider = tp; propagators = trace_context ∷ baggage ∷ [] },
            shutdown_provider tp,
            none,
          )
    ]

-- the options of the package
pub data Setting : Type 0 where
  service_name_setting endpoint_setting : String → Setting
  insecure_setting : Setting

abbrev pub option_of : Setting → TracingOption
option_of (service_name_setting name) = with_service_name name
option_of (endpoint_setting endpoint) = with_otlp_endpoint endpoint
option_of insecure_setting = with_insecure

abbrev pub last_endpoint : List Setting → String → String
last_endpoint [] endpoint = endpoint
last_endpoint (service_name_setting name ∷ more) endpoint = last_endpoint more endpoint
last_endpoint (endpoint_setting own ∷ more) endpoint = last_endpoint more own
last_endpoint (insecure_setting ∷ more) endpoint = last_endpoint more endpoint

-- the options of an exporter without TLS
abbrev pub plain_exporter : String → List ExporterOption
plain_exporter endpoint =
    with_endpoint endpoint ∷ with_dial_option (insecure_credentials ∷ []) ∷ exporter_insecure ∷ []

exporter_options-apply :
    (settings : List Setting) (c : TracingConfig)
    → c.insecure ≡ true
    → exporter_options (apply_options (map option_of settings) c)
      ≡ plain_exporter (last_endpoint settings c.otlp_endpoint)
unfolding exporter_options with_service_name with_otlp_endpoint with_insecure
exporter_options-apply [] c h = ground (arith, h)
exporter_options-apply (service_name_setting name ∷ more) c h =
    exporter_options-apply more (with_service_name name c) h
exporter_options-apply (endpoint_setting own ∷ more) c h =
    exporter_options-apply more (with_otlp_endpoint own c) h
exporter_options-apply (insecure_setting ∷ more) c h =
    exporter_options-apply more (with_insecure c) refl

-- what the options of a provider say: its exporters, its last sampler, and its last resource
abbrev pub exporters : {X : Type 0} → List (ProviderOption X) → List X
exporters [] = []
exporters (with_batcher x ∷ options) = x ∷ exporters options
exporters (_ ∷ options) = exporters options

abbrev pub sampler : {X : Type 0} → Option Sampler → List (ProviderOption X) → Option Sampler
sampler found [] = found
sampler found (with_sampler s ∷ options) = sampler (some s) options
sampler found (_ ∷ options) = sampler found options

abbrev pub resource :
    {X : Type 0}
    → Option (List (String × String))
    → List (ProviderOption X)
    → Option (List (String × String))
resource found [] = found
resource found (with_resource attributes ∷ options) = resource (some attributes) options
resource found (_ ∷ options) = resource found options

-- Whatever options of the package are given, the exporter is made without TLS for the last endpoint
-- given, localhost:4317 without one. If it cannot be made, its error is returned behind a message,
-- the global provider is the one that does nothing, the propagators stay, and the shutdown function
-- does nothing. Otherwise the global provider is one of the SDK with this exporter as the only one and
-- the sampler that always samples, and without a resource, so that the service name reaches neither;
-- W3C trace context and baggage are propagated, and the shutdown function is that provider's.
pub setup_lem :
    {E X : Type 0} (new_exporter : List ExporterOption → Result E X) (settings : List Setting)
    (globals : Globals X)
    → let made = new_exporter (plain_exporter (last_endpoint settings "localhost:4317")) in
      let ran = setup new_exporter (map option_of settings) globals in
      ((err : E)
        → made ≡ failure err
        → ran ≡ (
          record globals { provider = noop_provider },
          shutdown_nothing,
          some (wrapping "tracing: failed to create OTLP exporter (falling back to no-op): " err),
        ))
      × ((exporter : X)
          → made ≡ success exporter
          → (options : List (ProviderOption X)) × (ran ≡ (
            record { provider = sdk_provider options; propagators = trace_context ∷ baggage ∷ [] },
            shutdown_provider (sdk_provider options),
            none,
          ))
            × (exporters options ≡ exporter ∷ [])
            × (sampler none options ≡ some always_sample)
            × (resource none options ≡ none))
unfolding setup
setup_lem new_exporter settings globals =
    let same = ap new_exporter (exporter_options-apply settings default_config refl) in
    (
      λ err q. rw (same ∙ q, setup) refl,
      λ exporter q. (
        with_batcher exporter ∷ with_sampler always_sample ∷ [],
        rw (same ∙ q, setup) refl,
        refl,
        refl,
        refl,
      ),
    )
