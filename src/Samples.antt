-- ===== src/Samples.antt =====
-- Concrete instances of the packages that the development takes as parameters, for the runs in the
-- test modules: they show that the laws asked of a package can hold together.
use mathlib.Core.List.Permᴰ
use grpcx.Common.{
  String, List, [], ◌∷◌, ◌++◌, ◌≡◌, ◌≢◌, refl, ap, Option, none, some, Map, lookup, store,
  lookup-store, RangeOrder, Bool, true, false, str_eq, if◌then◌else◌, string_equality, eq_iff,
  arith,
}
use grpcx.Platform.{Platform, Code, is_ok, Detail}
use grpcx.Errs.{GoError, app, foreign, wrapped, grpc_status, FromError}
use grpcx.Context.{MetadataPackage, Context}
use grpcx.Common.Result.{Result, success, failure}
use grpcx.Server.Options.{Parts}
use grpcx.Server.Endpoints.{Endpoint, header_call, body_call}
use grpcx.Server.Gateway.{GatewayPackage}

abbrev pub in_order {ℓ} : {A : Type ℓ} → RangeOrder A
in_order = record { visit = λ xs. xs; visit-perm = Permᴰ.refl }

-- grpc's metadata with keys that are taken as they are
abbrev pub Md : Type 0
Md = Map String (List String)

abbrev listed : Option (List String) → List String
listed none = []
listed (some vals) = vals

unfoldable pub get_md : Md → String → List String
unfolding lookup
get_md md k = listed (lookup k md)

unfoldable pub set_md : Md → String → String → Md
unfolding store
set_md md k v = store k (v ∷ []) md

pub get_md-set_self : (md : Md) (k v : String) → get_md (set_md md k v) k ≡ v ∷ []
unfolding get_md set_md
get_md-set_self md k v = ground (arith, lookup-store k k (v ∷ []) md, eq_iff k k)

pub get_md-set_ne : (md : Md) (k j v : String) → k ≢ j → get_md (set_md md k v) j ≡ get_md md j
unfolding get_md set_md
get_md-set_ne md k j v h = ground (arith, lookup-store k j (v ∷ []) md, eq_iff k j)

pub get_md-empty : (k : String) → get_md [] k ≡ []
unfolding get_md lookup
get_md-empty k = refl

abbrev pub sample_metadata : MetadataPackage
sample_metadata = record {
  MD = Md;
  empty_md = [];
  get = get_md;
  set = set_md;
  pairs = λ k v. set_md [] k v;
  copy = λ md. md;
  lower_key = λ k. k;
  HasLowerKeys = λ md. Unit;
  get-empty = get_md-empty;
  get-set_self = get_md-set_self;
  get-set_ne = get_md-set_ne;
  get-pairs = get_md-set_self [];
  get-copy = λ md k h. refl;
  empty-HasLowerKeys = tt;
  pairs-HasLowerKeys = λ k v. tt;
  set-HasLowerKeys = λ md k v h. tt;
  copy-HasLowerKeys = λ md. tt;
}

abbrev pub Ctx : Type 0
Ctx = Context sample_metadata

abbrev pub background : Ctx
background = record {
  incoming = none;
  claims_value = none;
  vendor_value = none;
  logger_value = none;
  deadline = none;
  peer = none;
  full_method = none;
}

-- a request with one metadata entry
abbrev pub request_with : String → String → Ctx
request_with k v = record background { incoming = some ((k, v ∷ []) ∷ []) }

-- grpc's status package, with statuses as triples that are their own errors, and strings for `any`
pub record SampleStatus : Type 0 where
  pub number : Code
  pub text : String
  pub details : List Detail

abbrev pub append_detail : SampleStatus → Detail → Option SampleStatus
append_detail s d =
    if is_ok s.number then none else some (record s { details = s.details ++ d ∷ [] })

abbrev pub status_err : SampleStatus → Option SampleStatus
status_err s = if is_ok s.number then none else some s

pub with_details_facts :
    (s : SampleStatus) (d : Detail) (t : SampleStatus)
    → append_detail s d ≡ some t
    → (t.number ≡ s.number) × (t.text ≡ s.text) × (t.details ≡ s.details ++ d ∷ [])
with_details_facts s d t h = ground arith

status_err-some : (s x : SampleStatus) → status_err s ≡ some x → x ≡ s
status_err-some s x h = ground arith

abbrev pub sample_platform : Platform
sample_platform = record {
  Any = String;
  sprint = λ v. v;
  sprintf = λ format args. format;
  of_string = λ s. s;
  any_order = in_order;
  string_order = in_order;
  Status = SampleStatus;
  Err = SampleStatus;
  new_status = λ c m. record { number = c; text = m; details = [] };
  code_of = λ s. s.number;
  message_of = λ s. s.text;
  details_of = λ s. s.details;
  with_details = append_detail;
  err_of = status_err;
  Encodable = λ d. Unit;
  code-new = λ c m. refl;
  message-new = λ c m. refl;
  details-new = λ c m. refl;
  with_details_ok = λ s d h. rw h refl;
  with_details_some = λ s d h enc. (record s { details = s.details ++ d ∷ [] }, rw h refl);
  with_details-eq-some = with_details_facts;
  err_ok = λ s h. rw h refl;
  err_some = λ s h. (s, rw h refl);
}

-- status.FromError of the errors of this package
abbrev pub sample_from_error : String → GoError sample_platform → SampleStatus × Bool
sample_from_error domain (app e) = (grpc_status sample_platform domain e, true)
sample_from_error domain (foreign x) = (x, true)
sample_from_error domain (wrapped m e) = sample_from_error domain e

pub sample_from_error-err :
    (domain : String) (s x : SampleStatus)
    → status_err s ≡ some x
    → sample_from_error domain (foreign x) ≡ (s, true)
sample_from_error-err domain s x h = ap (λ t. (t, true)) (status_err-some s x h)

abbrev pub sample_status_package : (domain : String) → FromError sample_platform domain
sample_status_package domain = record {
  from_error = sample_from_error domain;
  from_err = sample_from_error-err domain;
  from_app = λ e. refl;
}

-- a handler that answers 201 with a body
abbrev pub created : Endpoint
created r = record {
  calls = header_call 201 ∷ body_call "ok" ∷ header_call 500 ∷ [];
  panics = false;
  logged = [];
  recorded = [];
}

-- the page of promhttp
abbrev pub metrics_page : Endpoint
metrics_page r = record {
  calls = body_call "metrics" ∷ [];
  panics = false;
  logged = [];
  recorded = [];
}

-- a configuration whose parts are texts
abbrev pub all_strings : Parts
all_strings = record {
  OwnMuxOption = String;
  ServerOption = String;
  Unary = String;
  Stream = String;
  TlsConfig = String;
  TlsNextProto = String;
  ConnState = String;
  Service = String;
  otel_stats_handler = "otel";
  otel_handler = λ name next. next;
  metrics_endpoint = metrics_page;
  canonical = λ k. k;
  header_order = in_order;
  header_cache = [];
}

-- A mux is the list of the services at it; the service "bad" fails.
abbrev pub sample_error : GoError sample_platform
sample_error = foreign (record { number = Code.unknown; text = "bad"; details = [] })

abbrev pub service_mux :
    String → List String → String → Result (GoError sample_platform) (List String)
service_mux svr mux conn =
    if str_eq svr "bad" then failure sample_error else success (mux ++ svr ∷ [])

abbrev pub sample_gateway : GatewayPackage sample_platform all_strings
sample_gateway = record {
  Mux = List String;
  Conn = String;
  new_serve_mux = λ opts. [];
  mux_handler = λ mux. created;
  serve_routes = λ routes. created;
  cors_allow_all = λ h. h;
  cors_new = λ cfg h. h;
  register_with_handler = λ svr. some (service_mux svr);
  register_custom_routes = λ svr. none;
  itoa = λ n. "10080";
}
