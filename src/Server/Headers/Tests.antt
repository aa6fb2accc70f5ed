-- ===== src/Server/Headers/Tests.antt =====
-- A request with an Authorization header and a session cookie.
use grpcx.Common.{
  String, List, [], ◌∷◌, ◌++◌, ◌≡◌, ◌≢◌, refl, none, some, Option, lookup, if◌then◌else◌, str_eq,
  eq_iff, string_equality, arith,
}
use grpcx.Common.Text.{trim_prefix}
use grpcx.Common.Result.{success}
use grpcx.Context.{MetadataPackage, Context}
use grpcx.Http.{HttpHeader, all_values}
use grpcx.Samples.{sample_platform}
use grpcx.Server.Headers.Authorization.{Annotation, token_of, token_of-set_metadata_authorization}

-- metadata as the values of each key
abbrev Values : Type 0
Values = String → List String

abbrev set_values : Values → String → String → Values
set_values md k v j = if str_eq k j then v ∷ [] else md j

set_values_self : (md : Values) (k v : String) → set_values md k v k ≡ v ∷ []
set_values_self md k v = ground (arith, eq_iff k k)

set_values_ne : (md : Values) (k j v : String) → k ≢ j → set_values md k v j ≡ md j
set_values_ne md k j v h = ground (arith, eq_iff k j)

abbrev value_metadata : MetadataPackage
value_metadata = record {
  MD = Values;
  empty_md = λ k. [];
  get = λ md. md;
  set = set_values;
  pairs = λ k v. set_values (λ j. []) k v;
  copy = λ md. md;
  lower_key = λ k. k;
  HasLowerKeys = λ md. Unit;
  get-empty = λ k. refl;
  get-set_self = set_values_self;
  get-set_ne = set_values_ne;
  get-pairs = set_values_self (λ j. []);
  get-copy = λ md k h. refl;
  empty-HasLowerKeys = tt;
  pairs-HasLowerKeys = λ k v. tt;
  set-HasLowerKeys = λ md k v h. tt;
  copy-HasLowerKeys = λ md. tt;
}

abbrev as_is : String → String
as_is k = k

abbrev passed : HttpHeader → Values
passed h k = if str_eq k "authorization" then all_values as_is (lookup "Authorization" h) else []

abbrev joined : Annotation value_metadata as_is
joined = record {
  passed_through = passed;
  join_md = λ a b k. a k ++ b k;
  get-passed_through = λ h free. refl;
  get-join = λ a b k. refl;
  passed_through-HasLowerKeys = λ h. tt;
  join-HasLowerKeys = λ a b p q. tt;
}

abbrev background : Context value_metadata
background = record {
  incoming = none;
  claims_value = none;
  vendor_value = none;
  logger_value = none;
  deadline = none;
  peer = none;
  full_method = none;
}

abbrev session : HttpHeader → String → Option String
session h name = some "s1"

abbrev both : HttpHeader
both = ("Authorization", "Bearer t1" ∷ []) ∷ []

token_of-set_metadata_authorization_example :
    (token_of value_metadata as_is session joined sample_platform background both
      ≡ success (trim_prefix "Bearer t1" "Bearer "))
    × (token_of value_metadata as_is session joined sample_platform background [] ≡ success "s1")
unfolding lookup
token_of-set_metadata_authorization_example = (
  (token_of-set_metadata_authorization value_metadata as_is session joined sample_platform
        background both refl).0
      "Bearer t1" [] refl,
  (token_of-set_metadata_authorization value_metadata as_is session joined sample_platform
        background [] refl).1
      "s1" refl refl,
)
