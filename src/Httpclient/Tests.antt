-- ===== src/Httpclient/Tests.antt =====
-- A client from a configuration.
use grpcx.Common.{List, [], ◌∷◌, ◌≡◌, some, true, String}
use grpcx.Common.Integers.{pos}
use grpcx.Httpclient.{ClientConfig, ClientOption, set_timeout, new_from_config}
use grpcx.Httpclient.LastCall.{last_set}
use grpcx.Httpclient.Precedence.{timeout_of, insecure_of, new_from_config_lem}

abbrev config : ClientConfig
config = record {
  base_url = "http://api";
  timeout = 0;
  retry_count = pos 3;
  retry_wait_time = 0;
  retry_max_wait = 900;
  bearer_token = "";
  api_key = "k1";
  api_key_header = "";
  user_agent = "";
  tls_insecure = true;
}

abbrev five_seconds : List ClientOption
five_seconds = (set_timeout 5000 ∷ []) ∷ []

abbrev as_is : String → String
as_is k = k

abbrev basic : String → String → String
basic user password = user

new_from_config_lem_example :
    (last_set timeout_of (new_from_config config five_seconds) ≡ some 5000)
    × (last_set insecure_of (new_from_config config five_seconds) ≡ some true)
new_from_config_lem_example = (
  (new_from_config_lem as_is basic config five_seconds "X-API-Key").1,
  (new_from_config_lem as_is basic config five_seconds "X-API-Key").5,
)
