-- ===== src/Config/Tests.antt =====
-- A configuration whose one key is overridden by the environment.
use grpcx.Common.{String, refl, Option, none, some, if◌then◌else◌, str_eq}
use grpcx.Common.Result.{Result, success, failure}
use grpcx.Config.{Viper, overridden, not_empty}

-- a state is the text of the file, which is the value of every key, the pair of the replacer, and
-- whether the environment is read
record State : Type 0 where
  file : String
  from : String
  to : String

-- The variable of a key in this sample: PG__HOST for every key under the pair of the program.
abbrev name_for : String → String → String → String
name_for a b k = if str_eq a "." then "PG__HOST" else k

abbrev sample_viper : Viper String
sample_viper = record {
  State = State;
  new_viper = record { file = ""; from = ""; to = "" };
  set_config_type = λ s t. s;
  read_config = λ s text. success (record s { file = text });
  set_env_key_replacer = λ s a b. record s { from = a; to = b };
  automatic_env = λ s. s;
  replace_upper = name_for;
  file_value = λ s k. some s.file;
  env_name = λ s k. name_for s.from s.to k;
  value = λ s env k. overridden (not_empty (env (name_for s.from s.to k))) (some s.file);
  file_value-replacer = λ s a b k. refl;
  env_name-replacer = λ s a b k. refl;
  value-automatic_env = λ s env k. refl;
}

abbrev environment : String → Option String
environment k = if str_eq k "PG__HOST" then some "db.prod.internal" else none

abbrev host_or_fail : Option String → Result String String
host_or_fail none = failure "no host"
host_or_fail (some host) = success host

abbrev decode : (String → Option String) → Result String String
decode values = host_or_fail (values "pg.host")

abbrev own_text : String → String
own_text e = e
