-- ===== src/Config.antt =====
-- config/config.go. The package viper is a parameter; a panic carries its text.
mod Tests
use grpcx.Common.{if◌then◌else◌, str_eq, String, ◌≡◌, Option, none, some}
use grpcx.Common.Text.{◌+++◌}
use grpcx.Common.Result.{Result, success, failure}

-- an error behind a message (fmt.Errorf with %w)
pub data LoadError (E : Type 0) : Type 0 where
  read_default_config : E → LoadError E
  unmarshal_config : E → LoadError E

abbrev pub load_error_text : {E : Type 0} → (E → String) → LoadError E → String
load_error_text text (read_default_config e) = "read default config: " +++ text e
load_error_text text (unmarshal_config e) = "unmarshal config: " +++ text e

-- a value of the file under a variable of the environment
abbrev pub overridden : Option String → Option String → Option String
overridden var none = none
overridden none (some v) = some v
overridden (some e) (some v) = some e

-- a variable counts if it is set to a text that is not empty
abbrev pub not_empty : Option String → Option String
not_empty none = none
not_empty (some v) = if str_eq v "" then none else some v

-- viper: New, SetConfigType, ReadConfig, SetEnvKeyReplacer for one pair, and AutomaticEnv. `file_value`
-- is what the configuration has for a key, `env_name` the variable that a key is looked up by, and
-- `value` what Unmarshal decodes: for a key of the configuration, the variable if it is set
-- and not empty (AllowEmptyEnv is off by default).
pub record Viper (E : Type 0) : Type 1 where
  pub State : Type 0
  pub new_viper : State
  pub set_config_type : State → String → State
  pub read_config : State → String → Result E State
  pub set_env_key_replacer : State → String → String → State
  pub automatic_env : State → State
  pub replace_upper : String → String → String → String
  pub file_value : State → String → Option String
  pub env_name : State → String → String
  pub value : State → (String → Option String) → String → Option String
  pub file_value-replacer :
      (s : State) (a b k : String) → file_value (set_env_key_replacer s a b) k ≡ file_value s k
  pub env_name-replacer :
      (s : State) (a b k : String) → env_name (set_env_key_replacer s a b) k ≡ replace_upper a b k
  pub value-automatic_env :
      (s : State) (env : String → Option String) (k : String)
      → value (automatic_env s) env k ≡ overridden (not_empty (env (env_name s k))) (file_value s k)

module _ {E : Type 0} (V : Viper E) where
  open V use {
    State, new_viper, set_config_type, read_config, set_env_key_replacer, automatic_env, value,
    replace_upper, file_value, env_name, file_value-replacer, env_name-replacer,
    value-automatic_env,
  }

  -- Load, where `decode` fills a configuration from the values of the keys
  unfoldable pub load :
      {T : Type 0}
      → ((String → Option String) → Result E T)
      → String
      → (String → Option String)
      → Result (LoadError E) T
  load decode default_yaml env =
      elim (read_config (set_config_type new_viper "yaml") default_yaml) [
        | failure err ↦ failure (read_default_config err)
        | success v ↦
            let v' = automatic_env (set_env_key_replacer v "." "__") in
            elim (decode (value v' env)) [
              | failure err ↦ failure (unmarshal_config err)
              | success cfg ↦ success cfg
            ]
      ]

  -- MustLoad: the configuration, or the text of the panic
  unfoldable pub must_load :
      {T : Type 0}
      → (E → String)
      → ((String → Option String) → Result E T)
      → String
      → (String → Option String)
      → Result String T
  unfolding load
  must_load text decode default_yaml env = elim (load decode default_yaml env) [
    | failure err ↦ failure ("config: failed to load: " +++ load_error_text text err)
    | success cfg ↦ success cfg
  ]

  -- the values that a configuration is filled from
  abbrev pub merged : State → (String → Option String) → String → Option String
  merged v env k = overridden (not_empty (env (replace_upper "." "__" k))) (file_value v k)
