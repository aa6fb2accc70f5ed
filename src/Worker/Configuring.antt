-- ===== src/Worker/Configuring.antt =====
-- The configurations of worker/config.go, worker/server.go and worker/scheduler.go.
use grpcx.Common.{
  zero, suc, String, List, [], ◌∷◌, ◌++◌, ◌≡◌, refl, ◌∙◌, ap, Option, none, some, Map, Bool, true,
  false, if◌then◌else◌, not, str_eq, Bool-cases, inl, inr,
}
use grpcx.Common.Integers.{ℤ, pos, negsuc}
use grpcx.Common.Result.{Result, success, failure, Result-cases}

-- RedisConfig; asynq's RedisClientOpt has the same fields, its others are zero
pub record RedisConfig : Type 0 where
  pub addr : String
  pub password : String
  pub db : ℤ

pub record RedisClientOpt : Type 0 where
  pub client_addr : String
  pub client_password : String
  pub client_db : ℤ

unfoldable pub client_opt : RedisConfig → RedisClientOpt
client_opt c = record { client_addr = c.addr; client_password = c.password; client_db = c.db }

-- serverConfig and its options
pub record QueueConfig : Type 0 where
  pub concurrency : ℤ
  pub queues : Map String ℤ

abbrev pub default_server_config : QueueConfig
default_server_config = record {
  concurrency = pos 10;
  queues = ("critical", pos 6) ∷ ("default", pos 3) ∷ ("low", pos 1) ∷ [];
}

abbrev pub ServerOption : Type 0
ServerOption = QueueConfig → QueueConfig

unfoldable pub with_concurrency : ℤ → ServerOption
with_concurrency n c = record c { concurrency = n }

unfoldable pub with_queues : Map String ℤ → ServerOption
with_queues queues c = record c { queues = queues }

-- `for _, o := range opts { o(c) }`
abbrev pub apply_options {ℓ} : {C : Type ℓ} → List (C → C) → C → C
apply_options [] c = c
apply_options (o ∷ opts) c = apply_options opts (o c)

-- asynq.Config as NewServer fills it, with what it connects to
pub record WorkerConfig : Type 0 where
  pub redis : RedisClientOpt
  pub queue_config : QueueConfig

unfoldable pub new_server_config : RedisConfig → List ServerOption → WorkerConfig
unfolding client_opt
new_server_config cfg opts = record {
  redis = client_opt cfg;
  queue_config = apply_options opts default_server_config;
}

-- ServerConfig, and the options that NewServerFromConfig derives from it
pub record ServerConfig : Type 0 where
  pub config_concurrency : ℤ
  pub config_queues : Map String ℤ

abbrev pub is_positive : ℤ → Bool
is_positive (pos zero) = false
is_positive (pos (suc n)) = true
is_positive (negsuc n) = false

abbrev pub is_empty {ℓ} : {A : Type ℓ} → List A → Bool
is_empty [] = true
is_empty (x ∷ xs) = false

unfoldable pub new_server_from_config :
    RedisConfig → ServerConfig → List ServerOption → WorkerConfig
unfolding new_server_config with_concurrency with_queues
new_server_from_config redis cfg opts =
    let first =
      if is_positive cfg.config_concurrency
      then with_concurrency cfg.config_concurrency ∷ []
      else [] in
    let derived =
      if is_empty cfg.config_queues then first else first ++ with_queues cfg.config_queues ∷ [] in
    new_server_config redis (derived ++ opts)

apply_options-append {ℓ} :
    {C : Type ℓ} (os ps : List (C → C)) (c : C)
    → apply_options (os ++ ps) c ≡ apply_options ps (apply_options os c)
apply_options-append [] ps c = refl
apply_options-append (o ∷ os) ps c = apply_options-append os ps (o c)

-- asynq.SchedulerOpts: the time zone, nil for UTC; the logger is always the bridge to slog
module _ (Location : Type 0) where
  pub record SchedulerOpts : Type 0 where
    pub location : Option Location

  abbrev pub SchedulerOption : Type 0
  SchedulerOption = SchedulerOpts → SchedulerOpts

  unfoldable pub with_scheduler_location : Option Location → SchedulerOption
  with_scheduler_location loc o = record o { location = loc }

  pub record SchedulerSetup : Type 0 where
    pub scheduler_redis : RedisClientOpt
    pub scheduler_opts : SchedulerOpts

  unfoldable pub new_scheduler : RedisConfig → List SchedulerOption → SchedulerSetup
  unfolding client_opt
  new_scheduler cfg opts = record {
    scheduler_redis = client_opt cfg;
    scheduler_opts = apply_options opts (record { location = none });
  }

  -- the options that NewSchedulerFromConfig derives: none from a zone that cannot be loaded
  derived_location : {E : Type 0} → Result E Location → List SchedulerOption
  unfolding with_scheduler_location
  derived_location (failure err) = []
  derived_location (success loc) = with_scheduler_location (some loc) ∷ []

  unfoldable pub new_scheduler_from_config :
      {E : Type 0}
      → (String → Result E Location)
      → RedisConfig
      → String
      → List SchedulerOption
      → SchedulerSetup
  unfolding new_scheduler derived_location
  new_scheduler_from_config load_location redis config_location opts =
      let derived =
        if not (str_eq config_location "")
        then derived_location (load_location config_location)
        else [] in
      new_scheduler redis (derived ++ opts)

  abbrev pub loaded : {E : Type 0} → Result E Location → Option Location
  loaded (failure err) = none
  loaded (success loc) = some loc

  zone_lem :
      {E : Type 0} (load_location : String → Result E Location) (redis : RedisConfig)
      (config_location : String) (opts : List SchedulerOption)
      → (new_scheduler_from_config load_location redis config_location opts).scheduler_opts
        ≡ apply_options opts (record {
          location =
              if str_eq config_location "" then none else loaded (load_location config_location);
        })
  unfolding new_scheduler_from_config new_scheduler with_scheduler_location derived_location
  zone_lem load_location redis config_location opts =
      elim (Bool-cases (str_eq config_location "")) [
        | inl q ↦ rw q refl
        | inr q ↦ elim (Result-cases (load_location config_location)) [
          | inl (err, r) ↦ rw (q, r, derived_location) refl
          | inr (loc, r) ↦ rw (q, r, derived_location) refl
        ]
      ]

  -- The time zone of a scheduler from a configuration is the configured one if it has a name and can be
  -- loaded, and otherwise UTC (nil), without an error; the options that are given explicitly are
  -- applied to that, so that a zone given last by an option is the one used.
  pub new_scheduler_from_config_lem :
      {E : Type 0} (load_location : String → Result E Location) (redis : RedisConfig)
      (config_location : String) (opts : List SchedulerOption) (own : Option Location)
      → let zone =
          if str_eq config_location "" then none else loaded (load_location config_location) in
        let setup = λ (os : List SchedulerOption).
          (new_scheduler_from_config load_location redis config_location os).scheduler_opts in
        (setup opts ≡ apply_options opts (record { location = zone }))
        × ((setup (opts ++ with_scheduler_location own ∷ [])).location ≡ own)
  unfolding new_scheduler_from_config new_scheduler with_scheduler_location derived_location
  new_scheduler_from_config_lem load_location redis config_location opts own =
      let last = opts ++ with_scheduler_location own ∷ [] in
      (
        zone_lem load_location redis config_location opts,
        ap (λ t. t.location)
            (zone_lem load_location redis config_location last
              ∙ apply_options-append opts (with_scheduler_location own ∷ []) _),
      )

-- A worker server from a configuration has the configured concurrency if that is positive and the
-- configured queues if there are any, and the defaults otherwise: ten tasks at a time, and the queues
-- critical, default and low with weights 6, 3 and 1. The explicit options are applied to that, in
-- their order, so that they win over the configuration.
pub new_server_from_config_lem :
    (redis : RedisConfig) (cfg : ServerConfig) (opts : List ServerOption)
    → let own = if is_positive cfg.config_concurrency then cfg.config_concurrency else pos 10 in
      let queues =
        if is_empty cfg.config_queues
        then ("critical", pos 6) ∷ ("default", pos 3) ∷ ("low", pos 1) ∷ []
        else cfg.config_queues in
      new_server_from_config redis cfg opts ≡ record {
        redis = client_opt redis;
        queue_config = apply_options opts (record { concurrency = own; queues = queues });
      }
unfolding new_server_from_config new_server_config with_concurrency with_queues
new_server_from_config_lem redis cfg opts = elim (Bool-cases (is_positive cfg.config_concurrency)) [
  | inl p ↦ elim (Bool-cases (is_empty cfg.config_queues)) [
    | inl q ↦ rw (p, q) refl
    | inr q ↦ rw (p, q) refl
  ]
  | inr p ↦ elim (Bool-cases (is_empty cfg.config_queues)) [
    | inl q ↦ rw (p, q) refl
    | inr q ↦ rw (p, q) refl
  ]
]
