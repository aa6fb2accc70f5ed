-- ===== src/Worker.antt =====
-- worker/*.go: typed tasks, the client, the worker server and its log. The queue package asynq and
-- encoding/json are parameters. A handler gives the lines that it logs and its error, if any.
pub mod Processing
pub mod Configuring
mod Tests
use grpcx.Common.{ℕ, String, List, [], ◌∷◌, ◌++◌, ◌≡◌, Option, none, some, if◌then◌else◌, str_eq}
use grpcx.Common.Result.{Result, success, failure}
use grpcx.Server.Logging.{SlogLevel, debug, info, warn, error}

-- asynq.Task: the type, the payload and the options
pub record WireTask (O : Type 0) : Type 0 where
  pub wire_type : String
  pub payload : String
  pub options : List O

-- json.Marshal and json.Unmarshal at a payload type whose values survive the way there and back
pub record JsonCodec (E P : Type 0) : Type 0 where
  pub marshal : P → Result E String
  pub unmarshal : String → Result E P
  pub unmarshal-marshal : (p : P) (b : String) → marshal p ≡ success b → unmarshal b ≡ success p

-- Task[P] and NewTask
pub record Task (P : Type 0) : Type 0 where
  pub type_name : String

unfoldable pub new_task : {P : Type 0} → String → Task P
new_task type_name = record { type_name = type_name }

module _ (E O Ctx : Type 0) where
  -- The lines of a task: those of loggingMiddleware with type, ID, retry count and, at the end, the
  -- elapsed milliseconds, and those that the handler logs itself.
  pub data TaskLine : Type 0 where
    task_started : String → String → ℕ → TaskLine
    task_failed : String → String → ℕ → ℕ → E → TaskLine
    task_completed : String → String → ℕ → ℕ → TaskLine
    own_line : String → TaskLine

  -- an asynq.Handler
  abbrev pub TaskHandler : Type 0
  TaskHandler = Ctx → WireTask O → List TaskLine × Option E

  module _ {P : Type 0} (codec : JsonCodec E P) where
    open codec use {marshal, unmarshal}

    -- Task.New
    unfoldable pub task_new : Task P → P → List O → Result E (WireTask O)
    task_new t payload opts = elim (marshal payload) [
      | failure err ↦ failure err
      | success b ↦ success (record { wire_type = t.type_name; payload = b; options = opts })
    ]

    -- Task.Handler
    unfoldable pub task_handler : (Ctx → P → List TaskLine × Option E) → TaskHandler
    task_handler fn ctx task = elim (unmarshal task.payload) [
      | failure err ↦ ([], some err)
      | success p ↦ fn ctx p
    ]

    -- Enqueue, over the EnqueueContext of the client `send`
    unfoldable pub enqueue :
        {I : Type 0} → (Ctx → WireTask O → Result E I) → Ctx → Task P → P → List O → Result E I
    unfolding task_new
    enqueue send ctx task payload opts = elim (task_new task payload opts) [
      | failure err ↦ failure err
      | success t ↦ send ctx t
    ]

    -- Schedule, over the Register of the scheduler: the entry's ID, and the scheduler afterwards
    unfoldable pub schedule :
        {S : Type 0}
        → (S → String → WireTask O → S × Result E String)
        → S
        → String
        → Task P
        → P
        → List O
        → S × Result E String
    unfolding task_new
    schedule register s cron_expr task payload opts = elim (task_new task payload opts) [
      | failure err ↦ (s, failure err)
      | success t ↦ register s cron_expr t
    ]

  -- what GetTaskID, GetRetryCount and the clock report
  module _ (task_id : Ctx → String) (retry_count : Ctx → ℕ)
      (elapsed_ms : Ctx → WireTask O → ℕ) where
    last_line : Ctx → WireTask O → Option E → TaskLine
    last_line ctx task none =
        task_completed task.wire_type (task_id ctx) (retry_count ctx) (elapsed_ms ctx task)
    last_line ctx task (some err) =
        task_failed task.wire_type (task_id ctx) (retry_count ctx) (elapsed_ms ctx task) err

    unfoldable pub logging_middleware : TaskHandler → TaskHandler
    unfolding last_line
    logging_middleware next ctx task =
        let (lines, err) = next ctx task in
        (
          task_started task.wire_type (task_id ctx) (retry_count ctx) ∷ lines
              ++ last_line ctx task err ∷ [],
          err,
        )

  -- asynq's ServeMux with Use, Handle, which may panic (`none`), and ProcessTask. The middlewares are
  -- around the handler, the first outermost; a handler that is registered under the very type of a
  -- task processes it, and a type has one handler.
  pub record MuxPackage : Type 1 where
    pub Mux : Type 0
    pub new_mux : Mux
    pub use_middleware : Mux → (TaskHandler → TaskHandler) → Mux
    pub mux_handle : Mux → String → TaskHandler → Option Mux
    pub process_task : Mux → TaskHandler
    pub layers : Mux → TaskHandler → TaskHandler
    pub handler_of : Mux → String → Option TaskHandler
    pub layers-new : (h : TaskHandler) → layers new_mux h ≡ h
    pub layers-use :
        (m : Mux) (f : TaskHandler → TaskHandler) (h : TaskHandler)
        → layers (use_middleware m f) h ≡ layers m (f h)
    pub layers-handle :
        (m m' : Mux) (p : String) (h k : TaskHandler)
        → mux_handle m p h ≡ some m'
        → layers m' k ≡ layers m k
    pub handler_free :
        (m m' : Mux) (p : String) (h : TaskHandler)
        → mux_handle m p h ≡ some m'
        → handler_of m p ≡ none
    pub handler_of-handle :
        (m m' : Mux) (p q : String) (h : TaskHandler)
        → mux_handle m p h ≡ some m'
        → handler_of m' q ≡ (if str_eq p q then some h else handler_of m q)
    pub process-layers :
        (m : Mux) (h : TaskHandler) (ctx : Ctx) (task : WireTask O)
        → handler_of m task.wire_type ≡ some h
        → process_task m ctx task ≡ layers m h ctx task

-- asynqLogger: the level at which each of its methods logs, and the text
pub data AsynqLevel : Type 0 where
  asynq_debug asynq_info asynq_warn asynq_error asynq_fatal : AsynqLevel

unfoldable pub asynq_logger :
    {A : Type 0} → (List A → String) → AsynqLevel → List A → SlogLevel × String
asynq_logger sprint asynq_debug args = (debug, sprint args)
asynq_logger sprint asynq_info args = (info, sprint args)
asynq_logger sprint asynq_warn args = (warn, sprint args)
asynq_logger sprint asynq_error args = (error, sprint args)
asynq_logger sprint asynq_fatal args = (error, sprint args)
