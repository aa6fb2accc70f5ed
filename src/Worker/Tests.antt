-- ===== src/Worker/Tests.antt =====
-- A worker server with two tasks, and the task that is made of a payload.
use grpcx.Common.{
  ℕ, String, List, [], ◌∷◌, ◌≡◌, refl, ap, sym, Option, none, some, Map, lookup, store,
  lookup-store, if◌then◌else◌, str_eq, string_equality, is_some, arith, Option-cases, inl, inr,
}
use grpcx.Common.Text.{◌+++◌}
use grpcx.Common.Result.{Result, success}
use grpcx.Common.{◌+◌}
use grpcx.Worker.{
  enqueue, schedule, Task, WireTask, JsonCodec, TaskLine, TaskHandler, MuxPackage, task_handler,
  logging_middleware, own_line,
}
use grpcx.Worker.Processing.{server_mux, handle, register, same, process_task-enqueue}

abbrev Handler : Type 0
Handler = TaskHandler String String String

-- a mux: its middlewares as one, and its table
record SampleMux : Type 0 where
  around : Handler → Handler
  table : Map String Handler

abbrev handle_in : SampleMux → String → Handler → Option SampleMux
handle_in m p h =
    if is_some (lookup p m.table) then none else some (record m { table = store p h m.table })

abbrev run_found : SampleMux → Option Handler → Handler
run_found m none ctx task = ([], some "not found")
run_found m (some h) ctx task = m.around h ctx task

handle_facts :
    (m m' : SampleMux) (p q : String) (h k : Handler)
    → handle_in m p h ≡ some m'
    → (m'.around k ≡ m.around k)
      × (lookup p m.table ≡ none)
      × (lookup q m'.table ≡ (if str_eq p q then some h else lookup q m.table))
handle_facts m m' p q h k e = elim (Option-cases (lookup p m.table)) [
  | inr (there, f) ↦ absurd (ground (arith, e, f))
  | inl f ↦
      let made : record m { table = store p h m.table } ≡ m' = ground (arith, e, f) in
      (
        ap (λ t. t.around k) (sym made),
        f,
        ground (arith, ap (λ t. lookup q t.table) made, lookup-store p q h m.table),
      )
]

abbrev sample_mux : MuxPackage String String String
sample_mux = record {
  Mux = SampleMux;
  new_mux = record { around = λ h. h; table = [] };
  use_middleware = λ m f. record m { around = λ h. m.around (f h) };
  mux_handle = handle_in;
  process_task = λ m ctx task. run_found m (lookup task.wire_type m.table) ctx task;
  layers = λ m h. m.around h;
  handler_of = λ m p. lookup p m.table;
  layers-new = λ h. refl;
  layers-use = λ m f h. refl;
  layers-handle = λ m m' p h k e. (handle_facts m m' p p h k e).0;
  handler_free = λ m m' p h e. (handle_facts m m' p p h h e).1;
  handler_of-handle = λ m m' p q h e. (handle_facts m m' p q h h e).2;
  process-layers = λ m h ctx task e. ap (λ o. run_found m o ctx task) e;
}

-- payloads that are their own JSON
abbrev plain_codec : JsonCodec String String
plain_codec = record {
  marshal = λ p. success p;
  unmarshal = λ b. success b;
  unmarshal-marshal = λ p b e. sym e;
}

abbrev greet : String → String → List (TaskLine String String String) × Option String
greet ctx p = (own_line ("hello " +++ p) ∷ [], none)

abbrev task_id : String → String
task_id ctx = ctx

abbrev retries : String → ℕ
retries ctx = 0

abbrev elapsed : String → WireTask String → ℕ
elapsed ctx task = 7

abbrev start_mux : SampleMux
start_mux = server_mux String String String sample_mux task_id retries elapsed

abbrev greet_task : Task String
greet_task = record { type_name = "greet" }

abbrev with_greet : SampleMux
with_greet = record start_mux {
  table = ("greet", task_handler String String String plain_codec greet) ∷ [];
}

registers :
    register String String String sample_mux task_id retries elapsed plain_codec start_mux
      greet_task greet
    ≡ some with_greet
unfolding register handle server_mux lookup store
registers = refl

-- a queue that accepts every task and gives its type
abbrev send : String → WireTask String → Result String String
send ctx task = success task.wire_type

abbrev entry : ℕ → String → WireTask String → ℕ × Result String String
entry s cron_expr task = (s + 1, success cron_expr)

process_task-enqueue_example :
    (enqueued : WireTask String) × (enqueue String String String plain_codec send "id1" greet_task
        "ann" []
      ≡ send "id1" enqueued)
    × (schedule String String String plain_codec entry 4 "@hourly" greet_task "ann" []
        ≡ entry 4 "@hourly" enqueued)
    × (run_found with_greet (lookup enqueued.wire_type with_greet.table) "id1" enqueued
        ≡ logging_middleware String String String task_id retries elapsed
            (λ c w. greet c "ann")
            "id1"
            enqueued)
process_task-enqueue_example =
    (process_task-enqueue String String String sample_mux task_id retries elapsed plain_codec
        greet_task greet start_mux with_greet with_greet "ann" [] "id1" send entry 4 "@hourly"
        (same start_mux) registers (same with_greet)).1
      "ann" refl
