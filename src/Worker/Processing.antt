-- ===== src/Worker/Processing.antt =====
-- Register and the processing of tasks: worker/server.go and worker/task.go.
use grpcx.Common.{
  ℕ, String, List, [], ◌∷◌, ◌++◌, ◌≡◌, refl, ◌∙◌, ap, Option, some, eq_iff, arith, inl, inr, subst,
}
use grpcx.Common.Result.{Result, success, failure, Result-cases}
use grpcx.Worker.{
  WireTask, JsonCodec, Task, TaskLine, TaskHandler, task_new, task_handler, logging_middleware,
  MuxPackage, last_line, enqueue, schedule,
}

module _ (E O Ctx : Type 0) (K : MuxPackage E O Ctx) (task_id : Ctx → String)
    (retry_count : Ctx → ℕ) (elapsed_ms : Ctx → WireTask O → ℕ) where
  open K use {
    Mux, new_mux, use_middleware, mux_handle, process_task, layers, handler_of, layers-new,
    layers-use, layers-handle, handler_free, handler_of-handle, process-layers,
  }

  -- the mux of NewServer
  unfoldable pub server_mux : Mux
  server_mux = use_middleware new_mux (logging_middleware E O Ctx task_id retry_count elapsed_ms)

  -- Server.handle: the mux afterwards, or a panic
  unfoldable pub handle : Mux → String → TaskHandler E O Ctx → Option Mux
  handle m type_name h = mux_handle m type_name h

  -- Register
  unfoldable pub register :
      {P : Type 0}
      → JsonCodec E P
      → Mux
      → Task P
      → (Ctx → P → List (TaskLine E O Ctx) × Option E)
      → Option Mux
  unfolding handle task_handler
  register codec m task fn = handle m task.type_name (task_handler E O Ctx codec fn)

  -- The muxes that come about from that of NewServer by registrations.
  pub data Registered : Mux → Mux → Type 0 where
    same : (m : Mux) → Registered m m
    and_then :
        (m m' m'' : Mux) (type_name : String) (h : TaskHandler E O Ctx)
        → Registered m m'
        → handle m' type_name h ≡ some m''
        → Registered m m''

  layers-Registered :
      (m m' : Mux) (h : TaskHandler E O Ctx) → Registered m m' → layers m' h ≡ layers m h
  unfolding handle
  layers-Registered _ _ h (same m) = refl
  layers-Registered _ _ h (and_then m m' m'' type_name k r e) =
      layers-handle m' m'' type_name k h e ∙ layers-Registered m m' h r

  handler_of-Registered :
      (m m' : Mux) (type_name : String) (h : TaskHandler E O Ctx)
      → Registered m m'
      → handler_of m type_name ≡ some h
      → handler_of m' type_name ≡ some h
  unfolding handle
  handler_of-Registered _ _ type_name h (same m) there = there
  handler_of-Registered _ _ type_name h (and_then m m' m'' other k r e) there = ground (
    arith,
    handler_of-Registered m m' type_name h r there,
    handler_free m' m'' other k e,
    handler_of-handle m' m'' other type_name k e,
    eq_iff other type_name,
  )

  abbrev logged : TaskHandler E O Ctx → TaskHandler E O Ctx
  logged = logging_middleware E O Ctx task_id retry_count elapsed_ms

  layers-server_mux : (h : TaskHandler E O Ctx) → layers server_mux h ≡ logged h
  unfolding server_mux
  layers-server_mux h = layers-use new_mux logged h ∙ layers-new (logged h)

  logged_same :
      (h k : TaskHandler E O Ctx) (ctx : Ctx) (task : WireTask O)
      → h ctx task ≡ k ctx task
      → logged h ctx task ≡ logged k ctx task
  unfolding logging_middleware
  logged_same h k ctx task q =
      ap
        (λ t. (
          TaskLine.task_started task.wire_type (task_id ctx) (retry_count ctx) ∷ t.0
              ++ last_line E O Ctx task_id retry_count elapsed_ms ctx task t.1 ∷ [],
          t.1,
        ))
        q

  -- The task that New makes of a payload, processed.
  process_task-task_new :
      {P : Type 0} (codec : JsonCodec E P) (task : Task P)
      (fn : Ctx → P → List (TaskLine E O Ctx) × Option E) (before m after : Mux) (payload : P)
      (opts : List O) (wire : WireTask O) (ctx : Ctx)
      → Registered server_mux before
      → register codec before task fn ≡ some m
      → Registered m after
      → task_new E O Ctx codec task payload opts ≡ success wire
      → process_task after ctx wire
        ≡ logging_middleware E O Ctx task_id retry_count elapsed_ms (λ c w. fn c payload) ctx wire
  unfolding server_mux register handle task_new task_handler
  process_task-task_new codec task fn before m after payload opts wire ctx r e r' made =
      elim (Result-cases (codec.marshal payload)) [
        | inl (err, q) ↦ absurd (ground (arith, made, q))
        | inr (b, q) ↦
            let wire0 : WireTask O = record {
              wire_type = task.type_name;
              payload = b;
              options = opts;
            } in
            let same_wire : wire0 ≡ wire = ground (arith, made, q) in
            let h : TaskHandler E O Ctx = task_handler E O Ctx codec fn in
            let named : task.type_name ≡ wire.wire_type = ap (λ t. t.wire_type) same_wire in
            let read : codec.unmarshal wire.payload ≡ success payload =
              subst (λ t. codec.unmarshal t.payload ≡ success payload) same_wire
                (codec.unmarshal-marshal payload b q) in
            let registered : handler_of m task.type_name ≡ some h = ground (
              arith,
              handler_of-handle before m task.type_name task.type_name h e,
              eq_iff task.type_name task.type_name,
            ) in
            let found : handler_of after wire.wire_type ≡ some h =
              subst (λ t. handler_of after t ≡ some h) named
                (handler_of-Registered m after task.type_name h r' registered) in
            let around : layers after h ≡ logged h =
              layers-Registered m after h r'
              ∙ layers-handle before m task.type_name h h e
              ∙ layers-Registered server_mux before h r
              ∙ layers-server_mux h in
            process-layers after h ctx wire found
            ∙ ap (λ k. k ctx wire) around
            ∙ logged_same h (λ c w. fn c payload) ctx wire (rw (read, task_handler) refl)
      ]

  -- Enqueue and Schedule hand on one and the same task of a payload, and processing it runs the
  -- function: on a worker server on which the function was registered for the task, at any point
  -- among other registrations, it gives the lines and the error of the function at the payload that
  -- was handed in, with the lines of the log around them. Where the payload cannot be marshalled,
  -- that error is returned and nothing is enqueued or scheduled.
  pub process_task-enqueue :
      {P I S : Type 0} (codec : JsonCodec E P) (task : Task P)
      (fn : Ctx → P → List (TaskLine E O Ctx) × Option E) (before m after : Mux) (payload : P)
      (opts : List O) (ctx : Ctx) (send : Ctx → WireTask O → Result E I)
      (add_entry : S → String → WireTask O → S × Result E String) (s : S) (cron_expr : String)
      → Registered server_mux before
      → register codec before task fn ≡ some m
      → Registered m after
      → ((err : E)
          → codec.marshal payload ≡ failure err
          → (enqueue E O Ctx codec send ctx task payload opts ≡ failure err)
            × (schedule E O Ctx codec add_entry s cron_expr task payload opts ≡ (s, failure err)))
        × ((b : String)
            → codec.marshal payload ≡ success b
            → (wire : WireTask O) × (enqueue E O Ctx codec send ctx task payload opts
                ≡ send ctx wire)
              × (schedule E O Ctx codec add_entry s cron_expr task payload opts
                  ≡ add_entry s cron_expr wire)
              × (process_task after ctx wire
                  ≡ logging_middleware E O Ctx task_id retry_count elapsed_ms
                      (λ c w. fn c payload)
                      ctx
                      wire))
  unfolding enqueue schedule task_new
  process_task-enqueue codec task fn before m after payload opts ctx send add_entry s cron_expr r e
        r' =
      (
        λ err q. (rw (q, enqueue, task_new) refl, rw (q, schedule, task_new) refl),
        λ b q.
            let wire : WireTask O = record {
              wire_type = task.type_name;
              payload = b;
              options = opts;
            } in
            (
              wire,
              rw (q, enqueue, task_new) refl,
              rw (q, schedule, task_new) refl,
              process_task-task_new codec task fn before m after payload opts wire ctx r e r'
                  (rw (q, task_new) refl),
            ),
      )
