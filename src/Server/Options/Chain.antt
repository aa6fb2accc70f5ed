-- ===== src/Server/Options/Chain.antt =====
-- What the chain of interceptors does to a request, and what options leave in the configuration.
use mathlib.Core.List.{append-nil, append_assoc}
use grpcx.Common.{
  ℕ, ◌+◌, String, List, [], ◌∷◌, ◌++◌, ◌≡◌, refl, ◌∙◌, ap, sym, Option, none, some, if◌then◌else◌,
  contains, string_equality, Option-cases, inl, inr,
}
use grpcx.Platform.{Platform}
use grpcx.Context.{MetadataPackage, Context}
use grpcx.Auth.{Handler}
use grpcx.Middleware.Request.{timeout_interceptor}
use grpcx.Server.Options.{
  Interceptor, ChainPackage, build_default_unary_interceptors, server_unary_chain, skip_log,
  timeout_of, Parts, Config, create_config, create_default_config, apply_all,
  with_grpc_server_unary_interceptors,
}

module _ (M : MetadataPackage) (P : Platform) {Req Resp : Type 0}
    (C : ChainPackage M P Req Resp) where
  open C use {chain, chain_empty, chain-cons}

  abbrev pub deadline_or : ℕ → Option ℕ → Option ℕ
  deadline_or d none = some d
  deadline_or d (some own) = some own

  -- The deadline with which a request goes on: its own, or the default.
  abbrev pub with_deadline : ℕ → ℕ → Context M → Context M
  with_deadline default_timeout now ctx = record ctx {
    deadline = deadline_or (now + default_timeout) ctx.deadline;
  }

  timeout_step :
      (default_timeout now : ℕ) (ctx : Context M) (req : Req) (next : Handler M P Req Resp)
      → timeout_interceptor M P default_timeout now ctx req next
        ≡ next (with_deadline default_timeout now ctx) req
  unfolding timeout_interceptor
  timeout_step default_timeout now ctx req next = elim (Option-cases ctx.deadline) [
    | inl missing ↦ rw missing refl
    | inr (d, there) ↦
        rw (there, timeout_interceptor) (ap (λ o. next (record ctx { deadline = o }) req) there)
  ]

  -- A request passes the default interceptors before the application's own: those get it with a
  -- deadline, its own or the default, and the log is around them unless the method is on the skip
  -- list, in which case it is not run. The metrics interceptor is taken to hand the request on.
  pub server_unary_chain_lem :
      (metrics log_interceptor : Interceptor M P Req Resp) (now default_timeout : ℕ)
      (skip : List String) (app : List (Interceptor M P Req Resp)) (ctx : Context M) (req : Req)
      (method : String) (handler : Handler M P Req Resp)
      → ((c : Context M) (r : Req) (m : String) (h : Handler M P Req Resp)
          → metrics c r m h ≡ h c r)
      → let inner : Handler M P Req Resp = λ c r. chain app c r method handler in
        let ctx' : Context M = with_deadline default_timeout now ctx in
        chain
          (server_unary_chain M P metrics log_interceptor now default_timeout skip app)
          ctx
          req
          method
          handler
        ≡ (if contains skip method then inner ctx' req else log_interceptor ctx' req method inner)
  unfolding server_unary_chain build_default_unary_interceptors skip_log timeout_of
  server_unary_chain_lem metrics log_interceptor now default_timeout skip app ctx req method handler
        transparent =
      let after : List (Interceptor M P Req Resp) =
        skip_log M P metrics log_interceptor skip ∷ app in
      let ctx' : Context M = with_deadline default_timeout now ctx in
      chain-cons (timeout_of M P metrics log_interceptor default_timeout now) (metrics ∷ after) ctx
        req method handler
      ∙ timeout_step default_timeout now ctx req (λ c r. chain (metrics ∷ after) c r method handler)
      ∙ chain-cons metrics after ctx' req method handler
      ∙ transparent ctx' req method (λ c r. chain after c r method handler)
      ∙ chain-cons (skip_log M P metrics log_interceptor skip) app ctx' req method handler

module _ (T : Parts) where
  open T use {Unary}

  abbrev pub batches_in_order : List (List Unary) → List Unary
  batches_in_order [] = []
  batches_in_order (interceptors ∷ batches) = interceptors ++ batches_in_order batches

  abbrev pub options_for : List (List Unary) → List (Config T → Config T)
  options_for [] = []
  options_for (interceptors ∷ batches) =
      with_grpc_server_unary_interceptors T interceptors ∷ options_for batches

  abbrev pub added : Config T → List Unary → Config T
  added c interceptors = record c {
    grpc = record c.grpc {
      server_unary_interceptors = c.grpc.server_unary_interceptors ++ interceptors;
    };
  }

  apply_all-options_for :
      (c : Config T) (batches : List (List Unary))
      → apply_all T c (options_for batches) ≡ added c (batches_in_order batches)
  unfolding apply_all with_grpc_server_unary_interceptors
  apply_all-options_for c [] =
      ap (λ l. record c { grpc = record c.grpc { server_unary_interceptors = l } })
        (sym (append-nil c.grpc.server_unary_interceptors))
  apply_all-options_for c (interceptors ∷ batches) =
      apply_all-options_for (added c interceptors) batches
      ∙ ap (λ l. record c { grpc = record c.grpc { server_unary_interceptors = l } })
          (append_assoc c.grpc.server_unary_interceptors interceptors (batches_in_order batches))

  -- Options for unary interceptors add up: the configuration has the interceptors of all of them, in
  -- the order of the options, and is the default one otherwise.
  pub create_config-options_for :
      (batches : List (List Unary))
      → create_config T (options_for batches)
        ≡ added (create_default_config T) (batches_in_order batches)
  unfolding create_config
  create_config-options_for batches = apply_all-options_for (create_default_config T) batches
