-- ===== src/Lib.antt =====
-- grpcx: a toolkit for gRPC services behind an HTTP gateway.
--
-- A request enters the gateway (server/gateway.go), whose SetMetadata functions turn HTTP headers into
-- gRPC metadata. The gRPC server (server/grpc.go) passes it through a chain of unary interceptors:
-- timeout, metrics and log first, then those of the application, such as the request ID and the error
-- wrapper (grpc/middleware), authentication (auth) and the rate limit (ratelimit). An error that the
-- handler returns (errs) is translated (i18n) and made a status by the error wrapper, and the
-- gateway's error handler writes it as JSON. Handlers use query, collection and rpcctx.
--
-- Files and the code they model:
--   Query             query/paging.go, query/order.go. A uint32 is a number below 2 ^ 32, with the
--                     wrap-around written out.
--   Collection        collection/collection.go. A set is a map whose values carry nothing.
--   Platform          what errs and others use of google.golang.org/grpc and fmt: operations and laws.
--   Errs              errs/errs.go. *errs.Error is Error; a Go error is GoError.
--   Context           the request context, with a field for each key in use, and grpc's metadata.
--   Rpcctx            rpcctx/rpcctx.go.
--   Auth              auth/*.go. The JWT package is JwtPackage; a time is an argument.
--   Http              what the program uses of net/http.
--   Middleware        grpc/middleware/*.go and logger/context.go. A conversion gives the error as it is
--                     afterwards, since it writes through the pointer.
--   I18n              i18n/i18n.go, over a directory, a YAML decoder and a template package.
--   Ratelimit         ratelimit/*.go. The entries of TokenBucketLimiter live in a heap, and the map
--                     holds their addresses. Concurrent has the interleavings of calls with
--                     the clean-up, one access to shared state a step.
--   Server            server/*.go. Lifecycle has the goroutines of Start and Serve, one communication a
--                     step; Instance New and Stop; Gateway and Metrics the routes, where a handler
--                     is what it does to its writer (Endpoints); Grpc the gRPC server with its health server.
--   Worker            worker/*.go. asynq's mux and encoding/json are parameters.
--   Httpclient        httpclient/*.go. A client is the list of the calls that set it up.
--   Logger            logger/logger.go, logger/value.go and logger/pretty.go. A record is the text that
--                     is written for it; an attribute may be a group of attributes.
--   Protojson         grpc/protojson/*.go.
--   Gatewayopt        grpc/gatewayopt/gatewayopt.go.
--   Id                id/nanoid.go, over a nanoid package.
--   Config            config/config.go, over viper.
--   Tracing           tracing/tracing.go, with the global provider and propagator as the state.
--   Samples           instances of the parameters, for the modules named Tests.
--
-- The order in which a range statement visits a map is a parameter, RangeOrder, of the definitions that
-- depend on it. Every loop is structural recursion on the slice or the text that it goes over, so no
-- fuel is used. A result with an error is Result; a nil pointer or map is an Option.
--
-- Not modelled: what only calls a package from elsewhere, such as worker.Client.Close, the start and
-- stop of asynq's servers, tracing.Tracer and the options of protojson's default marshaler; the
-- optional interfaces of a response writer, such as http.Flusher, which the wrappers of the server hide;
-- and the bytes of payloads, which are texts here.
pub mod Common
pub mod Query
pub mod Collection
pub mod Platform
pub mod Errs
pub mod Context
pub mod Rpcctx
pub mod Auth
pub mod Http
pub mod Samples
pub mod Middleware
pub mod I18n
pub mod Ratelimit
pub mod Server
pub mod Worker
pub mod Httpclient
pub mod Logger
pub mod Protojson
pub mod Gatewayopt
pub mod Id
pub mod Config
pub mod Tracing
