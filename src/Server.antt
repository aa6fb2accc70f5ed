-- ===== src/Server.antt =====
-- server: the gateway in front of the gRPC server, its options and its logs.
pub mod Endpoints
pub mod ErrorHandler
pub mod Headers
pub mod Logging
pub mod Middleware
pub mod Lifecycle
pub mod Metrics
pub mod Grpc
pub mod Instance
pub mod Gateway
pub mod Options
mod Tests
