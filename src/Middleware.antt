-- ===== src/Middleware.antt =====
-- grpc/middleware: the error wrapper, request IDs, timeouts and recovery.
pub mod ErrorWrapper
pub mod Request
mod Tests
